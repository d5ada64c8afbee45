-- ===== src/Broker/Workers/Waiting.antt =====
-- Sets of keys that an association list knows: for the waiting lists and the map of workers.
use opencmw_cpp.Base.{
  ◌≡◌, ◌≢◌, refl, sym, ◌∙◌, true, false, ◌||◌, List, [], ◌∷◌, ◌++◌, some, find, erase,
  find-erase_ne, has_key, arith,
}

module _ {K : Type 0} (dec : Discrete K) where
  pub has_key-append :
      (k : K) (ks js : List K) → has_key dec k (ks ++ js) ≡ (has_key dec k ks || has_key dec k js)
  unfolding has_key
  has_key-append k [] js = refl
  has_key-append k (i ∷ ks) js = ground (arith, has_key-append k ks js)

  ne_of_absent :
      (k j : K) (ks : List K) → has_key dec k ks ≡ false → has_key dec j ks ≡ true → k ≢ j
  unfolding has_key
  ne_of_absent k j ks h g e = ground (arith, e, h, g)

  ne_of_front : (k j : K) (ks : List K) → has_key dec j (k ∷ ks) ≡ false → k ≢ j
  unfolding has_key
  ne_of_front k j ks h e = ground (arith, e, h)

  absent_behind :
      (k j : K) (ks : List K) → has_key dec j (k ∷ ks) ≡ false → has_key dec j ks ≡ false
  unfolding has_key
  absent_behind k j ks h = ground (arith, h)

  absent_front :
      (k j : K) (ks : List K) → k ≢ j → has_key dec j ks ≡ false → has_key dec j (k ∷ ks) ≡ false
  unfolding has_key
  absent_front k j ks h e = ground (arith, h, e)

module _ {K V : Type 0} (dec : Discrete K) where
  -- The keys are distinct, and the map knows each of them.
  abbrev pub AreKnown : List K → List (K × V) → Type 0
  AreKnown [] m = Unit
  AreKnown (k ∷ ks) m =
      ((v : V) × (find dec k m ≡ some v)) × (has_key dec k ks ≡ false) × AreKnown ks m

  -- The map may change where none of the keys is.
  pub AreKnown-agree :
      (ks : List K) (m n : List (K × V))
      → AreKnown ks m
      → ((k : K) → has_key dec k ks ≡ true → find dec k n ≡ find dec k m)
      → AreKnown ks n
  unfolding has_key
  AreKnown-agree [] m n h agree = tt
  AreKnown-agree (k ∷ ks) m n h agree = (
    (h.0.0, agree k (ground arith) ∙ h.0.1),
    h.1,
    AreKnown-agree ks m n h.2 (λ j e. agree j (ground (arith, e))),
  )

  pub AreKnown-append :
      (ks js : List K) (m : List (K × V))
      → AreKnown ks m
      → AreKnown js m
      → ((k : K) → has_key dec k ks ≡ true → has_key dec k js ≡ false)
      → AreKnown (ks ++ js) m
  unfolding has_key
  AreKnown-append [] js m h g d = g
  AreKnown-append (k ∷ ks) js m h g d = (
    h.0,
    rw (has_key-append dec k ks js, h.1) (d k (ground arith)),
    AreKnown-append ks js m h.2 g (λ i e. d i (ground (arith, e))),
  )

  pub AreKnown-left : (ks js : List K) (m : List (K × V)) → AreKnown (ks ++ js) m → AreKnown ks m
  AreKnown-left [] js m h = tt
  AreKnown-left (k ∷ ks) js m h = (
    h.0,
    (let apart = sym (has_key-append dec k ks js) ∙ h.1 in ground (arith, apart)),
    AreKnown-left ks js m h.2,
  )

  pub AreKnown-right : (ks js : List K) (m : List (K × V)) → AreKnown (ks ++ js) m → AreKnown js m
  AreKnown-right [] js m h = h
  AreKnown-right (k ∷ ks) js m h = AreKnown-right ks js m h.2

  pub AreKnown-apart :
      (ks js : List K) (m : List (K × V))
      → AreKnown (ks ++ js) m
      → (k : K) → has_key dec k ks ≡ true
      → has_key dec k js ≡ false
  unfolding has_key
  AreKnown-apart [] js m h k e = cc
  AreKnown-apart (i ∷ ks) js m h k e =
      let apart = sym (has_key-append dec i ks js) ∙ h.1 in
      ground (arith, apart, e, AreKnown-apart ks js m h.2 k)

  pub AreKnown-erase :
      (k : K) (ks : List K) (m : List (K × V))
      → has_key dec k ks ≡ false
      → AreKnown ks m
      → AreKnown ks (erase dec k m)
  AreKnown-erase k ks m h g =
      AreKnown-agree ks m (erase dec k m) g
        (λ j e. find-erase_ne dec k j m (ne_of_absent dec k j ks h e))

  -- From some keys and a map to fewer keys and a map, which is the same where those keys are not.
  pub record Shrinks (ks : List K) (m : List (K × V)) (ks' : List K) (m' : List (K × V))
      : Type 0 where
    pub known : AreKnown ks' m'
    pub fewer : (k : K) → has_key dec k ks ≡ false → has_key dec k ks' ≡ false
    pub same : (k : K) → has_key dec k ks ≡ false → find dec k m' ≡ find dec k m

  pub Shrinks-append :
      (ks js ks' js' : List K) (m n p : List (K × V))
      → ((k : K) → has_key dec k ks ≡ true → has_key dec k js ≡ false)
      → Shrinks ks m ks' n
      → Shrinks js n js' p
      → Shrinks (ks ++ js) m (ks' ++ js') p
  Shrinks-append ks js ks' js' m n p d f g = record {
    known =
        AreKnown-append ks' js' p
          (AreKnown-agree ks' n p f.known (λ k e. g.same k (ground (arith, e, d k, f.fewer k))))
          g.known (λ k e. g.fewer k (ground (arith, e, d k, f.fewer k)));
    fewer = λ k e.
        let apart = sym (has_key-append dec k ks js) ∙ e in
        rw (has_key-append dec k ks' js') (ground (arith, apart, f.fewer k, g.fewer k));
    same = λ k e.
        let apart = sym (has_key-append dec k ks js) ∙ e in
        g.same k (ground (arith, apart)) ∙ f.same k (ground (arith, apart));
  }

  pub Shrinks-nil : (m : List (K × V)) → Shrinks [] m [] m
  Shrinks-nil m = record { known = tt; fewer = λ k e. e; same = λ k e. refl }

  -- a key is dropped, in the list and in the map
  pub Shrinks-drop :
      (k : K) (ks ks' : List K) (m n : List (K × V))
      → Shrinks ks (erase dec k m) ks' n
      → Shrinks (k ∷ ks) m ks' n
  Shrinks-drop k ks ks' m n v = record {
    known = v.known;
    fewer = λ j e. v.fewer j (absent_behind dec k j ks e);
    same = λ j e.
        v.same j (absent_behind dec k j ks e) ∙ find-erase_ne dec k j m (ne_of_front dec k j ks e);
  }

  -- a key is kept
  pub Shrinks-keep :
      (k : K) (v : V) (ks ks' : List K) (m n : List (K × V))
      → find dec k m ≡ some v
      → has_key dec k ks ≡ false
      → Shrinks ks m ks' n
      → Shrinks (k ∷ ks) m (k ∷ ks') n
  Shrinks-keep k v ks ks' m n found once s = record {
    known = ((v, s.same k once ∙ found), s.fewer k once, s.known);
    fewer = λ j e.
        absent_front dec k j ks' (ne_of_front dec k j ks e)
          (s.fewer j (absent_behind dec k j ks e));
    same = λ j e. s.same j (absent_behind dec k j ks e);
  }
