-- ===== src/Topic/ParamMap/Order.antt =====
-- The order of the keys, and maps that do not depend on the order of insertion.
use mathlib.Core.List.{Permᴰ}
use opencmw_cpp.Base.{
  ◌≡◌, ◌≢◌, refl, sym, ap, ◌∙◌, inl, inr, Bytes, bytes_lt, true, false, [], ◌∷◌, ◌++◌, Option, All,
  All-append, append-nil, append_assoc, subst, arith, Bool-cases,
}
use opencmw_cpp.Uri.Query.{Params}
use opencmw_cpp.Uri.Query.Laws.{HasDistinctKeys}
use opencmw_cpp.Topic.ParamMap.{insert_param, insert_all}

bytes_lt_irrefl : (s : Bytes) → bytes_lt s s ≡ false
unfolding bytes_lt
bytes_lt_irrefl [] = refl
bytes_lt_irrefl (x ∷ xs) = ground (arith, bytes_lt_irrefl xs)

bytes_lt-asymm : (s t : Bytes) → bytes_lt s t ≡ true → bytes_lt t s ≡ false
unfolding bytes_lt
bytes_lt-asymm [] [] h = refl
bytes_lt-asymm [] (y ∷ ys) h = refl
bytes_lt-asymm (x ∷ xs) [] h = cc
bytes_lt-asymm (x ∷ xs) (y ∷ ys) h = ground (arith, bytes_lt-asymm xs ys)

bytes_lt_trans : (s t u : Bytes) → bytes_lt s t ≡ true → bytes_lt t u ≡ true → bytes_lt s u ≡ true
unfolding bytes_lt
bytes_lt_trans [] [] u h k = cc
bytes_lt_trans (x ∷ xs) [] u h k = cc
bytes_lt_trans s (y ∷ ys) [] h k = cc
bytes_lt_trans [] (y ∷ ys) (z ∷ zs) h k = refl
bytes_lt_trans (x ∷ xs) (y ∷ ys) (z ∷ zs) h k = ground (arith, bytes_lt_trans xs ys zs)

-- Two texts, neither of which is before the other, are equal.
bytes_lt-total : (s t : Bytes) → bytes_lt s t ≡ false → bytes_lt t s ≡ false → s ≡ t
unfolding bytes_lt
bytes_lt-total [] [] h k = refl
bytes_lt-total [] (y ∷ ys) h k = cc
bytes_lt-total (x ∷ xs) [] h k = cc
bytes_lt-total (x ∷ xs) (y ∷ ys) h k = ground (arith, bytes_lt-total xs ys)

-- Two entries with distinct keys go in in either order.
insert_param_comm :
    (k j : Bytes) (v w : Option Bytes) (m : Params)
    → k ≢ j
    → insert_param k v (insert_param j w m) ≡ insert_param j w (insert_param k v m)
unfolding insert_param
insert_param_comm k j v w [] h =
    ground (arith, bytes_lt-asymm k j, bytes_lt-asymm j k, bytes_lt-total k j)
insert_param_comm k j v w ((i, u) ∷ m) h = ground (
  arith,
  bytes_lt-asymm k j,
  bytes_lt-asymm j k,
  bytes_lt-total k j,
  bytes_lt-asymm k i,
  bytes_lt-asymm i k,
  bytes_lt-asymm j i,
  bytes_lt-asymm i j,
  bytes_lt_trans k i j,
  bytes_lt_trans j i k,
  bytes_lt_trans k j i,
  bytes_lt_trans j k i,
  bytes_lt_trans i j k,
  bytes_lt_trans i k j,
  bytes_lt-total k i,
  bytes_lt-total j i,
  insert_param_comm k j v w m,
)

pub All-perm {κ} :
    (P : Bytes × Option Bytes → Type κ) {ps qs : Params} → Permᴰ ps qs → All P ps → All P qs
All-perm P Permᴰ.nil h = tt
All-perm P (Permᴰ.cons e p) h = (subst P e h.0, All-perm P p h.1)
All-perm P (Permᴰ.swap e f) h = (subst P f h.1.0, (subst P e h.0, h.1.1))
All-perm P (Permᴰ.trans p q) h = All-perm P q (All-perm P p h)

abbrev Differs : Bytes × Option Bytes → Bytes × Option Bytes → Type 0
Differs p q = p.0 ≢ q.0

pub HasDistinctKeys-perm : {ps qs : Params} → Permᴰ ps qs → HasDistinctKeys ps → HasDistinctKeys qs
HasDistinctKeys-perm Permᴰ.nil h = tt
HasDistinctKeys-perm (Permᴰ.cons {l₂ = qs} e p) h =
    (subst (λ a. All (Differs a) qs) e (All-perm _ p h.0), HasDistinctKeys-perm p h.1)
HasDistinctKeys-perm (Permᴰ.swap {l = qs} e f) h = (
  (
    λ k. h.0.0 (ap (λ x. x.0) e ∙ sym k ∙ sym (ap (λ x. x.0) f)),
    subst (λ a. All (Differs a) qs) f h.1.0,
  ),
  (subst (λ a. All (Differs a) qs) e h.0.1, h.1.1),
)
HasDistinctKeys-perm (Permᴰ.trans p q) h = HasDistinctKeys-perm q (HasDistinctKeys-perm p h)

-- The order in which entries with distinct keys are inserted makes no difference to the map.
pub insert_all_perm :
    {ps qs : Params} (m : Params)
    → Permᴰ ps qs
    → HasDistinctKeys ps
    → insert_all ps m ≡ insert_all qs m
unfolding insert_all
insert_all_perm m Permᴰ.nil h = refl
insert_all_perm m (Permᴰ.cons {a = a} {l₂ = l} e p) h =
    insert_all_perm (insert_param a.0 a.1 m) p h.1
    ∙ ap (λ (x : Bytes × Option Bytes). insert_all l (insert_param x.0 x.1 m)) e
insert_all_perm m (Permᴰ.swap {a = a} {b = b} {l = l} e f) h =
    rw (← e, ← f) (ap (insert_all l) (insert_param_comm b.0 a.0 b.1 a.1 m (λ k. h.0.0 (sym k))))
insert_all_perm m (Permᴰ.trans p q) h =
    insert_all_perm m p h ∙ insert_all_perm m q (HasDistinctKeys-perm p h)

-- The keys rise along the list: the form that a `std::map` has.
abbrev Before : Bytes × Option Bytes → Bytes × Option Bytes → Type 0
Before p q = bytes_lt p.0 q.0 ≡ true

abbrev pub IsSorted : Params → Type 0
IsSorted [] = Unit
IsSorted (p ∷ ps) = All (λ q. bytes_lt p.0 q.0 ≡ true) ps × IsSorted ps

lt-ne : (s t : Bytes) → bytes_lt s t ≡ true → s ≢ t
lt-ne s t h e = cc (bytes_lt_irrefl t, rw e at h)

Differs-of_Before :
    (p : Bytes × Option Bytes) (ps : Params) → All (Before p) ps → All (Differs p) ps
Differs-of_Before p [] h = tt
Differs-of_Before p (q ∷ ps) h = (lt-ne p.0 q.0 h.0, Differs-of_Before p ps h.1)

pub HasDistinctKeys-of_sorted : (ps : Params) → IsSorted ps → HasDistinctKeys ps
HasDistinctKeys-of_sorted [] h = tt
HasDistinctKeys-of_sorted (p ∷ ps) h =
    (Differs-of_Before p ps h.0, HasDistinctKeys-of_sorted ps h.1)

-- An entry behind all others goes to the end.
insert_param-last :
    (k : Bytes) (v : Option Bytes) (m : Params)
    → All (λ q. bytes_lt q.0 k ≡ true) m
    → insert_param k v m ≡ m ++ (k, v) ∷ []
unfolding insert_param
insert_param-last k v [] h = refl
insert_param-last k v ((j, w) ∷ m) h =
    ground (arith, bytes_lt-asymm j k, insert_param-last k v m h.1)

abbrev AllBefore : Params → Params → Type 0
AllBefore m ps = All (λ p. All (λ q. bytes_lt q.0 p.0 ≡ true) m) ps

AllBefore-append :
    (p : Bytes × Option Bytes) (m ps : Params)
    → AllBefore m ps
    → All (Before p) ps
    → AllBefore (m ++ p ∷ []) ps
AllBefore-append p m [] h k = tt
AllBefore-append p m (r ∷ ps) h k = (
  All-append (λ q. bytes_lt q.0 r.0 ≡ true) m (p ∷ []) h.0 (k.0, tt),
  AllBefore-append p m ps h.1 k.1,
)

insert_all-append : (ps m : Params) → IsSorted ps → AllBefore m ps → insert_all ps m ≡ m ++ ps
unfolding insert_all
insert_all-append [] m s h = sym (append-nil m)
insert_all-append ((k, v) ∷ ps) m s h =
    rw (insert_param-last k v m h.0)
      (insert_all-append ps (m ++ (k, v) ∷ []) s.1 (AllBefore-append (k, v) m ps h.1 s.0))
    ∙ append_assoc m ((k, v) ∷ []) ps

AllBefore-nil : (ps : Params) → AllBefore [] ps
AllBefore-nil [] = tt
AllBefore-nil (p ∷ ps) = (tt, AllBefore-nil ps)

-- A map that is filled from its own entries, in any order, is the same map.
pub insert_all_of_perm : (ps qs : Params) → IsSorted ps → Permᴰ ps qs → insert_all qs [] ≡ ps
insert_all_of_perm ps qs s p =
    sym (insert_all_perm [] p (HasDistinctKeys-of_sorted ps s))
    ∙ insert_all-append ps [] s (AllBefore-nil ps)

-- Insertion keeps a map sorted.
insert_param-Before :
    (p : Bytes × Option Bytes) (k : Bytes) (v : Option Bytes) (m : Params)
    → All (Before p) m
    → bytes_lt p.0 k ≡ true
    → All (Before p) (insert_param k v m)
unfolding insert_param
insert_param-Before p k v [] h e = (e, tt)
insert_param-Before p k v ((j, w) ∷ m) h e = ground (arith, insert_param-Before p k v m h.1 e)

before_trans :
    (k j : Bytes) (m : Params)
    → bytes_lt k j ≡ true
    → All (λ q. bytes_lt j q.0 ≡ true) m
    → All (λ q. bytes_lt k q.0 ≡ true) m
before_trans k j [] h a = tt
before_trans k j (q ∷ m) h a = (bytes_lt_trans k j q.0 h a.0, before_trans k j m h a.1)

pub insert_param-IsSorted :
    (k : Bytes) (v : Option Bytes) (m : Params) → IsSorted m → IsSorted (insert_param k v m)
unfolding insert_param
insert_param-IsSorted k v [] h = (tt, tt)
insert_param-IsSorted k v ((j, w) ∷ m) h = elim (Bool-cases (bytes_lt k j)) [
  | inl first ↦ rw first ((first, before_trans k j m first h.0), h)
  | inr later ↦ elim (Bool-cases (bytes_lt j k)) [
    | inl further ↦
        rw (later, further)
          (insert_param-Before (j, w) k v m h.0 further, insert_param-IsSorted k v m h.1)
    | inr here ↦ rw (later, here) h
  ]
]

-- Inserting any entries keeps a sorted map sorted.
pub insert_all-IsSorted : (ps m : Params) → IsSorted m → IsSorted (insert_all ps m)
unfolding insert_all
insert_all-IsSorted [] m h = h
insert_all-IsSorted ((k, v) ∷ ps) m h =
    insert_all-IsSorted ps (insert_param k v m) (insert_param-IsSorted k v m h)
