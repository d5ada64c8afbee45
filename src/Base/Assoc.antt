-- ===== src/Base/Assoc.antt =====
-- Association lists for the program's `std::unordered_map`, `std::map` and `std::set`. A new entry
-- goes to the end. The order of an unordered container is not specified by its library, so the
-- order of the list stands for the order in which the program happens to meet the entries.
use mathlib.Core.Path.{◌≡◌, refl}
use mathlib.Core.Logic.{◌≢◌, ite}
use mathlib.Core.Bool.{Bool, true, false}
use mathlib.Core.List.{List, [], ◌∷◌}
use mathlib.Core.Option
use mathlib.Core.Option.{Option, none, some}
use native.Mathlib.Omega.{arith}

module _ {ℓ} {K V : Type ℓ} (dec : Discrete K) where
  -- `m.find(k)`
  unfoldable pub find : K → List (K × V) → Option V
  find k [] = none
  find k ((j, v) ∷ m) = ite (dec j k) (some v) (find k m)

  -- `m.contains(k)`
  unfoldable pub contains : K → List (K × V) → Bool
  unfolding find
  contains k m = elim (find k m) [ none ↦ false | some v ↦ true ]

  -- `m.try_emplace(k, v)`: an entry that is there stays as it is
  unfoldable pub try_emplace : K → V → List (K × V) → List (K × V)
  try_emplace k v [] = (k, v) ∷ []
  try_emplace k v ((j, w) ∷ m) = ite (dec j k) ((j, w) ∷ m) ((j, w) ∷ try_emplace k v m)

  -- `m[k] = v`
  unfoldable pub assign : K → V → List (K × V) → List (K × V)
  assign k v [] = (k, v) ∷ []
  assign k v ((j, w) ∷ m) = ite (dec j k) ((j, v) ∷ m) ((j, w) ∷ assign k v m)

  -- a change of the entry of a key through an iterator or a reference
  unfoldable pub modify : K → (V → V) → List (K × V) → List (K × V)
  modify k f [] = []
  modify k f ((j, w) ∷ m) = ite (dec j k) ((j, f w) ∷ m) ((j, w) ∷ modify k f m)

  -- `m.erase(k)`
  unfoldable pub erase : K → List (K × V) → List (K × V)
  erase k [] = []
  erase k ((j, w) ∷ m) = ite (dec j k) (erase k m) ((j, w) ∷ erase k m)

  pub find-try_emplace :
      (k j : K) (v : V) (m : List (K × V))
      → find j (try_emplace k v m)
        ≡ elim (find j m) [ none ↦ ite (dec k j) (some v) none | some w ↦ some w ]
  unfolding find try_emplace
  find-try_emplace k j v [] = ground arith
  find-try_emplace k j v ((i, w) ∷ m) = ground (arith, find-try_emplace k j v m)

  pub find-try_emplace_ne :
      (k j : K) (v : V) (m : List (K × V)) → k ≢ j → find j (try_emplace k v m) ≡ find j m
  unfolding find try_emplace
  find-try_emplace_ne k j v [] h = ground arith
  find-try_emplace_ne k j v ((i, w) ∷ m) h = ground (arith, find-try_emplace_ne k j v m)

  pub find-assign :
      (k j : K) (v : V) (m : List (K × V))
      → find j (assign k v m) ≡ ite (dec k j) (some v) (find j m)
  unfolding find assign
  find-assign k j v [] = refl
  find-assign k j v ((i, w) ∷ m) = ground (arith, find-assign k j v m)

  pub find-modify_self :
      (k : K) (f : V → V) (m : List (K × V)) → find k (modify k f m) ≡ Option.map f (find k m)
  unfolding find modify
  find-modify_self k f [] = refl
  find-modify_self k f ((i, w) ∷ m) = ground (arith, find-modify_self k f m)

  pub find-modify_ne :
      (k j : K) (f : V → V) (m : List (K × V)) → k ≢ j → find j (modify k f m) ≡ find j m
  unfolding find modify
  find-modify_ne k j f [] h = refl
  find-modify_ne k j f ((i, w) ∷ m) h = ground (arith, find-modify_ne k j f m)

  pub find-erase_self : (k : K) (m : List (K × V)) → find k (erase k m) ≡ none
  unfolding find erase
  find-erase_self k [] = refl
  find-erase_self k ((i, w) ∷ m) = ground (arith, find-erase_self k m)

  pub find-erase_ne : (k j : K) (m : List (K × V)) → k ≢ j → find j (erase k m) ≡ find j m
  unfolding find erase
  find-erase_ne k j [] h = refl
  find-erase_ne k j ((i, w) ∷ m) h = ground (arith, find-erase_ne k j m)

module _ {ℓ} {K : Type ℓ} (dec : Discrete K) where
  -- `s.contains(k)` for a set
  unfoldable pub has_key : K → List K → Bool
  has_key k [] = false
  has_key k (j ∷ s) = elim (dec j k) [ yes e ↦ true | no h ↦ has_key k s ]

  -- `s.insert(k)`
  unfoldable pub add_key : K → List K → List K
  add_key k [] = k ∷ []
  add_key k (j ∷ s) = ite (dec j k) (j ∷ s) (j ∷ add_key k s)

  -- `s.erase(k)`
  unfoldable pub remove_key : K → List K → List K
  remove_key k [] = []
  remove_key k (j ∷ s) = ite (dec j k) (remove_key k s) (j ∷ remove_key k s)

  pub has_key-add_key :
      (k j : K) (s : List K)
      → has_key j (add_key k s) ≡ elim (dec k j) [ yes e ↦ true | no h ↦ has_key j s ]
  unfolding has_key add_key
  has_key-add_key k j [] = refl
  has_key-add_key k j (i ∷ s) = ground (arith, has_key-add_key k j s)

  pub has_key-remove_key :
      (k j : K) (s : List K)
      → has_key j (remove_key k s) ≡ elim (dec k j) [ yes e ↦ false | no h ↦ has_key j s ]
  unfolding has_key remove_key
  has_key-remove_key k j [] = ground arith
  has_key-remove_key k j (i ∷ s) = ground (arith, has_key-remove_key k j s)
