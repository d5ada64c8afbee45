-- ===== src/Disruptor/Sequence.antt =====
-- Sequence.hpp: the minimum of the gating sequences, and the list of them that a ring buffer keeps.
-- A sequence that is shared is a number, under which a store has its value. The exchange of the
-- list is one atomic step, so each loop is the round that succeeds.
use opencmw_cpp.Base.{
  ℕ, min, ◌≤◌, ◌≡◌, ◌≢◌, ◌↔◌, ite, refl, Bool, true, false, List, [], ◌∷◌, ◌++◌, arith, ℕ_discrete,
  has_key, All, remove_key, if◌then◌else◌, Bool-cases, inl, inr,
}

-- memory: a value for each address
abbrev pub put {ℓ} : {A : Type ℓ} → ℕ → A → (ℕ → A) → ℕ → A
put address new cells k = ite (ℕ_discrete address k) new (cells k)

pub put_self {ℓ} : {A : Type ℓ} (i : ℕ) (new : A) (cells : ℕ → A) → put i new cells i ≡ new
put_self i new cells = ground arith

pub put_ne {ℓ} :
    {A : Type ℓ} (i k : ℕ) (new : A) (cells : ℕ → A) → i ≢ k → put i new cells k ≡ cells k
put_ne i k new cells h = ground arith

-- `getMinimumSequence` over the values that it reads, with its default
unfoldable pub get_minimum_sequence : List ℕ → ℕ → ℕ
get_minimum_sequence [] minimum = minimum
get_minimum_sequence (v ∷ values) minimum = get_minimum_sequence values (min minimum v)

-- A number is below the result exactly when it is below the default and every value.
pub le-get_minimum_sequence_iff :
    (m minimum : ℕ) (values : List ℕ)
    → (m ≤ get_minimum_sequence values minimum) ↔ ((m ≤ minimum) × All (λ v. m ≤ v) values)
unfolding get_minimum_sequence
le-get_minimum_sequence_iff m minimum [] = ground arith
le-get_minimum_sequence_iff m minimum (v ∷ values) =
    ground (arith, le-get_minimum_sequence_iff m (min minimum v) values)

-- `sequence->setValue(cursorSequence)` for each of a list
unfoldable pub set_all : List ℕ → ℕ → (ℕ → ℕ) → ℕ → ℕ
set_all [] cursor values = values
set_all (sequence ∷ rest) cursor values = set_all rest cursor (put sequence cursor values)

-- `addSequences`: the new sequences start at the cursor. It is read once before the exchange of the
-- list and again behind it, when `later` is its value.
unfoldable pub add_sequences : List ℕ → (cursor later : ℕ) → List ℕ → (ℕ → ℕ) → List ℕ × (ℕ → ℕ)
unfolding set_all
add_sequences sequences cursor later added values =
    (sequences ++ added, set_all added later (set_all added cursor values))

-- `removeSequence`: whether the sequence was there, and the list without it
unfoldable pub remove_sequence : List ℕ → ℕ → Bool × List ℕ
remove_sequence sequences sequence =
    (has_key ℕ_discrete sequence sequences, remove_key ℕ_discrete sequence sequences)

set_all-in :
    (added : List ℕ) (cursor : ℕ) (values : ℕ → ℕ) (k : ℕ)
    → values k ≡ cursor
    → set_all added cursor values k ≡ cursor
unfolding set_all
set_all-in [] cursor values k h = h
set_all-in (a ∷ added) cursor values k h =
    set_all-in added cursor (put a cursor values) k (ground arith)

set_all-has_key :
    (added : List ℕ) (cursor : ℕ) (values : ℕ → ℕ) (k : ℕ)
    → has_key ℕ_discrete k added ≡ true
    → set_all added cursor values k ≡ cursor
unfolding set_all has_key
set_all-has_key [] cursor values k h = cc
set_all-has_key (a ∷ added) cursor values k h = ground (
  arith,
  set_all-in added cursor (put a cursor values) k,
  set_all-has_key added cursor (put a cursor values) k,
)

set_all-other :
    (added : List ℕ) (cursor : ℕ) (values : ℕ → ℕ) (k : ℕ)
    → has_key ℕ_discrete k added ≡ false
    → set_all added cursor values k ≡ values k
unfolding set_all has_key
set_all-other [] cursor values k h = refl
set_all-other (a ∷ added) cursor values k h =
    ground (arith, set_all-other added cursor (put a cursor values) k)

remove_key-append_self :
    (s : ℕ) (xs : List ℕ)
    → has_key ℕ_discrete s xs ≡ false
    → remove_key ℕ_discrete s (xs ++ s ∷ []) ≡ xs
unfolding has_key remove_key
remove_key-append_self s [] h = ground arith
remove_key-append_self s (x ∷ xs) h = ground (arith, remove_key-append_self s xs)

-- Behind the call every sequence that was added has the cursor's later value, and no other sequence
-- has changed.
add_sequences-values :
    (sequences added : List ℕ) (cursor later : ℕ) (values : ℕ → ℕ) (k : ℕ)
    → (add_sequences sequences cursor later added values).1 k
      ≡ (if has_key ℕ_discrete k added then later else values k)
unfolding add_sequences
add_sequences-values sequences added cursor later values k =
    elim (Bool-cases (has_key ℕ_discrete k added)) [
      | inl there ↦ rw (there, set_all-has_key added later (set_all added cursor values) k there)
      | inr new ↦ rw (
        new,
        set_all-other added later (set_all added cursor values) k new,
        set_all-other added cursor values k new,
      )
    ]

has_key-append_self : (s : ℕ) (xs : List ℕ) → has_key ℕ_discrete s (xs ++ s ∷ []) ≡ true
unfolding has_key
has_key-append_self s [] = ground arith
has_key-append_self s (x ∷ xs) = ground (arith, has_key-append_self s xs)

-- Gating on a sequence that was not there and releasing it again says that it was there and leaves
-- the list as it was; in between, the sequence stands at the cursor, whatever it held before.
remove_sequence-add_sequences :
    (sequences : List ℕ) (s cursor later : ℕ) (values : ℕ → ℕ)
    → has_key ℕ_discrete s sequences ≡ false
    → (remove_sequence (add_sequences sequences cursor later (s ∷ []) values).0 s
        ≡ (true, sequences))
      × ((add_sequences sequences cursor later (s ∷ []) values).1 s ≡ later)
unfolding remove_sequence add_sequences set_all
remove_sequence-add_sequences sequences s cursor later values h =
    (rw (has_key-append_self s sequences, remove_key-append_self s sequences h), ground arith)
