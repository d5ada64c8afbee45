-- ===== src/Disruptor/Slots.antt =====
-- The slots of the ring and their flags, of `MultiThreadedStrategy` in ClaimStrategy.hpp, and the
-- arithmetic they rest on. `size` is a power of two, so the mask is a remainder and the shift a
-- quotient.
use native.Mathlib.Nat.{
  mod-add-mod, mod-eq_of_lt, mod-eq-sub-mod, mod-lt, add-mod_right, add-div_right,
}
use opencmw_cpp.Base.{
  ℕ, ◌+◌, ◌-◌, ◌/◌, ◌%◌, ◌^◌, ◌≤◌, ◌<◌, ◌≡◌, ◌≢◌, ap, sym, ◌∙◌, arith, dec_lt, ℕ_discrete,
}

-- `calculateIndex`
abbrev pub slot : ℕ → ℕ → ℕ
slot size event = event % size

-- `calculateAvailabilityFlag`, kept as the unsigned number of its 32 bits
abbrev pub flag : ℕ → ℕ → ℕ
flag size event = event / size % 2 ^ 32

-- The flag that the slot of an event has before: that of the event one round earlier, and in the
-- first round the -1 of the constructor.
abbrev pub stale_flag : ℕ → ℕ → ℕ
stale_flag size event = (event / size + (2 ^ 32 - 1)) % 2 ^ 32

pub flag-ne-stale_flag : (size e : ℕ) → flag size e ≢ stale_flag size e
flag-ne-stale_flag size e h = omega arith

pub slot-add_size : (size e : ℕ) → slot size (e + size) ≡ slot size e
slot-add_size size e = add-mod_right e size

pub stale_flag-add_size : (size e : ℕ) → 0 < size → stale_flag size (e + size) ≡ flag size e
stale_flag-add_size size e pos = omega (arith, add-div_right e pos)

shifted-ne : (size r d : ℕ) → r < size → 0 < d → d < size → (r + d) % size ≢ r
shifted-ne size r d fits some_way short h = elim (dec_lt (r + d) size) [
  | yes inside ↦ omega (arith, mod-eq_of_lt inside)
  | no over ↦
      let folds : (r + d) % size ≡ (r + d - size) % size = mod-eq-sub-mod (omega arith) in
      let stays : (r + d - size) % size ≡ r + d - size = mod-eq_of_lt (omega arith) in omega arith
]

-- Events that are less than a round apart have slots of their own.
pub slot-ne : (size e d : ℕ) → e < d → d < e + size → slot size e ≢ slot size d
slot-ne size e d before near h =
    let split : (e % size + (d - e)) % size ≡ (e + (d - e)) % size = mod-add-mod e size (d - e) in
    let whole : e + (d - e) ≡ d = omega arith in
    let same : (e % size + (d - e)) % size ≡ e % size = split ∙ ap (λ x. x % size) whole ∙ sym h in
    shifted-ne size (e % size) (d - e) (mod-lt e (omega arith)) (omega arith) (omega arith) same

-- Within a round on either side, a slot tells the event.
pub slot-injective :
    (size e d : ℕ) → e < d + size → d < e + size → slot size e ≡ slot size d → e ≡ d
slot-injective size e d near near' h = elim (ℕ_discrete e d) [
  | yes same ↦ same
  | no apart ↦ elim (dec_lt e d) [
    | yes before ↦ absurd (slot-ne size e d before near' h)
    | no after ↦ absurd (slot-ne size d e (omega arith) near (sym h))
  ]
]

-- An event of the last round and one of the next share a slot only when they are a round apart.
pub slot-next_round :
    (size base e d : ℕ)
    → e < base
    → base ≤ e + size
    → base ≤ d
    → d < base + size
    → slot size e ≡ slot size d
    → d ≡ e + size
slot-next_round size base e d h1 h2 h3 h4 h =
    slot-injective size d (e + size) (omega arith) (omega arith)
      (sym h ∙ sym (slot-add_size size e))
