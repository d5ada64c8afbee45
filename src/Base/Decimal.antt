-- ===== src/Base/Decimal.antt =====
-- Decimal numbers as `std::format`, `std::to_string` and `std::from_chars` write and read them.
use Prim.Native.Nat.{ℕ, zero, suc, ◌+◌, ◌-◌, ◌*◌, ◌/◌, ◌%◌, ◌<◌}
use mathlib.Core.Path.{◌≡◌, refl, ap, ◌∙◌}
use mathlib.Core.Logic.{◌≢◌, inl, inr}
use mathlib.Core.Bool.{true, false}
use mathlib.Core.List.{[], ◌∷◌, ◌++◌}
use native.Mathlib.Omega.{arith}
use opencmw_cpp.Base.Tests.{ltb, if◌then◌else◌, Bool-cases}
use opencmw_cpp.Base.Lists.{all, all-append, append_cons-ne-nil}
use opencmw_cpp.Base.Text.{Bytes, is_digit}

-- A number loses a digit in each round, so any fuel above the number is enough.
digits : ℕ → ℕ → Bytes
digits zero n = []
digits (suc f) n =
    let front = digits f (n / 10) in
    if ltb n 10 then (b'0' + n) ∷ [] else front ++ (b'0' + n % 10) ∷ []

unfoldable pub decimal : ℕ → Bytes
unfolding digits
decimal n = digits (suc n) n

-- The value of the leading digits, behind those that `acc` stands for, and the text behind them.
unfoldable pub read_digits : ℕ → Bytes → ℕ × Bytes
read_digits acc [] = (acc, [])
read_digits acc (c ∷ s) =
    let rest = read_digits (acc * 10 + (c - b'0')) s in if is_digit c then rest else (acc, c ∷ s)

-- the value of a text that holds digits only
abbrev value : ℕ → Bytes → ℕ
value acc [] = acc
value acc (c ∷ s) = value (acc * 10 + (c - b'0')) s

value-append :
    (acc : ℕ) (s : Bytes) (c : ℕ) → value acc (s ++ c ∷ []) ≡ value acc s * 10 + (c - b'0')
value-append acc [] c = refl
value-append acc (d ∷ s) c = value-append (acc * 10 + (d - b'0')) s c

value-digits : (f n : ℕ) → n < f → value 0 (digits f n) ≡ n
unfolding digits
value-digits zero n h = absurd (omega arith)
value-digits (suc f) n h =
    ground (arith, value-digits f (n / 10), value-append 0 (digits f (n / 10)) (b'0' + n % 10))

digits_are_digits : (f n : ℕ) → all is_digit (digits f n) ≡ true
unfolding digits
digits_are_digits zero n = refl
digits_are_digits (suc f) n = elim (Bool-cases (ltb n 10)) [
  | inl small ↦ rw small (ground arith)
  | inr big ↦
      rw big
        (all-append is_digit (digits f (n / 10)) _ (digits_are_digits f (n / 10)) (ground arith))
]

digits-ne-nil : (f n : ℕ) → digits (suc f) n ≢ []
unfolding digits
digits-ne-nil f n = elim (Bool-cases (ltb n 10)) [
  | inl small ↦ rw small (λ e. cc)
  | inr big ↦ rw big (append_cons-ne-nil (digits f (n / 10)) (b'0' + n % 10) [])
]

pub decimal_digits : (n : ℕ) → all is_digit (decimal n) ≡ true
unfolding decimal
decimal_digits n = digits_are_digits (suc n) n

pub decimal-ne-nil : (n : ℕ) → decimal n ≢ []
unfolding decimal
decimal-ne-nil n = digits-ne-nil n n

-- The text behind a number, which may not go on with a digit.
abbrev pub EndsNumber : Bytes → Type 0
EndsNumber [] = Unit
EndsNumber (c ∷ s) = is_digit c ≡ false

read_digits-all :
    (acc : ℕ) (s t : Bytes)
    → all is_digit s ≡ true
    → EndsNumber t
    → read_digits acc (s ++ t) ≡ (value acc s, t)
unfolding read_digits
read_digits-all acc [] [] h k = refl
read_digits-all acc [] (c ∷ t) h k = rw k
read_digits-all acc (d ∷ s) t h k = ground (arith, read_digits-all (acc * 10 + (d - b'0')) s t)

-- A number that is written is read back, with the text behind it.
pub read_digits-decimal :
    (n : ℕ) (t : Bytes) → EndsNumber t → read_digits 0 (decimal n ++ t) ≡ (n, t)
unfolding decimal
read_digits-decimal n t k =
    read_digits-all 0 (digits (suc n) n) t (digits_are_digits (suc n) n) k
    ∙ ap (λ v. (v, t)) (value-digits (suc n) n (omega arith))
