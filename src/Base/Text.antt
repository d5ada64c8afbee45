-- ===== src/Base/Text.antt =====
-- Byte strings (`std::string`, `std::string_view`) as lists of byte values, and the searches of
-- the C++ standard library that the modelled code makes on them. `npos` is `none`.
use Prim.Native.Nat.{ℕ, zero, suc, ◌+◌, min}
use Prim.Native.Char.{code}
use Prim.Native.String.{String}
use mathlib.Core.Path.{◌≡◌, refl, sym, ap, ap₂}
use mathlib.Core.Logic.{◌≢◌}
use mathlib.Core.Bool.{Bool, true, false, not, ◌&&◌, ◌||◌}
use mathlib.Core.List.{List, [], ◌∷◌, ◌++◌}
use mathlib.Core.Option
use mathlib.Core.Option.{Option, none, some}
use native.Mathlib.Omega.{arith}
use native.Mathlib.Decide.{ℕ_discrete}
use opencmw_cpp.Base.Tests.{ltb, leb, ◌==◌, if◌then◌else◌}
use opencmw_cpp.Base.Lists.{length, take, drop, all}

abbrev pub Bytes : Type 0
Bytes = List ℕ

-- The code points of a text: its bytes, as the program's literals are ASCII.
abbrev pub codes : String → Bytes
codes String.[] = []
codes (String.◌∷◌ c s) = code c ∷ codes s

abbrev tail_or : Bytes → Bytes
tail_or [] = []
tail_or (x ∷ xs) = xs

abbrev head_or : Bytes → ℕ
head_or [] = 0
head_or (x ∷ xs) = x

cons-ne_of_head : (x y : ℕ) (xs ys : Bytes) → x ≢ y → x ∷ xs ≢ y ∷ ys
cons-ne_of_head x y xs ys h e = h (ap head_or e)

cons-ne_of_tail : (x y : ℕ) (xs ys : Bytes) → xs ≢ ys → x ∷ xs ≢ y ∷ ys
cons-ne_of_tail x y xs ys h e = h (ap tail_or e)

nil-ne-cons : (y : ℕ) (ys : Bytes) → [] ≢ y ∷ ys
nil-ne-cons y ys e = cc

unfoldable pub bytes_discrete : Discrete (List ℕ)
unfolding ℕ_discrete nil-ne-cons cons-ne_of_head cons-ne_of_tail
bytes_discrete [] [] = yes refl
bytes_discrete [] (y ∷ ys) = no (nil-ne-cons y ys)
bytes_discrete (x ∷ xs) [] = no (λ e. nil-ne-cons x xs (sym e))
bytes_discrete (x ∷ xs) (y ∷ ys) =
    let rest = bytes_discrete xs ys in
    elim (ℕ_discrete x y) [
      | no h ↦ no (cons-ne_of_head x y xs ys h)
      | yes p ↦ elim rest [ no h ↦ no (cons-ne_of_tail x y xs ys h) | yes q ↦ yes (ap₂ ◌∷◌ p q) ]
    ]

-- `a == b` on strings
unfoldable pub bytes_eq : Bytes → Bytes → Bool
bytes_eq [] [] = true
bytes_eq [] (y ∷ ys) = false
bytes_eq (x ∷ xs) [] = false
bytes_eq (x ∷ xs) (y ∷ ys) = x == y && bytes_eq xs ys

pub bytes_eq_refl : (s : Bytes) → bytes_eq s s ≡ true
unfolding bytes_eq
bytes_eq_refl [] = refl
bytes_eq_refl (x ∷ xs) = ground (arith, bytes_eq_refl xs)

pub eq_of_bytes_eq : (s t : Bytes) → bytes_eq s t ≡ true → s ≡ t
unfolding bytes_eq
eq_of_bytes_eq [] [] h = refl
eq_of_bytes_eq [] (y ∷ ys) h = cc
eq_of_bytes_eq (x ∷ xs) [] h = cc
eq_of_bytes_eq (x ∷ xs) (y ∷ ys) h = ground (arith, eq_of_bytes_eq xs ys)

-- `s < t` on strings: lexicographic
unfoldable pub bytes_lt : Bytes → Bytes → Bool
bytes_lt [] [] = false
bytes_lt [] (y ∷ ys) = true
bytes_lt (x ∷ xs) [] = false
bytes_lt (x ∷ xs) (y ∷ ys) = ltb x y || (x == y && bytes_lt xs ys)

-- `s.starts_with(p)`
unfoldable pub starts_with : Bytes → Bytes → Bool
starts_with s [] = true
starts_with [] (y ∷ ys) = false
starts_with (x ∷ xs) (y ∷ ys) = x == y && starts_with xs ys

-- `s.contains(c)`
unfoldable pub has : ℕ → Bytes → Bool
has c [] = false
has c (x ∷ xs) = c == x || has c xs

-- the index of the first byte that passes the test
unfoldable pub find_index : (ℕ → Bool) → Bytes → Option ℕ
find_index p [] = none
find_index p (x ∷ xs) = if p x then some 0 else Option.map suc (find_index p xs)

-- `s.find_first_of(chars, pos)`
unfoldable pub find_from : (ℕ → Bool) → Bytes → ℕ → Option ℕ
find_from p s zero = find_index p s
find_from p [] (suc i) = none
find_from p (x ∷ xs) (suc i) = Option.map suc (find_from p xs i)

-- `s.substr(pos, n)`, for a position within `s`
abbrev pub substr : Bytes → ℕ → ℕ → Bytes
substr s i n = take n (drop i s)

-- `std::min(s.find(...), s.length())`
abbrev pub or_end : Option ℕ → Bytes → ℕ
or_end none s = length s
or_end (some i) s = min i (length s)

abbrev pub is_digit : ℕ → Bool
is_digit c = leb b'0' c && leb c b'9'

abbrev pub is_upper : ℕ → Bool
is_upper c = leb b'A' c && leb c b'Z'

abbrev pub is_lower : ℕ → Bool
is_lower c = leb b'a' c && leb c b'z'

-- `std::isalnum` in the C locale
abbrev pub is_alnum : ℕ → Bool
is_alnum c = is_digit c || (is_upper c || is_lower c)

-- `opencmw::join` with a separator of one character
unfoldable pub join : ℕ → List Bytes → Bytes
join c [] = []
join c (s ∷ []) = s
join c (s ∷ t ∷ rest) = s ++ c ∷ join c (t ∷ rest)

abbrev first_grows : ℕ → List Bytes → List Bytes
first_grows c [] = (c ∷ []) ∷ []
first_grows c (s ∷ ss) = (c ∷ s) ∷ ss

-- the parts of a text between the places of one character
unfoldable pub split : ℕ → Bytes → List Bytes
split d [] = [] ∷ []
split d (c ∷ s) = let rest = split d s in if c == d then [] ∷ rest else first_grows c rest

-- No byte of a prefix passes the test, and the next one does: the search stops there.
pub find_index-append :
    (p : ℕ → Bool) (s : Bytes) (c : ℕ) (t : Bytes)
    → all (λ x. not (p x)) s ≡ true
    → p c ≡ true
    → find_index p (s ++ c ∷ t) ≡ some (length s)
unfolding find_index
find_index-append p [] c t h e = rw e
find_index-append p (x ∷ xs) c t h e = ground (arith, find_index-append p xs c t)

pub find_index-none :
    (p : ℕ → Bool) (s : Bytes) → all (λ x. not (p x)) s ≡ true → find_index p s ≡ none
unfolding find_index
find_index-none p [] h = refl
find_index-none p (x ∷ xs) h = ground (arith, find_index-none p xs)

-- A search from behind a prefix is a search in the rest.
pub find_from-append :
    (p : ℕ → Bool) (s t : Bytes)
    → find_from p (s ++ t) (length s) ≡ Option.map (λ i. length s + i) (find_index p t)
unfolding find_from
find_from-append p [] t = ground (arith)
find_from-append p (x ∷ xs) t = ground (arith, find_from-append p xs t)

pub find_from_start : (p : ℕ → Bool) (s : Bytes) → find_from p s 0 ≡ find_index p s
unfolding find_from
find_from_start p [] = refl
find_from_start p (x ∷ xs) = refl

pub starts_with-split : (s p : Bytes) → starts_with s p ≡ true → (rest : Bytes) × (s ≡ p ++ rest)
unfolding starts_with
starts_with-split s [] h = (s, refl)
starts_with-split [] (y ∷ ys) h = cc
starts_with-split (x ∷ xs) (y ∷ ys) h =
    let (rest, e) = starts_with-split xs ys (ground arith) in (rest, ground (arith, e))

pub starts_with-append : (p s : Bytes) → starts_with (p ++ s) p ≡ true
unfolding starts_with
starts_with-append [] s = refl
starts_with-append (x ∷ p) s = ground (arith, starts_with-append p s)
