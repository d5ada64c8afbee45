-- ===== src/Uri/Codec.antt =====
-- URI::encode and URI::decode.
pub mod RoundTrip
use opencmw_cpp.Base.{
  ℕ, ◌+◌, ◌-◌, ◌*◌, ◌/◌, ◌%◌, Bytes, Bool, true, false, ◌||◌, ◌&&◌, ◌==◌, ltb, leb, List, [], ◌∷◌,
  if◌then◌else◌, is_digit, Result, ok, err, ◌>>=◌, ◌>>◌, guard, uri_syntax, undefined,
}
use opencmw_cpp.Uri.{Check, strict, relaxed, is_unreserved}

-- a digit as `std::hex << std::uppercase` prints it
abbrev pub hex_digit : ℕ → ℕ
hex_digit d = if ltb d 10 then b'0' + d else b'A' + (d - 10)

unfoldable pub encode : Bytes → Bytes
unfolding is_unreserved
encode [] = []
encode (c ∷ s) =
    let rest = encode s in
    if is_unreserved c then c ∷ rest else b'%' ∷ hex_digit (c / 16) ∷ hex_digit (c % 16) ∷ rest

-- `std::isxdigit`
unfoldable pub is_xdigit : ℕ → Bool
is_xdigit c = is_digit c || ((leb b'A' c && leb c b'F') || (leb b'a' c && leb c b'f'))

unfoldable pub hex_value : ℕ → ℕ
hex_value c = if is_digit c then c - b'0' else if leb b'a' c then c - b'a' + 10 else c - b'A' + 10

-- `std::isspace` in the C locale
unfoldable pub is_space : ℕ → Bool
is_space c = c == b' ' || (leb 9 c && leb c 13)

-- `static_cast<uint8_t>(d)` after `iss >> std::hex >> d` on the one character that is there: a
-- stream that holds nothing but white space leaves `d` as it was, which is indeterminate, and one
-- that holds no number sets it to 0.
unfoldable pub read_hex : ℕ → Result ℕ
unfolding is_xdigit hex_value is_space
read_hex a = if is_space a then err undefined else if is_xdigit a then ok (hex_value a) else ok 0

-- The same on two characters. White space in front is skipped, a sign may stand before a digit, and
-- the number ends before the first character that is no digit.
unfoldable pub read_hex_pair : ℕ → ℕ → Result ℕ
unfolding is_xdigit hex_value is_space read_hex
read_hex_pair a b =
    if is_space a
    then read_hex b
    else if is_xdigit a
    then (if is_xdigit b then ok (hex_value a * 16 + hex_value b) else ok (hex_value a))
    else if a == b'-' && is_xdigit b
    then ok ((256 - hex_value b) % 256)
    else if a == b'+' && is_xdigit b
    then ok (hex_value b)
    else ok 0

-- the test of `s[i + 1]` that the strict parser makes
unfoldable pub check_escape : Check → ℕ → Result (Unit {0})
unfolding is_xdigit
check_escape strict a = guard (is_xdigit a) uri_syntax
check_escape relaxed a = ok tt

-- At the end of the view the strict parser reads `s[s.size()]`, and the relaxed one reads a number
-- from an empty stream.
unfoldable pub decode : Check → Bytes → Result Bytes
unfolding check_escape read_hex read_hex_pair
decode check [] = ok []
decode check (c ∷ []) = if c == b'%' then err undefined else ok (c ∷ [])
decode check (c ∷ a ∷ []) = elim (c == b'%') [
  | true ↦ do check_escape check a; d ← read_hex a; ok (d ∷ [])
  | false ↦ do rest ← decode check (a ∷ []); ok (c ∷ rest)
]
decode check (c ∷ a ∷ b ∷ s) = elim (c == b'%') [
  | true ↦ do check_escape check a; d ← read_hex_pair a b; rest ← decode check s; ok (d ∷ rest)
  | false ↦ do rest ← decode check (a ∷ b ∷ s); ok (c ∷ rest)
]
