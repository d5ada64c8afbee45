-- ===== src/TimingCtx.antt =====
-- src/core/include/TimingCtx.hpp: the timing selectors, such as `FAIR.SELECTOR.C=1:S=2:P=3:T=4`.
pub mod Laws
pub mod Tests
use opencmw_cpp.Base.{
  ℤ, pos, negsuc, ℕ, zero, suc, ◌+◌, ◌-◌, ◌*◌, ◌%◌, ◌^◌, Bytes, codes, bytes_discrete, bytes_eq,
  Bool, true, false, not, ◌||◌, ◌&&◌, ◌==◌, ltb, leb, List, [], ◌∷◌, ◌++◌, Option, none, some,
  is_lower, is_digit, is_empty, has, starts_with, length, drop, decimal, read_digits, join, split,
  if◌then◌else◌, Result, ok, err, ◌>>=◌, ◌>>◌, guard, invalid_argument,
}

unfoldable pub int_eq : ℤ → ℤ → Bool
int_eq (pos m) (pos n) = m == n
int_eq (pos m) (negsuc n) = false
int_eq (negsuc m) (pos n) = false
int_eq (negsuc m) (negsuc n) = m == n

-- `WILDCARD_VALUE`
abbrev pub wildcard_value : ℤ
wildcard_value = negsuc 0

abbrev pub wildcard : Bytes
wildcard = codes "ALL"

abbrev pub selector_prefix : Bytes
selector_prefix = codes "FAIR.SELECTOR."

-- the four parts of a selector: `_cid`, `_sid`, `_pid`, `_gid`
pub record Ids : Type 0 where
  pub cid : ℤ
  pub sid : ℤ
  pub pid : ℤ
  pub gid : ℤ

abbrev pub all_wildcards : Ids
all_wildcards = record {
  cid = wildcard_value;
  sid = wildcard_value;
  pid = wildcard_value;
  gid = wildcard_value;
}

-- `TimingCtx`, parsed
pub record TimingCtx : Type 0 where
  pub selector : Bytes
  pub ids : Ids
  pub bpcts : ℤ

-- `toUpper`
unfoldable pub to_upper : Bytes → Bytes
to_upper [] = []
to_upper (c ∷ s) = (if is_lower c then c - 32 else c) ∷ to_upper s

-- a `char` as a `uint32_t`: it is signed
abbrev unsigned_char : ℕ → ℕ
unsigned_char c = if ltb c 128 then c else c + (2 ^ 32 - 256)

-- `detail::const_hash`, up to the first null character
unfoldable pub const_hash : Bytes → ℕ
const_hash [] = 5381
const_hash (c ∷ s) =
    let rest = const_hash s in if c == 0 then 5381 else (unsigned_char c + 33 * rest) % 2 ^ 32

-- The 32-bit result of `std::from_chars`, where the digits begin at the text: it is zero when they
-- stand for a number out of range, and the text behind them is not read.
unfoldable pub read_int : Bool → Bytes → Result ℤ
read_int negative [] = err invalid_argument
read_int negative (c ∷ s) =
    let (n, rest) = read_digits 0 (c ∷ s) in
    let fits = if negative then leb n (2 ^ 31) else ltb n (2 ^ 31) in
    let value = if not fits || n == 0 then pos 0 else if negative then negsuc (n - 1) else pos n in
    if is_digit c then ok value else err invalid_argument

-- `std::from_chars`, where only the error `invalid_argument` is looked at
unfoldable pub from_chars : Bytes → Result ℤ
unfolding read_int
from_chars [] = err invalid_argument
from_chars (c ∷ s) = if c == b'-' then read_int true s else read_int false (c ∷ s)

-- the value of a tag
unfoldable pub read_value : Bytes → Result ℤ
unfolding from_chars
read_value s = if bytes_eq wildcard s then ok wildcard_value else from_chars s

-- the switch over the key
unfoldable pub set_id : ℕ → ℤ → Ids → Result Ids
set_id key value ids =
    if key == b'C'
    then ok (record ids { cid = value })
    else if key == b'S'
    then ok (record ids { sid = value })
    else if key == b'P'
    then ok (record ids { pid = value })
    else if key == b'T'
    then ok (record ids { gid = value })
    else err invalid_argument

-- One tag: a key of one character, one equals sign, and a value that is not empty.
unfoldable pub parse_tag : Bytes → Ids → Result Ids
unfolding read_value set_id
parse_tag [] ids = err invalid_argument
parse_tag (key ∷ []) ids = err invalid_argument
parse_tag (key ∷ sign ∷ []) ids = err invalid_argument
parse_tag (key ∷ sign ∷ c ∷ value) ids =
    if not (key == b'=') && (sign == b'=' && not (has b'=' (c ∷ value)))
    then (read_value (c ∷ value) >>= λ n. set_id key n ids)
    else err invalid_argument

unfoldable pub parse_tags : List Bytes → Ids → Result Ids
unfolding parse_tag
parse_tags [] ids = ok ids
parse_tags (tag ∷ tags) ids = do ids' ← parse_tag tag ids; parse_tags tags ids'

-- `parse` behind the test of the hash
unfoldable pub parse_selector : Bytes → Result Ids
unfolding to_upper parse_tags split
parse_selector selector =
    let upper = to_upper selector in
    let tags = drop (length selector_prefix) upper in
    if is_empty upper || bytes_eq upper wildcard
    then ok all_wildcards
    else if not (starts_with upper selector_prefix)
    then err invalid_argument
    else if bytes_eq tags wildcard
    then ok all_wildcards
    else parse_tags (split b':' tags) all_wildcards

-- The constructor from a text. A selector with the hash of the default one is taken for it.
unfoldable pub make_timing_ctx : Bytes → ℤ → Result TimingCtx
unfolding to_upper const_hash parse_selector
make_timing_ctx token bpcts =
    let selector = to_upper token in
    if const_hash selector == const_hash (selector_prefix ++ wildcard)
    then ok (record { selector = selector; ids = all_wildcards; bpcts = bpcts })
    else (parse_selector selector >>= λ ids.
        ok (record { selector = selector; ids = ids; bpcts = bpcts }))

abbrev pub is_wildcard : ℤ → Bool
is_wildcard n = int_eq n wildcard_value

-- `wildcardMatch`
unfoldable pub wildcard_match : ℤ → ℤ → Bool
unfolding int_eq
wildcard_match l r = is_wildcard r || int_eq l r

-- `matches`
unfoldable pub timing_matches : TimingCtx → TimingCtx → Bool
unfolding wildcard_match
timing_matches t other =
    wildcard_match t.ids.cid other.ids.cid
    && (wildcard_match t.ids.sid other.ids.sid
        && (wildcard_match t.ids.pid other.ids.pid && wildcard_match t.ids.gid other.ids.gid))

-- the comparison of the time stamps in `matchesWithBpcts`
unfoldable pub bpcts_match : ℤ → ℤ → Bool
unfolding int_eq
bpcts_match l r = int_eq r (pos 0) || int_eq l r

-- `matchesWithBpcts`
unfoldable pub timing_matches_with_bpcts : TimingCtx → TimingCtx → Bool
unfolding bpcts_match timing_matches
timing_matches_with_bpcts t other = bpcts_match t.bpcts other.bpcts && timing_matches t other

-- an integer as `std::format` prints it
unfoldable pub int_text : ℤ → Bytes
int_text (pos n) = decimal n
int_text (negsuc n) = b'-' ∷ decimal (n + 1)

abbrev tag_of : ℕ → ℤ → List Bytes → List Bytes
tag_of key n tags = if int_eq n wildcard_value then tags else (key ∷ b'=' ∷ int_text n) ∷ tags

-- `toString`
unfoldable pub selector_text : Ids → Bytes
unfolding int_eq int_text join
selector_text ids =
    let tags =
      tag_of b'C' ids.cid (tag_of b'S' ids.sid (tag_of b'P' ids.pid (tag_of b'T' ids.gid []))) in
    if is_wildcard ids.cid && (is_wildcard ids.sid && (is_wildcard ids.pid && is_wildcard ids.gid))
    then selector_prefix ++ wildcard
    else selector_prefix ++ join b':' tags
