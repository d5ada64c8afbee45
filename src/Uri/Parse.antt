-- ===== src/Uri/Parse.antt =====
-- URI::parseURI, with the positions in the source that it computes.
pub mod Printed
pub mod Shapes
pub mod Sources
use opencmw_cpp.Base.{
  ℕ, ◌+◌, ◌-◌, Bytes, codes, Bool, true, false, ◌||◌, ◌&&◌, not, ◌==◌, ltb, leb, List, [], ◌∷◌,
  Option, none, some, if◌then◌else◌, is_alnum, is_empty, has, all, length, get_or, take, drop,
  substr, or_end, find_from, Result, ok, err, ◌>>=◌, ◌>>◌, guard, uri_syntax, out_of_range,
}
use opencmw_cpp.Uri.{Check, strict, relaxed, Uri}

unfoldable pub is_uri_char : ℕ → Bool
unfolding has
is_uri_char c = is_alnum c || has c (codes "-._~:/?#[]@!$&'()*+,;=%")

unfoldable pub is_authority_char : ℕ → Bool
unfolding has
is_authority_char c = is_alnum c || has c (codes "@:.-_*[]")

unfoldable pub is_path_char : ℕ → Bool
unfolding has
is_path_char c = is_alnum c || has c (codes "/.-_")

abbrev pub is_separator : ℕ → Bool
is_separator c = c == b'/' || (c == b'?' || c == b'#')

abbrev pub ends_path : ℕ → Bool
ends_path c = c == b'?' || c == b'#'

-- `if constexpr (check == STRICT) { if (!std::all_of(...)) throw ...; }`
abbrev pub require_all : Check → (ℕ → Bool) → Bytes → Result (Unit {0})
require_all strict p s = guard (all p s) uri_syntax
require_all relaxed p s = ok tt

-- `s.substr(pos, n)`
abbrev pub checked_substr : Bytes → ℕ → ℕ → Result Bytes
checked_substr s i n = if leb i (length s) then ok (substr s i n) else err out_of_range

-- `source[i]`, which the parser reads below the length only
abbrev pub at : Bytes → ℕ → ℕ
at s i = get_or s i 0

-- The scheme is what stands before a colon that is the first separator; with it, where it ends.
unfoldable pub accept_scheme : Check → Bytes → ℕ → Result (Bytes × ℕ)
accept_scheme check src n = do require_all check is_alnum (take n src); ok (take n src, n + 1)

unfoldable pub scheme_at : Check → Bytes → Option ℕ → Option ℕ → Result (Bytes × ℕ)
scheme_at check src none separator = ok ([], 0)
scheme_at check src (some i) none = accept_scheme check src i
scheme_at check src (some i) (some j) = if ltb i j then accept_scheme check src i else ok ([], 0)

unfoldable pub parse_scheme : Check → Bytes → Result (Bytes × ℕ)
parse_scheme check src =
    scheme_at check src (find_from (λ c. c == b':') src 0) (find_from is_separator src 0)

abbrev pub has_authority : Bytes → ℕ → Bool
has_authority src n =
    (ltb (n + 1) (length src) && (at src n == b'/' && at src (n + 1) == b'/'))
    || (n == 0 && not (is_separator (at src n)))

-- The authority and where it ends. Where the substring is in range the end is at least its start.
unfoldable pub parse_authority : Check → Bytes → ℕ → Result (Bytes × ℕ)
parse_authority check src n =
    if has_authority src n
    then (do
      let end = or_end (find_from is_separator src (n + 2)) src
      authority ← checked_substr src (n + 2) (end - (n + 2))
      require_all check is_authority_char authority
      ok (authority, end))
    else ok ([], n)

unfoldable pub fragment_at : Bytes → Option ℕ → Bytes
fragment_at src none = []
fragment_at src (some i) = substr src (i + 1) (length src - (i + 1))

-- query and fragment, from the end of the path on
unfoldable pub parse_query : Bytes → ℕ → Bytes × Bytes
unfolding fragment_at
parse_query src path_end =
    let hash = or_end (find_from (λ c. c == b'#') src path_end) src in
    let is_query = at src path_end == b'?' in
    let query = if is_query then substr src (path_end + 1) (hash - path_end - 1) else [] in
    let query_end = if is_query then hash else path_end in
    if query_end == length src
    then (query, [])
    else (query, fragment_at src (find_from (λ c. c == b'#') src query_end))

-- path, query and fragment, from the end of the authority on
unfoldable pub parse_rest : Check → Bytes → Bytes → Bytes → ℕ → Result Uri
parse_rest check src scheme authority auth_end = do
  let path_end = or_end (find_from ends_path src auth_end) src
  let path = substr src auth_end (path_end - auth_end)
  require_all check is_path_char path
  let parts = if path_end == length src then ([], []) else parse_query src path_end
  ok (record {
    str = src;
    scheme = scheme;
    authority = authority;
    path = path;
    query = parts.0;
    fragment = parts.1;
  })

abbrev pub only_scheme : Bytes → Bytes → Uri
only_scheme src scheme = record {
  str = src;
  scheme = scheme;
  authority = [];
  path = [];
  query = [];
  fragment = [];
}

unfoldable pub parse_with_scheme : Check → Bytes → Result Uri
parse_with_scheme check src = do
  (scheme, n) ← parse_scheme check src
  if n == length src then ok (only_scheme src scheme) else (do
    (authority, auth_end) ← parse_authority check src n
    parse_rest check src scheme authority auth_end)

unfoldable pub parse_uri : Check → Bytes → Result Uri
parse_uri check src = do
  require_all check is_uri_char src
  if is_empty src
      then ok (only_scheme src [])
      else if at src 0 == b'/'
      then parse_rest check src [] [] 0
      else parse_with_scheme check src
