-- ===== src/Uri/Parse/Sources.antt =====
-- The parser on whole sources that are put together from parts.
use opencmw_cpp.Base.{
  ℕ, ◌+◌, ◌-◌, ◌≡◌, refl, sym, ◌∙◌, Bytes, true, false, not, ◌==◌, ltb, lt→ltb, le→leb, &&-left,
  get_or_append, [], ◌∷◌, ◌++◌, append_assoc, some, length, length-append, all, all_mono,
  all-append, take_append-length, find_from_start, find_index, find_index-append, is_alnum, arith,
  ok,
}
use opencmw_cpp.Uri.{Check}
use opencmw_cpp.Uri.Parse.{
  at, checked_substr, has_authority, is_uri_char, is_authority_char, is_path_char, is_separator,
  accept_scheme, scheme_at, parse_scheme, parse_authority, parse_rest, parse_with_scheme, parse_uri,
}
use opencmw_cpp.Uri.Parse.Shapes.{
  eq-false_of_lt, is_hash, StopsAt, find_end, substr_middle, rest_text,
}
use opencmw_cpp.Uri.Parse.Printed.{require_all-ok, parse_rest-text}

-- A source that is a path, a query and a fragment, the path from the root.
pub parse_uri-path :
    (check : Check) (path query fragment : Bytes)
    → all is_uri_char (b'/' ∷ path ++ rest_text query fragment) ≡ true
    → all is_path_char (b'/' ∷ path) ≡ true
    → all (λ c. not (is_hash c)) query ≡ true
    → let src = b'/' ∷ path ++ rest_text query fragment in
      parse_uri check src
      ≡ ok (record {
        str = src;
        scheme = [];
        authority = [];
        path = b'/' ∷ path;
        query = query;
        fragment = fragment;
      })
unfolding parse_uri
parse_uri-path check path query fragment legal hp hq =
    rw (require_all-ok check is_uri_char _ legal)
      (parse_rest-text check [] [] [] (b'/' ∷ path) query fragment hp hq)

alnum_no_colon : (c : ℕ) → is_alnum c ≡ true → not (c == b':') ≡ true
alnum_no_colon c h = ground arith

alnum_no_separator : (c : ℕ) → is_alnum c ≡ true → not (is_separator c) ≡ true
alnum_no_separator c h = ground arith

authority_no_separator : (c : ℕ) → is_authority_char c ≡ true → not (is_separator c) ≡ true
unfolding is_authority_char
authority_no_separator c h = ground arith

-- The path behind an authority is empty or begins at the root.
abbrev pub IsRooted : Bytes → Type 0
IsRooted [] = Unit
IsRooted (c ∷ path) = c ≡ b'/'

path_stops :
    (path query fragment : Bytes)
    → IsRooted path
    → StopsAt is_separator (path ++ rest_text query fragment)
path_stops (c ∷ path) query fragment h = rw h
path_stops [] [] [] h = tt
path_stops [] [] (d ∷ s) h = refl
path_stops [] (c ∷ q) fragment h = refl

colon_found :
    (scheme rest : Bytes)
    → all is_alnum scheme ≡ true
    → find_index (λ c. c == b':') (scheme ++ b':' ∷ rest) ≡ some (length scheme)
colon_found scheme rest h =
    find_index-append _ scheme b':' rest (all_mono _ _ scheme alnum_no_colon h) refl

slash_found :
    (scheme rest : Bytes)
    → all is_alnum scheme ≡ true
    → find_index is_separator (scheme ++ b':' ∷ b'/' ∷ rest) ≡ some (length scheme + 1)
slash_found scheme rest h =
    rw (← append_assoc scheme (b':' ∷ []) (b'/' ∷ rest), ← length-append scheme (b':' ∷ []))
      (find_index-append is_separator (scheme ++ b':' ∷ []) b'/' rest
        (all-append _ scheme (b':' ∷ []) (all_mono _ _ scheme alnum_no_separator h) refl) refl)

-- The scheme is read up to its colon.
parse_scheme-text :
    (check : Check) (scheme rest : Bytes)
    → all is_alnum scheme ≡ true
    → parse_scheme check (scheme ++ b':' ∷ b'/' ∷ rest) ≡ ok (scheme, length scheme + 1)
unfolding parse_scheme scheme_at accept_scheme
parse_scheme-text check scheme rest h = rw (
  find_from_start (λ c. c == b':') (scheme ++ b':' ∷ b'/' ∷ rest),
  find_from_start is_separator (scheme ++ b':' ∷ b'/' ∷ rest),
  colon_found scheme (b'/' ∷ rest) h,
  slash_found scheme rest h,
  scheme_at,
  lt→ltb (length scheme) (length scheme + 1) (omega arith),
  take_append-length scheme (b':' ∷ b'/' ∷ rest),
  require_all-ok check is_alnum scheme h,
)

-- what stands before the authority
abbrev pub scheme_text : Bytes → Bytes
scheme_text scheme = scheme ++ b':' ∷ b'/' ∷ b'/' ∷ []

length-scheme_text : (scheme : Bytes) → length scheme + 1 + 2 ≡ length (scheme_text scheme)
length-scheme_text scheme = omega (arith, length-append scheme (b':' ∷ b'/' ∷ b'/' ∷ []))

module _ (scheme rest : Bytes) where
  slash_at :
      (n i : ℕ) → n ≡ length scheme + i → i ≡ 1 → at (scheme ++ b':' ∷ b'/' ∷ b'/' ∷ rest) n ≡ b'/'
  slash_at n i e f = get_or_append scheme (b':' ∷ b'/' ∷ b'/' ∷ rest) n i 0 e ∙ rw f

  second_slash_at : at (scheme ++ b':' ∷ b'/' ∷ b'/' ∷ rest) (length scheme + 1 + 1) ≡ b'/'
  second_slash_at =
      get_or_append scheme (b':' ∷ b'/' ∷ b'/' ∷ rest) (length scheme + 1 + 1) 2 0 (omega arith)

  slashes_inside : ltb (length scheme + 1 + 1) (length (scheme ++ b':' ∷ b'/' ∷ b'/' ∷ rest)) ≡ true
  slashes_inside =
      lt→ltb (length scheme + 1 + 1) (length (scheme ++ b':' ∷ b'/' ∷ b'/' ∷ rest))
        (omega (arith, length-append scheme (b':' ∷ b'/' ∷ b'/' ∷ rest)))

  has_authority-text :
      has_authority (scheme ++ b':' ∷ b'/' ∷ b'/' ∷ rest) (length scheme + 1) ≡ true
  has_authority-text =
      rw (slashes_inside, slash_at (length scheme + 1) 1 refl refl, second_slash_at)

  scheme_regrouped : scheme ++ b':' ∷ b'/' ∷ b'/' ∷ rest ≡ scheme_text scheme ++ rest
  scheme_regrouped = sym (append_assoc scheme (b':' ∷ b'/' ∷ b'/' ∷ []) rest)

checked_substr_middle :
    (pre s t : Bytes)
    → checked_substr (pre ++ (s ++ t)) (length pre) (length pre + length s - length pre) ≡ ok s
checked_substr_middle pre s t = rw (
  le→leb (length pre) (length (pre ++ (s ++ t))) (omega (arith, length-append pre (s ++ t))),
  substr_middle pre s t (length pre + length s - length pre) (omega arith),
)

-- The authority is read up to the path.
parse_authority-text :
    (check : Check) (scheme authority rest : Bytes)
    → all is_authority_char authority ≡ true
    → StopsAt is_separator rest
    → parse_authority check (scheme ++ b':' ∷ b'/' ∷ b'/' ∷ (authority ++ rest)) (length scheme + 1)
      ≡ ok (authority, length (scheme_text scheme) + length authority)
unfolding parse_authority
parse_authority-text check scheme authority rest h k =
    let pre = scheme_text scheme in
    rw (
      has_authority-text scheme (authority ++ rest),
      length-scheme_text scheme,
      scheme_regrouped scheme (authority ++ rest),
      find_end is_separator pre authority rest (all_mono _ _ authority authority_no_separator h) k,
      checked_substr_middle pre authority rest,
      require_all-ok check is_authority_char authority h,
    )

-- The text of a URI with a scheme and an authority.
abbrev pub full_text : Bytes → Bytes → Bytes → Bytes → Bytes → Bytes
full_text scheme authority path query fragment =
    scheme ++ b':' ∷ b'/' ∷ b'/' ∷ (authority ++ (path ++ rest_text query fragment))

scheme_not_all :
    (scheme rest : Bytes)
    → (length scheme + 1 == length (scheme ++ b':' ∷ b'/' ∷ b'/' ∷ rest)) ≡ false
scheme_not_all scheme rest =
    eq-false_of_lt (length scheme + 1) (length (scheme ++ b':' ∷ b'/' ∷ b'/' ∷ rest))
      (omega (arith, length-append scheme (b':' ∷ b'/' ∷ b'/' ∷ rest)))

-- Path, query and fragment are read behind the authority.
rest_behind_authority :
    (check : Check) (scheme authority path query fragment : Bytes)
    → all is_path_char path ≡ true
    → all (λ x. not (is_hash x)) query ≡ true
    → let src = full_text scheme authority path query fragment in
      parse_rest check src scheme authority (length (scheme_text scheme) + length authority)
      ≡ ok (record {
        str = src;
        scheme = scheme;
        authority = authority;
        path = path;
        query = query;
        fragment = fragment;
      })
rest_behind_authority check scheme authority path query fragment hp hq =
    rw
      (
        scheme_regrouped scheme (authority ++ (path ++ rest_text query fragment)),
        ← append_assoc (scheme_text scheme) authority (path ++ rest_text query fragment),
        ← length-append (scheme_text scheme) authority,
      )
      (parse_rest-text check (scheme_text scheme ++ authority) scheme authority path query fragment
        hp hq)

parse_with_scheme-full :
    (check : Check) (scheme authority path query fragment : Bytes)
    → all is_alnum scheme ≡ true
    → all is_authority_char authority ≡ true
    → IsRooted path
    → all is_path_char path ≡ true
    → all (λ x. not (is_hash x)) query ≡ true
    → let src = full_text scheme authority path query fragment in
      parse_with_scheme check src
      ≡ ok (record {
        str = src;
        scheme = scheme;
        authority = authority;
        path = path;
        query = query;
        fragment = fragment;
      })
unfolding parse_with_scheme
parse_with_scheme-full check scheme authority path query fragment hs ha rooted hp hq =
    let rest = path ++ rest_text query fragment in
    rw
      (
        parse_scheme-text check scheme (b'/' ∷ (authority ++ rest)) hs,
        scheme_not_all scheme (authority ++ rest),
        parse_authority-text check scheme authority rest ha (path_stops path query fragment rooted),
      )
      (rest_behind_authority check scheme authority path query fragment hp hq)

alnum_no_slash : (c : ℕ) → is_alnum c ≡ true → (c == b'/') ≡ false
alnum_no_slash c h = ground arith

-- A source with a scheme, an authority, a path from the root or none, a query and a fragment.
pub parse_uri-full :
    (check : Check) (c : ℕ) (s authority path query fragment : Bytes)
    → all is_uri_char (full_text (c ∷ s) authority path query fragment) ≡ true
    → all is_alnum (c ∷ s) ≡ true
    → all is_authority_char authority ≡ true
    → IsRooted path
    → all is_path_char path ≡ true
    → all (λ x. not (is_hash x)) query ≡ true
    → let src = full_text (c ∷ s) authority path query fragment in
      parse_uri check src
      ≡ ok (record {
        str = src;
        scheme = c ∷ s;
        authority = authority;
        path = path;
        query = query;
        fragment = fragment;
      })
unfolding parse_uri
parse_uri-full check c s authority path query fragment legal hs ha rooted hp hq =
    rw
      (
        require_all-ok check is_uri_char (full_text (c ∷ s) authority path query fragment) legal,
        alnum_no_slash c (&&-left (is_alnum c) (all is_alnum s) hs),
      )
      (parse_with_scheme-full check (c ∷ s) authority path query fragment hs ha rooted hp hq)
