-- ===== src/Uri/Factory/Build.antt =====
-- What a factory builds has the parts that it was given.
use opencmw_cpp.Base.{
  ℕ, ◌≡◌, ◌≢◌, refl, Bytes, codes, true, false, not, ◌||◌, ◌==◌, [], ◌∷◌, ◌++◌, all, is_alnum,
  is_empty, is_empty_of_ne, starts_with, arith, ok,
}
use opencmw_cpp.Uri.{Check}
use opencmw_cpp.Uri.Codec.{encode}
use opencmw_cpp.Uri.Codec.RoundTrip.{encode-ne-nil}
use opencmw_cpp.Uri.Parse.{is_uri_char, is_authority_char, is_path_char, parse_uri}
use opencmw_cpp.Uri.Parse.Shapes.{is_hash, query_text, fragment_text}
use opencmw_cpp.Uri.Parse.Sources.{IsRooted, full_text, parse_uri-full}
use opencmw_cpp.Uri.Query.{append_params}
use opencmw_cpp.Uri.Factory.{UriFactory, unless, authority_text, to_string, build}

-- the text does not begin with the mark that the factory would put before it
abbrev pub LacksMark : ℕ → Bytes → Type 0
LacksMark mark [] = Unit
LacksMark mark (c ∷ s) = (c == mark) ≡ false

pub marked_query :
    (q t : Bytes)
    → LacksMark b'?' q
    → unless (is_empty q || starts_with q (codes "?")) (codes "?") ++ (q ++ t) ≡ query_text q ++ t
unfolding starts_with
marked_query [] t h = refl
marked_query (c ∷ q) t h = rw h

fragment_text-ne : (s : Bytes) → s ≢ [] → b'#' ∷ s ≡ fragment_text s
fragment_text-ne [] h = absurd (h refl)
fragment_text-ne (c ∷ s) h = refl

marked_fragment :
    (s : Bytes)
    → LacksMark b'#' s
    → unless (is_empty s || starts_with s (codes "#")) (codes "#") ++ encode s
      ≡ fragment_text (encode s)
unfolding starts_with
marked_fragment [] h = unfold encode in refl
marked_fragment (c ∷ s) h =
    rw h (fragment_text-ne (encode (c ∷ s)) (encode-ne-nil (c ∷ s) (λ e. cc)))

rooted_path :
    (path authority : Bytes)
    → IsRooted path
    → unless (is_empty path || (starts_with path (codes "/") || is_empty authority)) (codes "/")
      ≡ []
unfolding starts_with
rooted_path [] authority h = refl
rooted_path (c ∷ path) authority h = rw h

-- The parts that `toString` joins with nothing but the separators of RFC 3986.
pub record IsJoinable (f : UriFactory) : Type 0 where
  pub scheme_alnum : all is_alnum f.scheme ≡ true
  pub scheme_given : f.scheme ≢ []
  pub authority_chars : all is_authority_char (authority_text f) ≡ true
  pub authority_given : authority_text f ≢ []
  pub rooted : IsRooted f.path
  pub path_chars : all is_path_char f.path ≡ true
  pub query_plain : LacksMark b'?' (append_params f.query f.query_map)
  pub query_no_hash : all (λ c. not (is_hash c)) (append_params f.query f.query_map) ≡ true
  pub fragment_plain : LacksMark b'#' f.fragment

authority_no_slashes :
    (s : Bytes)
    → all is_authority_char s ≡ true
    → s ≢ []
    → unless (is_empty s || starts_with s (codes "//")) (codes "//") ≡ codes "//"
unfolding starts_with is_authority_char
authority_no_slashes [] h k = absurd (k refl)
authority_no_slashes (c ∷ []) h k = ground arith
authority_no_slashes (c ∷ d ∷ s) h k = ground arith

to_string-full :
    (f : UriFactory)
    → IsJoinable f
    → to_string f
      ≡ full_text f.scheme
          (authority_text f)
          f.path
          (append_params f.query f.query_map)
          (encode f.fragment)
unfolding to_string
to_string-full f v = rw (
  is_empty_of_ne f.scheme v.scheme_given,
  authority_no_slashes (authority_text f) v.authority_chars v.authority_given,
  rooted_path f.path (authority_text f) v.rooted,
  marked_fragment f.fragment v.fragment_plain,
  marked_query (append_params f.query f.query_map) (fragment_text (encode f.fragment))
      v.query_plain,
)

parse_uri-cons :
    (check : Check) (scheme authority path query fragment : Bytes)
    → scheme ≢ []
    → all is_uri_char (full_text scheme authority path query fragment) ≡ true
    → all is_alnum scheme ≡ true
    → all is_authority_char authority ≡ true
    → IsRooted path
    → all is_path_char path ≡ true
    → all (λ x. not (is_hash x)) query ≡ true
    → let src = full_text scheme authority path query fragment in
      parse_uri check src
      ≡ ok (record {
        str = src;
        scheme = scheme;
        authority = authority;
        path = path;
        query = query;
        fragment = fragment;
      })
parse_uri-cons check [] authority path query fragment h = absurd (h refl)
parse_uri-cons check (c ∷ s) authority path query fragment h =
    parse_uri-full check c s authority path query fragment

-- `build` gives a URI with the scheme, the authority, the path and the query of the factory, and
-- its fragment encoded: for any factory with a scheme, an authority, a path from the root or none,
-- whose parts hold the characters that the strict parser admits in them, no hash in the query, and
-- no separator of their own in front.
pub build-parts :
    (check : Check) (f : UriFactory)
    → IsJoinable f
    → all is_uri_char (to_string f) ≡ true
    → build check f
      ≡ ok (record {
        str = to_string f;
        scheme = f.scheme;
        authority = authority_text f;
        path = f.path;
        query = append_params f.query f.query_map;
        fragment = encode f.fragment;
      })
unfolding build
build-parts check f v legal = rw (to_string-full f v) (
    parse_uri-cons check f.scheme (authority_text f) f.path (append_params f.query f.query_map)
      (encode f.fragment) v.scheme_given (rw (to_string-full f v) at legal) v.scheme_alnum
      v.authority_chars v.rooted v.path_chars v.query_no_hash)
