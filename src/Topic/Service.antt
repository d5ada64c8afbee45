-- ===== src/Topic/Service.antt =====
-- Service names.
use opencmw_cpp.Base.{
  ℕ, ◌<◌, ◌≡◌, refl, Bytes, codes, true, false, not, ◌==◌, [], ◌∷◌, ◌++◌, all, all_mono, length,
  starts_with, has, find_index, find_index-none, find_index-append, take_append-length, arith, none,
}
use opencmw_cpp.Topic.{
  is_service_char, is_valid_service_name, ends_with, strip_end, before_query, parse_service,
}

-- What the test of a service name says.
pub record IsServiceName (s : Bytes) : Type 0 where
  pub rooted : starts_with s (codes "/") ≡ true
  pub longer : 1 < length s
  pub no_end_slash : ends_with b'/' s ≡ false
  pub chars : all is_service_char s ≡ true

pub IsServiceName-of_valid : (s : Bytes) → is_valid_service_name s ≡ true → IsServiceName s
unfolding is_valid_service_name
IsServiceName-of_valid s h = ground arith

pub valid_of_IsServiceName : (s : Bytes) → IsServiceName s → is_valid_service_name s ≡ true
unfolding is_valid_service_name
valid_of_IsServiceName s v = ground arith

strip_end_of_ends : (s : Bytes) → ends_with b'/' s ≡ false → strip_end s ≡ s
unfolding strip_end ends_with
strip_end_of_ends [] h = refl
strip_end_of_ends (c ∷ []) h = rw h
strip_end_of_ends (c ∷ d ∷ s) h = rw (strip_end_of_ends (d ∷ s) h)

pub service_no_query : (c : ℕ) → is_service_char c ≡ true → not (c == b'?') ≡ true
service_no_query c h = ground arith

has_of_none : (c : ℕ) (s : Bytes) → all (λ x. not (x == c)) s ≡ true → has c s ≡ false
unfolding has
has_of_none c [] h = refl
has_of_none c (x ∷ s) h = ground (arith, has_of_none c s)

pub service_has_no_query : (s : Bytes) → IsServiceName s → has b'?' s ≡ false
service_has_no_query s v = has_of_none b'?' s (all_mono _ _ s service_no_query v.chars)

pub before_query_of_none : (s : Bytes) → find_index (λ c. c == b'?') s ≡ none → before_query s ≡ s
unfolding before_query
before_query_of_none s h = rw (h, before_query)

-- A service name is its own normal form.
pub parse_service_of_valid : (s : Bytes) → IsServiceName s → parse_service s ≡ s
unfolding parse_service
parse_service_of_valid s v = rw (
  before_query_of_none s
      (find_index-none (λ c. c == b'?') s (all_mono _ _ s service_no_query v.chars)),
  strip_end_of_ends s v.no_end_slash,
  v.rooted,
)

-- A service name begins with a slash, and goes on.
pub service_is_path : (s : Bytes) → IsServiceName s → (r : Bytes) × (s ≡ b'/' ∷ r)
unfolding starts_with
service_is_path [] v = ground arith
service_is_path (c ∷ s) v = (s, ground (arith, v.rooted))

-- The normal form of a service depends on the text before the query only.
pub parse_service_of_before :
    (s t : Bytes) → before_query s ≡ before_query t → parse_service s ≡ parse_service t
unfolding parse_service
parse_service_of_before s t e = rw e

pub before_query-append :
    (s t : Bytes) → all is_service_char s ≡ true → before_query (s ++ b'?' ∷ t) ≡ s
unfolding before_query
before_query-append s t h = rw (
  find_index-append (λ c. c == b'?') s b'?' t (all_mono _ _ s service_no_query h) refl,
  before_query,
  take_append-length s (b'?' ∷ t),
)

pub has-append : (c : ℕ) (s t : Bytes) → has c (s ++ c ∷ t) ≡ true
unfolding has
has-append c [] t = ground arith
has-append c (x ∷ s) t = ground (arith, has-append c s t)
