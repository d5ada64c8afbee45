-- ===== src/Uri/Parse/Shapes.antt =====
-- What the searches of the parser find in a source that is put together from parts.
use opencmw_cpp.Base.{
  ℕ, ◌+◌, ◌-◌, ◌<◌, ◌≡◌, refl, sym, ap, ◌∙◌, Bytes, Bool, true, false, not, ◌==◌, [], ◌∷◌, ◌++◌,
  append-nil, append_assoc, some, length, length-append, take, all, substr, or_end, find_from,
  find_index-append, find_index-none, find_from-append, take_append-length, drop_append-length,
  drop_append-suc-length, get_or_append-length, take-length, arith, if◌then◌else◌,
}
use opencmw_cpp.Uri.Parse.{ends_path, fragment_at, parse_query}

-- The rest behind a part: empty, or at a character that ends the part.
abbrev pub StopsAt : (ℕ → Bool) → Bytes → Type 0
StopsAt p [] = Unit
StopsAt p (c ∷ t) = p c ≡ true

-- A search from the start of a part stops at its end.
pub find_end :
    (p : ℕ → Bool) (pre s t : Bytes)
    → all (λ c. not (p c)) s ≡ true
    → StopsAt p t
    → or_end (find_from p (pre ++ (s ++ t)) (length pre)) (pre ++ (s ++ t)) ≡ length pre + length s
find_end p pre s [] h k =
    rw (append-nil s, find_from-append p pre s, find_index-none p s h) (length-append pre s)
find_end p pre s (c ∷ t) h k =
    rw (find_from-append p pre (s ++ c ∷ t), find_index-append p s c t h k)
      (omega (arith, length-append pre (s ++ c ∷ t), length-append s (c ∷ t)))

pub substr_middle :
    (pre s t : Bytes) (n : ℕ) → n ≡ length s → substr (pre ++ (s ++ t)) (length pre) n ≡ s
substr_middle pre s t n e = rw (drop_append-length pre (s ++ t), e) (take_append-length s t)

-- what `toString` writes for a query and for a fragment
abbrev pub query_text : Bytes → Bytes
query_text [] = []
query_text (c ∷ s) = b'?' ∷ c ∷ s

abbrev pub fragment_text : Bytes → Bytes
fragment_text [] = []
fragment_text (c ∷ s) = b'#' ∷ c ∷ s

abbrev pub is_hash : ℕ → Bool
is_hash c = c == b'#'

fragment_stops : (fragment : Bytes) → StopsAt is_hash (fragment_text fragment)
fragment_stops [] = tt
fragment_stops (c ∷ s) = refl

find_here :
    (p : ℕ → Bool) (pre : Bytes) (c : ℕ) (t : Bytes)
    → p c ≡ true
    → find_from p (pre ++ c ∷ t) (length pre) ≡ some (length pre)
find_here p pre c t e =
    rw (find_from-append p pre (c ∷ t), find_index-append p [] c t refl e) (ap some (omega arith))

take_prefix : (n : ℕ) (s t : Bytes) → n ≡ length s → take n (s ++ t) ≡ s
take_prefix n s t e = rw e (take_append-length s t)

take_all : (n : ℕ) (s : Bytes) → n ≡ length s → take n s ≡ s
take_all n s e = rw e (take-length s)

fragment_at-some :
    (pre : Bytes) (c : ℕ) (s : Bytes) → fragment_at (pre ++ c ∷ s) (some (length pre)) ≡ s
unfolding fragment_at
fragment_at-some pre c s =
    rw (drop_append-suc-length pre c s) (take_all _ s (omega (arith, length-append pre (c ∷ s))))

-- From the hash on, the fragment is read; a query that is there ends before it.
fragment_read :
    (pre : Bytes) (c : ℕ) (s : Bytes)
    → fragment_at (pre ++ b'#' ∷ c ∷ s) (find_from is_hash (pre ++ b'#' ∷ c ∷ s) (length pre))
      ≡ c ∷ s
fragment_read pre c s =
    rw (find_here is_hash pre b'#' (c ∷ s) refl) (fragment_at-some pre b'#' (c ∷ s))

eq-true : (a b : ℕ) → a ≡ b → (a == b) ≡ true
eq-true a b h = ground arith

pub eq-false_of_lt : (a b : ℕ) → a < b → (a == b) ≡ false
eq-false_of_lt a b h = ground arith

length-before : (pre : Bytes) (c : ℕ) (s : Bytes) → (length pre == length (pre ++ c ∷ s)) ≡ false
length-before pre c s = eq-false_of_lt _ _ (omega (arith, length-append pre (c ∷ s)))

parse_query-fragment :
    (pre : Bytes) (c : ℕ) (s : Bytes) → parse_query (pre ++ b'#' ∷ c ∷ s) (length pre) ≡ ([], c ∷ s)
unfolding parse_query
parse_query-fragment pre c s =
    rw (
      get_or_append-length pre b'#' (c ∷ s) 0,
      length-before pre b'#' (c ∷ s),
      fragment_read pre c s,
    )

module _ (pre : Bytes) (c : ℕ) (q : Bytes)
    (no_hash : all (λ x. not (is_hash x)) (c ∷ q) ≡ true) where
  -- The query ends where the text of the fragment begins.
  query_end :
      (t : Bytes)
      → StopsAt is_hash t
      → or_end
          (find_from is_hash (pre ++ b'?' ∷ ((c ∷ q) ++ t)) (length pre))
          (pre ++ b'?' ∷ ((c ∷ q) ++ t))
        ≡ length pre + 1 + length (c ∷ q)
  query_end t k = find_end is_hash pre (b'?' ∷ c ∷ q) t no_hash k ∙ omega arith

  query_read :
      (t : Bytes)
      → substr
          (pre ++ b'?' ∷ ((c ∷ q) ++ t))
          (length pre + 1)
          (length pre + 1 + length (c ∷ q) - length pre - 1)
        ≡ c ∷ q
  query_read t =
      rw (drop_append-suc-length pre b'?' ((c ∷ q) ++ t)) (take_prefix _ (c ∷ q) t (omega arith))

  fragment_behind :
      (d : ℕ) (s : Bytes)
      → fragment_at (pre ++ b'?' ∷ ((c ∷ q) ++ b'#' ∷ d ∷ s)) (
          find_from is_hash
            (pre ++ b'?' ∷ ((c ∷ q) ++ b'#' ∷ d ∷ s))
            (length pre + 1 + length (c ∷ q)))
        ≡ d ∷ s
  fragment_behind d s = rw (regrouped, position) (fragment_read (pre ++ b'?' ∷ c ∷ q) d s)
    where
      regrouped : pre ++ b'?' ∷ ((c ∷ q) ++ b'#' ∷ d ∷ s) ≡ (pre ++ b'?' ∷ c ∷ q) ++ b'#' ∷ d ∷ s
      regrouped = sym (append_assoc pre (b'?' ∷ c ∷ q) (b'#' ∷ d ∷ s))

      position : length pre + 1 + length (c ∷ q) ≡ length (pre ++ b'?' ∷ c ∷ q)
      position = omega (arith, length-append pre (b'?' ∷ c ∷ q))

  query_ends_source :
      (length pre + 1 + length (c ∷ q) == length (pre ++ b'?' ∷ ((c ∷ q) ++ []))) ≡ true
  query_ends_source = eq-true _ _ (rw append-nil (omega (arith, length-append pre (b'?' ∷ c ∷ q))))

  query_before_fragment :
      (d : ℕ) (s : Bytes)
      → (length pre + 1 + length (c ∷ q) == length (pre ++ b'?' ∷ ((c ∷ q) ++ d ∷ s))) ≡ false
  query_before_fragment d s =
      eq-false_of_lt _ _ (
        omega (arith, length-append pre (b'?' ∷ ((c ∷ q) ++ d ∷ s)), length-append (c ∷ q) (d ∷ s)))

  parse_query-both :
      (fragment : Bytes)
      → parse_query (pre ++ b'?' ∷ ((c ∷ q) ++ fragment_text fragment)) (length pre)
        ≡ (c ∷ q, fragment)
  unfolding parse_query
  parse_query-both [] = rw (
    get_or_append-length pre b'?' ((c ∷ q) ++ []) 0,
    query_end [] tt,
    query_read [],
    query_ends_source,
  )
  parse_query-both (d ∷ s) = rw (
    get_or_append-length pre b'?' ((c ∷ q) ++ b'#' ∷ d ∷ s) 0,
    query_end (b'#' ∷ d ∷ s) refl,
    query_read (b'#' ∷ d ∷ s),
    query_before_fragment b'#' (d ∷ s),
    fragment_behind d s,
  )

-- Behind the path stand a query and a fragment, each of which may be empty.
abbrev pub rest_text : Bytes → Bytes → Bytes
rest_text query fragment = query_text query ++ fragment_text fragment

pub rest_stops : (query fragment : Bytes) → StopsAt ends_path (rest_text query fragment)
rest_stops [] [] = tt
rest_stops [] (d ∷ s) = refl
rest_stops (c ∷ q) fragment = refl

-- The parser reads the query and the fragment that were written.
pub rest_read :
    (pre query fragment : Bytes)
    → all (λ x. not (is_hash x)) query ≡ true
    → (if length pre == length (pre ++ rest_text query fragment)
        then ([], [])
        else parse_query (pre ++ rest_text query fragment) (length pre))
      ≡ (query, fragment)
rest_read pre [] [] h = rw (append-nil pre, eq-true _ _ refl)
rest_read pre [] (d ∷ s) h = rw (length-before pre b'#' (d ∷ s)) (parse_query-fragment pre d s)
rest_read pre (c ∷ q) fragment h =
    rw (length-before pre b'?' ((c ∷ q) ++ fragment_text fragment))
      (parse_query-both pre c q h fragment)
