-- ===== src/Uri/Query/RoundTrip.antt =====
-- The parameters that `toString` writes into a query are the ones that `queryParamMap` reads.
use opencmw_cpp.Base.{
  ℕ, suc, ◌+◌, ◌≤◌, ◌<◌, ◌≡◌, ◌≢◌, refl, ◌∙◌, Bytes, true, not, ◌||◌, ◌==◌, [], ◌∷◌, ◌++◌,
  append-nil, append_assoc, Option, none, some, length, take, drop, all, All, all_mono, suc-add,
  length-append, length-pos_of_ne, is_empty_of_ne, append-ne-nil, get_or_append-length,
  drop_append-suc-length, take_append-length, find_index, find_index-append, find_index-none,
  assign, bytes_discrete, arith, Result, ok, ◌>>=◌,
}
use opencmw_cpp.Uri.{Check, is_unreserved}
use opencmw_cpp.Uri.Codec.{encode, decode}
use opencmw_cpp.Uri.Codec.RoundTrip.{
  IsByte, decode-encode, encode_is_legal, encode-ne-nil, encode_of_unreserved,
}
use opencmw_cpp.Uri.Parse.{at}
use opencmw_cpp.Uri.Query.{
  Params, after_key, ends_key, ends_value, value_of, query_loop, append_param, append_params,
}

-- what `toString` writes for a value and for a parameter, before the text `rest`
abbrev pub value_then : Option Bytes → Bytes → Bytes
value_then none rest = rest
value_then (some v) rest = b'=' ∷ (encode v ++ rest)

abbrev pub param_then : Bytes × Option Bytes → Bytes → Bytes
param_then (k, v) rest = encode k ++ value_then v rest

-- and for the parameters behind the first
abbrev pub tail_text : Params → Bytes
tail_text [] = []
tail_text (p ∷ ps) = b'&' ∷ param_then p (tail_text ps)

-- A parameter that `queryParamMap` can give: a key that is not empty and a value that, if there is
-- one, is not empty. The last key of a query that has no value is read as it stands, so it must
-- need no escape.
abbrev pub IsParam : Bytes × Option Bytes → Type 0
IsParam (k, none) = All IsByte k × (k ≢ [])
IsParam (k, some v) = All IsByte k × (k ≢ []) × All IsByte v × (v ≢ [])

abbrev pub IsPlainIfFlag : Bytes × Option Bytes → Type 0
IsPlainIfFlag (k, none) = all is_unreserved k ≡ true
IsPlainIfFlag (k, some v) = Unit

abbrev pub ArePrintable : Params → Type 0
ArePrintable [] = Unit
ArePrintable (p ∷ []) = IsParam p × IsPlainIfFlag p
ArePrintable (p ∷ q ∷ ps) = IsParam p × ArePrintable (q ∷ ps)

-- the assignments of the loop, in order
abbrev pub assign_all : Params → Params → Params
assign_all [] m = m
assign_all ((k, v) ∷ ps) m = assign_all ps (assign bytes_discrete k v m)

value_of_ne : (v : Bytes) → v ≢ [] → value_of v ≡ some v
value_of_ne [] h = absurd (h refl)
value_of_ne (c ∷ v) h = refl

legal_no_separator : (c : ℕ) → (is_unreserved c || c == b'%') ≡ true → not (ends_key c) ≡ true
unfolding is_unreserved
legal_no_separator c h = ground arith

encode_no_separator : (s : Bytes) → All IsByte s → all (λ c. not (ends_key c)) (encode s) ≡ true
encode_no_separator s h = all_mono _ _ (encode s) legal_no_separator (encode_is_legal s h)

not-ends_value : (c : ℕ) → not (ends_key c) ≡ true → not (ends_value c) ≡ true
not-ends_value c h = ground arith

encode_no_end : (s : Bytes) → All IsByte s → all (λ c. not (ends_value c)) (encode s) ≡ true
encode_no_end s h = all_mono _ _ (encode s) not-ends_value (encode_no_separator s h)

-- The loop stands on text that is not empty.
query_loop-suc :
    (check : Check) (fuel : ℕ) (s : Bytes) (m : Params) (i : ℕ)
    → s ≢ []
    → find_index ends_key s ≡ some i
    → query_loop check (suc fuel) s m ≡ (
        decode check (take i s) >>= λ key.
        after_key check (query_loop check fuel) (at s i) key (drop (i + 1) s) m)
unfolding query_loop
query_loop-suc check fuel [] m i h e = absurd (h refl)
query_loop-suc check fuel (c ∷ s) m i h e = rw (e, query_loop)

query_loop-none :
    (check : Check) (fuel : ℕ) (s : Bytes) (m : Params)
    → s ≢ []
    → find_index ends_key s ≡ none
    → query_loop check (suc fuel) s m ≡ ok (assign bytes_discrete s none m)
unfolding query_loop
query_loop-none check fuel [] m h e = absurd (h refl)
query_loop-none check fuel (c ∷ s) m h e = rw (e, query_loop)

unreserved_no_separator :
    (s : Bytes) → all is_unreserved s ≡ true → all (λ c. not (ends_key c)) s ≡ true
unreserved_no_separator s h = all_mono _ _ s (λ c e. legal_no_separator c (rw e)) h

module _ (check : Check) (next : Bytes → Params → Result Params) (k v : Bytes) where
  -- A value up to a separator is decoded, and the next round stands behind the separator.
  after_key-ended :
      (t : Bytes) (m : Params)
      → All IsByte v
      → v ≢ []
      → after_key check next b'=' k (encode v ++ b'&' ∷ t) m
        ≡ next t (assign bytes_discrete k (some v) m)
  unfolding after_key
  after_key-ended t m hv nv = rw (
    is_empty_of_ne _ (append-ne-nil (encode v) (b'&' ∷ t) (encode-ne-nil v nv)),
    find_index-append ends_value (encode v) b'&' t (encode_no_end v hv) refl,
    take_append-length (encode v) (b'&' ∷ t),
    decode-encode check v hv,
    drop_append-suc-length (encode v) b'&' t,
  )

  -- The last value is decoded up to the end.
  after_key-last :
      (m : Params)
      → All IsByte v
      → v ≢ []
      → after_key check next b'=' k (encode v ++ []) m ≡ ok (assign bytes_discrete k (some v) m)
  unfolding after_key
  after_key-last m hv nv = rw (
    append-nil (encode v),
    is_empty_of_ne _ (encode-ne-nil v nv),
    find_index-none ends_value (encode v) (encode_no_end v hv),
    append-nil (encode v),
    decode-encode check v hv,
    value_of_ne v nv,
  )

module _ (check : Check) (fuel : ℕ) (k : Bytes) (hk : All IsByte k) (nk : k ≢ []) (m : Params) where
  -- A round reads the key, up to the separator.
  key_round :
      (c : ℕ) (t : Bytes)
      → ends_key c ≡ true
      → query_loop check (suc fuel) (encode k ++ c ∷ t) m
        ≡ after_key check (query_loop check fuel) c k t m
  key_round c t e =
      query_loop-suc check fuel (encode k ++ c ∷ t) m (length (encode k))
        (append-ne-nil (encode k) (c ∷ t) (encode-ne-nil k nk))
        (find_index-append ends_key (encode k) c t (encode_no_separator k hk) e)
      ∙ rw (
        take_append-length (encode k) (c ∷ t),
        decode-encode check k hk,
        get_or_append-length (encode k) c t 0,
        drop_append-suc-length (encode k) c t,
      )

  flag_round :
      (t : Bytes)
      → query_loop check (suc fuel) (encode k ++ b'&' ∷ t) m
        ≡ query_loop check fuel t (assign bytes_discrete k none m)
  unfolding after_key
  flag_round t = key_round b'&' t refl

  value_round :
      (v t : Bytes)
      → All IsByte v
      → v ≢ []
      → query_loop check (suc fuel) (encode k ++ b'=' ∷ (encode v ++ b'&' ∷ t)) m
        ≡ query_loop check fuel t (assign bytes_discrete k (some v) m)
  value_round v t hv nv =
      key_round b'=' (encode v ++ b'&' ∷ t) refl
      ∙ after_key-ended check (query_loop check fuel) k v t m hv nv

  last_value_round :
      (v : Bytes)
      → All IsByte v
      → v ≢ []
      → query_loop check (suc fuel) (encode k ++ b'=' ∷ (encode v ++ [])) m
        ≡ ok (assign bytes_discrete k (some v) m)
  last_value_round v hv nv =
      key_round b'=' (encode v ++ []) refl
      ∙ after_key-last check (query_loop check fuel) k v m hv nv

  last_flag_round :
      all is_unreserved k ≡ true
      → query_loop check (suc fuel) (encode k ++ []) m ≡ ok (assign bytes_discrete k none m)
  last_flag_round h =
      rw (append-nil (encode k), encode_of_unreserved k h)
        (query_loop-none check fuel k m nk
          (find_index-none ends_key k (unreserved_no_separator k h)))

-- The loop on the text of a list of parameters makes their assignments, whatever the map holds.
pub query_loop-text :
    (check : Check) (p : Bytes × Option Bytes) (ps : Params) (fuel : ℕ) (m : Params)
    → ArePrintable (p ∷ ps)
    → query_loop check (suc (length ps + fuel)) (param_then p (tail_text ps)) m
      ≡ ok (assign_all (p ∷ ps) m)
query_loop-text check (k, none) [] fuel m ((hk, nk), plain) =
    last_flag_round check _ k hk nk m plain
query_loop-text check (k, some v) [] fuel m ((hk, nk, hv, nv), plain) =
    last_value_round check _ k hk nk m v hv nv
query_loop-text check (k, none) (q ∷ ps) fuel m ((hk, nk), more) =
    flag_round check _ k hk nk m (param_then q (tail_text ps))
    ∙ rw (suc-add (length ps) fuel) (query_loop-text check q ps fuel _ more)
query_loop-text check (k, some v) (q ∷ ps) fuel m ((hk, nk, hv, nv), more) =
    value_round check _ k hk nk m v (param_then q (tail_text ps)) hv nv
    ∙ rw (suc-add (length ps) fuel) (query_loop-text check q ps fuel _ more)

-- Each parameter takes at least a character, so the length of the text is fuel enough.
length-value_then : (v : Option Bytes) (rest : Bytes) → length rest ≤ length (value_then v rest)
length-value_then none rest = omega arith
length-value_then (some v) rest = omega (arith, length-append (encode v) rest)

length-param_then :
    (k : Bytes) (v : Option Bytes) (rest : Bytes)
    → k ≢ []
    → length rest < length (param_then (k, v) rest)
length-param_then k v rest nk = omega (
  arith,
  length-append (encode k) (value_then v rest),
  length-value_then v rest,
  length-pos_of_ne (encode k) (encode-ne-nil k nk),
)

pub key-ne-nil : (p : Bytes × Option Bytes) → IsParam p → p.0 ≢ []
key-ne-nil (k, none) h = h.1
key-ne-nil (k, some v) h = h.1

pub head-IsParam : (p : Bytes × Option Bytes) (ps : Params) → ArePrintable (p ∷ ps) → IsParam p
head-IsParam p [] h = h.0
head-IsParam p (q ∷ ps) h = h.0

pub length-text :
    (p : Bytes × Option Bytes) (ps : Params)
    → ArePrintable (p ∷ ps)
    → length ps < length (param_then p (tail_text ps))
length-text p [] h = length-param_then p.0 p.1 [] (key-ne-nil p (head-IsParam p [] h))
length-text p (q ∷ ps) h =
    omega (
      arith,
      length-param_then p.0 p.1 (tail_text (q ∷ ps)) (key-ne-nil p h.0),
      length-text q ps h.1,
    )

pub param_then-append :
    (p : Bytes × Option Bytes) (t : Bytes) → param_then p [] ++ t ≡ param_then p t
param_then-append (k, none) t = rw append-nil
param_then-append (k, some v) t = rw (append-nil (encode v), append_assoc)

append_param-nil : (p : Bytes × Option Bytes) → append_param [] p ≡ param_then p []
unfolding append_param
append_param-nil (k, none) = refl
append_param-nil (k, some v) = rw append-nil

append_param-ne :
    (query : Bytes) (p : Bytes × Option Bytes)
    → query ≢ []
    → append_param query p ≡ query ++ b'&' ∷ param_then p []
unfolding append_param
append_param-ne query (k, none) h = rw (is_empty_of_ne query h)
append_param-ne query (k, some v) h = rw (is_empty_of_ne query h, append-nil (encode v))

-- `toString` puts the parameters behind a query that is not empty, each behind its separator.
append_params-text :
    (query : Bytes) (ps : Params) → query ≢ [] → append_params query ps ≡ query ++ tail_text ps
unfolding append_params
append_params-text query [] h = rw append-nil
append_params-text query (p ∷ ps) h =
    append_params-text (append_param query p) ps
      (rw (append_param-ne query p h) (append-ne-nil query _ h))
    ∙ rw (append_param-ne query p h, append_assoc, param_then-append p (tail_text ps))

pub append_params-nil :
    (p : Bytes × Option Bytes) (ps : Params)
    → p.0 ≢ []
    → append_params [] (p ∷ ps) ≡ param_then p (tail_text ps)
unfolding append_params
append_params-nil p ps h =
    append_params-text (append_param [] p) ps
      (rw (append_param-nil p) (append-ne-nil (encode p.0) _ (encode-ne-nil p.0 h)))
    ∙ rw (append_param-nil p) (param_then-append p (tail_text ps))
