-- ===== src/Uri/Query/Laws.antt =====
-- A URI whose query is the text of some parameters has these parameters.
use opencmw_cpp.Base.{
  ℕ, suc, ◌+◌, ◌-◌, ◌≡◌, ◌≢◌, refl, sym, ap, ◌∙◌, Bytes, true, ◌||◌, ◌==◌, [], ◌∷◌, ◌++◌,
  append-nil, append_assoc, Option, none, some, length, all, All, All-append, all-cons, all_mono,
  all-append, append-ne-nil, is_empty_of_ne, assign, bytes_discrete, arith, ok,
}
use opencmw_cpp.Uri.{Check, strict, relaxed, Uri, is_unreserved}
use opencmw_cpp.Uri.Codec.{encode}
use opencmw_cpp.Uri.Codec.RoundTrip.{IsByte, encode_is_legal, encode-ne-nil}
use opencmw_cpp.Uri.Parse.{require_all}
use opencmw_cpp.Uri.Query.{Params, is_query_char, query_param_map, query_loop, append_params}
use opencmw_cpp.Uri.Query.RoundTrip.{
  param_then, tail_text, IsParam, IsPlainIfFlag, ArePrintable, assign_all, query_loop-text,
  length-text, append_params-nil, head-IsParam, key-ne-nil,
}

legal_is_query_char : (c : ℕ) → (is_unreserved c || c == b'%') ≡ true → is_query_char c ≡ true
unfolding is_query_char
legal_is_query_char c h = ground arith

separator_is_query : (is_query_char b'=' ≡ true) × (is_query_char b'&' ≡ true)
unfolding is_query_char
separator_is_query = (refl, refl)

encode_is_query : (s : Bytes) → All IsByte s → all is_query_char (encode s) ≡ true
encode_is_query s h = all_mono _ _ (encode s) legal_is_query_char (encode_is_legal s h)

param_is_query :
    (p : Bytes × Option Bytes) (t : Bytes)
    → IsParam p
    → all is_query_char t ≡ true
    → all is_query_char (param_then p t) ≡ true
param_is_query (k, none) t h ht = all-append _ (encode k) t (encode_is_query k h.0) ht
param_is_query (k, some v) t h ht = all-append _ (encode k) _ (encode_is_query k h.0) (
    all-cons is_query_char b'=' _ separator_is_query.0
      (all-append _ (encode v) t (encode_is_query v h.2) ht))

tail_is_query :
    (p : Bytes × Option Bytes) (ps : Params)
    → ArePrintable (p ∷ ps)
    → all is_query_char (tail_text ps) ≡ true
tail_is_query p [] h = refl
tail_is_query p (q ∷ ps) h =
    all-cons is_query_char b'&' _ separator_is_query.1
      (param_is_query q (tail_text ps) (head-IsParam q ps h.1) (tail_is_query q ps h.1))

-- No two parameters have one key.
abbrev pub HasDistinctKeys : Params → Type 0
HasDistinctKeys [] = Unit
HasDistinctKeys (p ∷ ps) = All (λ q. p.0 ≢ q.0) ps × HasDistinctKeys ps

assign-new :
    (k : Bytes) (v : Option Bytes) (m : Params)
    → All (λ q. q.0 ≢ k) m
    → assign bytes_discrete k v m ≡ m ++ (k, v) ∷ []
unfolding assign
assign-new k v [] h = refl
assign-new k v ((j, w) ∷ m) h = ground (arith, assign-new k v m h.1)

Avoids-append :
    (p : Bytes × Option Bytes) (m ps : Params)
    → All (λ r. All (λ q. q.0 ≢ r.0) m) ps
    → All (λ q. p.0 ≢ q.0) ps
    → All (λ r. All (λ q. q.0 ≢ r.0) (m ++ p ∷ [])) ps
Avoids-append p m [] h d = tt
Avoids-append p m (r ∷ ps) h d =
    (All-append (λ q. q.0 ≢ r.0) m (p ∷ []) h.0 (d.0, tt), Avoids-append p m ps h.1 d.1)

assign_all-distinct :
    (ps m : Params)
    → HasDistinctKeys ps
    → All (λ p. All (λ q. q.0 ≢ p.0) m) ps
    → assign_all ps m ≡ m ++ ps
assign_all-distinct [] m d h = sym (append-nil m)
assign_all-distinct ((k, v) ∷ ps) m d h =
    rw (assign-new k v m h.0)
      (assign_all-distinct ps (m ++ (k, v) ∷ []) d.1 (Avoids-append (k, v) m ps h.1 d.0))
    ∙ append_assoc m ((k, v) ∷ []) ps

Avoids-nil : (ps : Params) → All (λ r. All {A = Bytes × Option Bytes} (λ q. q.0 ≢ r.0) []) ps
Avoids-nil [] = tt
Avoids-nil (p ∷ ps) = (tt, Avoids-nil ps)

require_query :
    (check : Check) (s : Bytes)
    → all is_query_char s ≡ true
    → require_all check is_query_char s ≡ ok tt
require_query strict s h = rw h
require_query relaxed s h = refl

text_loop :
    (check : Check) (p : Bytes × Option Bytes) (ps : Params)
    → ArePrintable (p ∷ ps)
    → HasDistinctKeys (p ∷ ps)
    → query_loop check (length (param_then p (tail_text ps))) (param_then p (tail_text ps)) []
      ≡ ok (p ∷ ps)
text_loop check p ps h d =
    let text = param_then p (tail_text ps) in
    let fuel : suc (length ps + (length text - suc (length ps))) ≡ length text =
      omega (arith, length-text p ps h) in
    rw (← fuel) (query_loop-text check p ps _ [] h)
    ∙ ap ok (assign_all-distinct (p ∷ ps) [] d (tt, Avoids-nil ps))

param-ne-nil : (p : Bytes × Option Bytes) (t : Bytes) → IsParam p → param_then p t ≢ []
param-ne-nil p t h = append-ne-nil (encode p.0) _ (encode-ne-nil p.0 (key-ne-nil p h))

-- `queryParamMap` reads the parameters that `toString` wrote into the query: any parameters with
-- keys that are distinct and not empty and with values that are not empty, in the order of the
-- text; a last parameter that has no value must have a key that needs no escape.
pub query_param_map-append_params :
    (check : Check) (uri : Uri) (ps : Params)
    → ArePrintable ps
    → HasDistinctKeys ps
    → uri.query ≡ append_params [] ps
    → query_param_map check uri ≡ ok ps
unfolding query_param_map append_params
query_param_map-append_params check uri [] h d e = rw e
query_param_map-append_params check uri (p ∷ ps) h d e =
    rw (e, append_params-nil p ps (key-ne-nil p (head-IsParam p ps h)))
      (rw
        (
          is_empty_of_ne _ (param-ne-nil p (tail_text ps) (head-IsParam p ps h)),
          require_query check _
              (param_is_query p (tail_text ps) (head-IsParam p ps h) (tail_is_query p ps h)),
        )
        (text_loop check p ps h d))

-- The text that the factory writes holds characters of a query only.
pub append_params_chars :
    (ps : Params) → ArePrintable ps → all is_query_char (append_params [] ps) ≡ true
append_params_chars [] h = unfold append_params in refl
append_params_chars (p ∷ ps) h =
    rw (append_params-nil p ps (key-ne-nil p (head-IsParam p ps h)))
      (param_is_query p (tail_text ps) (head-IsParam p ps h) (tail_is_query p ps h))

-- Parameters that may stand in any order: each key that has no value needs no escape.
pub ArePrintable-of_All :
    (ps : Params) → All (λ p. IsParam p × IsPlainIfFlag p) ps → ArePrintable ps
ArePrintable-of_All [] h = tt
ArePrintable-of_All (p ∷ []) h = h.0
ArePrintable-of_All (p ∷ q ∷ ps) h = (h.0.0, ArePrintable-of_All (q ∷ ps) h.1)
