-- ===== src/Topic/MdpForm.antt =====
-- The URI form of a topic: it is read back as the topic, and the order of its parameters does not
-- matter.
use mathlib.Core.List.{Permᴰ}
use opencmw_cpp.Base.{
  ℕ, ◌≡◌, refl, Bytes, true, not, [], ◌∷◌, ◌++◌, append-nil, all, All, all_mono, all-append,
  starts_with, arith, ok, ◌>>=◌,
}
use opencmw_cpp.Uri.{Check, strict, Uri}
use opencmw_cpp.Uri.Codec.{encode}
use opencmw_cpp.Uri.Parse.{is_uri_char, is_path_char}
use opencmw_cpp.Uri.Parse.Shapes.{is_hash, query_text, rest_text}
use opencmw_cpp.Uri.Parse.Sources.{parse_uri-path}
use opencmw_cpp.Uri.Query.{Params, is_query_char, append_params}
use opencmw_cpp.Uri.Query.RoundTrip.{IsParam, IsPlainIfFlag, ArePrintable}
use opencmw_cpp.Uri.Query.Laws.{
  query_param_map-append_params, append_params_chars, ArePrintable-of_All, HasDistinctKeys,
}
use opencmw_cpp.Uri.Factory.{empty_factory, authority_text, to_string, build}
use opencmw_cpp.Uri.Factory.Build.{LacksMark, marked_query}
use opencmw_cpp.Topic.{
  Topic, is_service_char, is_valid_service_name, topic_params, make_topic, from_mdp_topic,
  path_or_root, to_mdp_topic,
}
use opencmw_cpp.Topic.ParamMap.Order.{
  IsSorted, All-perm, HasDistinctKeys-perm, HasDistinctKeys-of_sorted, insert_all_of_perm,
  insert_all_perm,
}
use opencmw_cpp.Topic.Service.{
  IsServiceName, IsServiceName-of_valid, valid_of_IsServiceName, service_has_no_query,
  parse_service_of_valid, service_is_path,
}

service_is_uri : (c : ℕ) → is_service_char c ≡ true → is_uri_char c ≡ true
unfolding is_uri_char
service_is_uri c h = ground arith

pub service_is_path_char : (c : ℕ) → is_service_char c ≡ true → is_path_char c ≡ true
unfolding is_path_char
service_is_path_char c h = ground arith

query_is_uri : (c : ℕ) → is_query_char c ≡ true → is_uri_char c ≡ true
unfolding is_uri_char is_query_char
query_is_uri c h = ground arith

pub query_no_hash : (c : ℕ) → is_query_char c ≡ true → not (is_hash c) ≡ true
unfolding is_query_char
query_no_hash c h = ground arith

query_no_mark : (s : Bytes) → all is_query_char s ≡ true → LacksMark b'?' s
unfolding is_query_char
query_no_mark [] h = tt
query_no_mark (c ∷ s) h = ground arith

query_text_is_uri : (s : Bytes) → all is_query_char s ≡ true → all is_uri_char (query_text s) ≡ true
unfolding is_uri_char
query_text_is_uri [] h = refl
query_text_is_uri (c ∷ s) h = all_mono _ _ (c ∷ s) query_is_uri h

-- The factory of a topic prints the service name and the query.
to_string-path :
    (p : Bytes) (ps : Params)
    → LacksMark b'?' (append_params [] ps)
    → to_string (record empty_factory { path = b'/' ∷ p; query_map = ps })
      ≡ b'/' ∷ p ++ rest_text (append_params [] ps) []
unfolding to_string authority_text starts_with encode
to_string-path p ps h = rw (marked_query (append_params [] ps) [] h)

-- The URI of a topic.
abbrev pub topic_uri : Bytes → Params → Uri
topic_uri service ps = record {
  str = service ++ rest_text (append_params [] ps) [];
  scheme = [];
  authority = [];
  path = service;
  query = append_params [] ps;
  fragment = [];
}

pub topic_text_is_uri :
    (p : Bytes) (ps : Params)
    → all is_service_char (b'/' ∷ p) ≡ true
    → ArePrintable ps
    → all is_uri_char (b'/' ∷ p ++ rest_text (append_params [] ps) []) ≡ true
topic_text_is_uri p ps h k = rw (append-nil (query_text (append_params [] ps))) (
    all-append is_uri_char (b'/' ∷ p) (query_text (append_params [] ps))
      (all_mono is_service_char is_uri_char (b'/' ∷ p) service_is_uri h)
      (query_text_is_uri (append_params [] ps) (append_params_chars ps k)))

build-path :
    (p : Bytes) (ps : Params)
    → all is_service_char (b'/' ∷ p) ≡ true
    → ArePrintable ps
    → build strict (record empty_factory { path = b'/' ∷ p; query_map = ps })
      ≡ ok (topic_uri (b'/' ∷ p) ps)
unfolding build
build-path p ps h k =
    let legal = append_params_chars ps k in
    rw (to_string-path p ps (query_no_mark (append_params [] ps) legal)) (
      parse_uri-path strict p (append_params [] ps) [] (topic_text_is_uri p ps h k)
        (all_mono is_service_char is_path_char (b'/' ∷ p) service_is_path_char h)
        (all_mono is_query_char (λ c. not (is_hash c)) (append_params [] ps) query_no_hash legal))

build-topic :
    (service : Bytes) (ps : Params)
    → IsServiceName service
    → ArePrintable ps
    → build strict (record empty_factory { path = service; query_map = ps })
      ≡ ok (topic_uri service ps)
build-topic service ps v h = built (service_is_path service v)
  where
    built :
        (r : Bytes) × (service ≡ b'/' ∷ r)
        → build strict (record empty_factory { path = service; query_map = ps })
          ≡ ok (topic_uri service ps)
    built (p, e) = rw e (build-path p ps (rw e at v.chars) h)

pub make_topic_of_service :
    (service : Bytes) (ps : Params)
    → IsServiceName service
    → make_topic service ps ≡ ok (record { service = service; params = ps })
unfolding make_topic topic_params
make_topic_of_service service ps v = rw (
  service_has_no_query service v,
  parse_service_of_valid service v,
  valid_of_IsServiceName service v,
)

path_or_root_of_service : (service : Bytes) → IsServiceName service → path_or_root service ≡ service
path_or_root_of_service [] v = absurd (omega (arith, v.longer))
path_or_root_of_service (c ∷ s) v = refl

-- Parameters that a query can carry in any order.
abbrev pub AreParams : Params → Type 0
AreParams = All (λ p. IsParam p × IsPlainIfFlag p)

-- A topic survives the way through its URI, in whatever order the factory's unordered map meets the
-- parameters: if the service name is valid, and the parameters are sorted as a `std::map` is, with
-- keys that are not empty, values that are not empty, and no key without a value that needs an
-- escape.
pub from_mdp_topic-to_mdp_topic :
    (iterate : Params → Params) (t : Topic)
    → is_valid_service_name t.service ≡ true
    → IsSorted t.params
    → AreParams t.params
    → Permᴰ t.params (iterate t.params)
    → (to_mdp_topic iterate t >>= from_mdp_topic strict) ≡ ok t
unfolding to_mdp_topic from_mdp_topic
from_mdp_topic-to_mdp_topic iterate t valid sorted ok_params order =
    let v = IsServiceName-of_valid t.service valid in
    let ps = iterate t.params in
    let printable = ArePrintable-of_All ps (All-perm _ order ok_params) in
    let distinct = HasDistinctKeys-perm order (HasDistinctKeys-of_sorted t.params sorted) in
    rw (
      build-topic t.service ps v printable,
      query_param_map-append_params strict (topic_uri t.service ps) ps printable distinct refl,
      insert_all_of_perm t.params ps sorted order,
      path_or_root_of_service t.service v,
      make_topic_of_service t.service t.params v,
    )

-- Two URIs of a service whose queries are printed from the same parameters in different orders are
-- read as one topic, or fail alike: if no key is listed twice, the keys and the values that there
-- are are not empty, and in either order the last parameter has a value or a key that needs no
-- escape.
pub from_mdp_topic_perm :
    (check : Check) (service : Bytes) (ps qs : Params)
    → ArePrintable ps
    → ArePrintable qs
    → HasDistinctKeys ps
    → Permᴰ ps qs
    → from_mdp_topic check (topic_uri service ps) ≡ from_mdp_topic check (topic_uri service qs)
unfolding from_mdp_topic
from_mdp_topic_perm check service ps qs hp hq d order = rw (
  query_param_map-append_params check (topic_uri service ps) ps hp d refl,
  query_param_map-append_params check (topic_uri service qs) qs hq (HasDistinctKeys-perm order d)
      refl,
  insert_all_perm [] order d,
)
