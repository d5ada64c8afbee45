-- ===== src/Topic/ZmqForm.antt =====
-- The text form of a topic for ZMQ subscriptions is read back as the topic.
use mathlib.Core.List.Permᴰ
use opencmw_cpp.Base.{
  ℕ, ◌≡◌, ◌≢◌, refl, sym, ap, ◌∙◌, Bytes, true, false, not, ◌==◌, [], ◌∷◌, ◌++◌, append-nil,
  append_assoc, Option, none, some, all, All, all_mono, has, find_index-none, append-ne-nil, arith,
  ok,
}
use opencmw_cpp.Uri.{relaxed, is_unreserved}
use opencmw_cpp.Uri.Codec.{encode}
use opencmw_cpp.Uri.Codec.RoundTrip.{encode_of_unreserved, encode-ne-nil}
use opencmw_cpp.Uri.Parse.{is_path_char, parse_uri}
use opencmw_cpp.Uri.Parse.Shapes.{is_hash, query_text, rest_text}
use opencmw_cpp.Uri.Parse.Sources.{parse_uri-path}
use opencmw_cpp.Uri.Query.{Params, is_query_char, append_params}
use opencmw_cpp.Uri.Query.RoundTrip.{
  ArePrintable, append_params-nil, param_then-append, param_then, tail_text, head-IsParam,
  key-ne-nil,
}
use opencmw_cpp.Uri.Query.Laws.{
  query_param_map-append_params, append_params_chars, ArePrintable-of_All,
}
use opencmw_cpp.Topic.{
  Topic, is_service_char, is_valid_service_name, ends_with, remove_last, parse_service,
  topic_params, make_topic, from_zmq_topic, append_zmq_param, append_zmq_params, to_zmq_topic,
}
use opencmw_cpp.Topic.ParamMap.Order.{IsSorted, HasDistinctKeys-of_sorted, insert_all_of_perm}
use opencmw_cpp.Topic.Service.{
  IsServiceName, IsServiceName-of_valid, valid_of_IsServiceName, parse_service_of_valid,
  service_is_path, parse_service_of_before, before_query_of_none, before_query-append, has-append,
  service_no_query,
}
use opencmw_cpp.Topic.MdpForm.{
  topic_text_is_uri, topic_uri, make_topic_of_service, service_is_path_char, query_no_hash,
  AreParams,
}

ends_with-append : (c : ℕ) (s : Bytes) → ends_with c (s ++ c ∷ []) ≡ true
unfolding ends_with
ends_with-append c [] = ground arith
ends_with-append c (x ∷ []) = ground arith
ends_with-append c (x ∷ y ∷ s) = ends_with-append c (y ∷ s)

remove_last-append : (c : ℕ) (s : Bytes) → remove_last (s ++ c ∷ []) ≡ s
unfolding remove_last
remove_last-append c [] = refl
remove_last-append c (x ∷ []) = refl
remove_last-append c (x ∷ y ∷ s) = ap (◌∷◌ x) (remove_last-append c (y ∷ s))

-- A parameter with a key that needs no escape.
abbrev pub IsPlainParam : Bytes × Option Bytes → Type 0
IsPlainParam p = all is_unreserved p.0 ≡ true

append_zmq_param-text :
    (s : Bytes) (p : Bytes × Option Bytes)
    → IsPlainParam p
    → append_zmq_param s false p ≡ s ++ b'&' ∷ param_then p []
unfolding append_zmq_param
append_zmq_param-text s (k, none) h = rw (encode_of_unreserved k h)
append_zmq_param-text s (k, some v) h = rw (encode_of_unreserved k h, append-nil (encode v))

append_zmq_param-first :
    (s : Bytes) (p : Bytes × Option Bytes)
    → IsPlainParam p
    → append_zmq_param s true p ≡ s ++ param_then p []
unfolding append_zmq_param
append_zmq_param-first s (k, none) h = rw (encode_of_unreserved k h)
append_zmq_param-first s (k, some v) h = rw (encode_of_unreserved k h, append-nil (encode v))

append_zmq_params-text :
    (s : Bytes) (ps : Params)
    → All IsPlainParam ps
    → append_zmq_params s false ps ≡ s ++ tail_text ps
unfolding append_zmq_params
append_zmq_params-text s [] h = rw append-nil
append_zmq_params-text s (p ∷ ps) h =
    append_zmq_params-text (append_zmq_param s false p) ps h.1
    ∙ rw (append_zmq_param-text s p h.0, append_assoc, param_then-append p (tail_text ps))

query_text_of_ne : (q : Bytes) → q ≢ [] → query_text q ≡ b'?' ∷ q
query_text_of_ne [] h = absurd (h refl)
query_text_of_ne (c ∷ q) h = refl

-- The text of the parameters of a topic, of which there is at least one.
query_text-params :
    (p : Bytes × Option Bytes) (ps : Params)
    → ArePrintable (p ∷ ps)
    → query_text (append_params [] (p ∷ ps)) ≡ b'?' ∷ param_then p (tail_text ps)
query_text-params p ps h =
    let key = key-ne-nil p (head-IsParam p ps h) in
    rw (append_params-nil p ps key) (
      query_text_of_ne (param_then p (tail_text ps))
        (append-ne-nil (encode p.0) _ (encode-ne-nil p.0 key)))

-- Where no key needs an escape, a topic's text is its URI.
to_zmq_topic-text :
    (service : Bytes) (ps : Params)
    → All IsPlainParam ps
    → ArePrintable ps
    → to_zmq_topic true (record { service = service; params = ps })
      ≡ (service ++ rest_text (append_params [] ps) []) ++ b'#' ∷ []
unfolding to_zmq_topic
to_zmq_topic-text service [] h k = unfold append_params in rw append-nil
to_zmq_topic-text service (p ∷ ps) h k =
    ap (λ (s : Bytes). s ++ b'#' ∷ [])
      (append_zmq_params-text (append_zmq_param (service ++ b'?' ∷ []) true p) ps h.1
        ∙ rw (
          append_zmq_param-first (service ++ b'?' ∷ []) p h.0,
          query_text-params p ps k,
          append-nil,
          append_assoc,
          append_assoc,
          param_then-append p (tail_text ps),
        ))

-- The text before the query of a topic's text is the service name.
parse_service-text :
    (service query : Bytes)
    → IsServiceName service
    → parse_service (service ++ rest_text query []) ≡ service
parse_service-text service [] v = rw (append-nil service) (parse_service_of_valid service v)
parse_service-text service (c ∷ q) v =
    parse_service_of_before (service ++ rest_text (c ∷ q) []) service (
      before_query-append service ((c ∷ q) ++ []) v.chars
      ∙ sym (
          before_query_of_none service (
            find_index-none (λ x. x == b'?') service
              (all_mono _ _ service service_no_query v.chars))))
    ∙ parse_service_of_valid service v

parse_topic_text :
    (service : Bytes) (ps : Params)
    → IsServiceName service
    → ArePrintable ps
    → parse_uri relaxed (service ++ rest_text (append_params [] ps) []) ≡ ok (topic_uri service ps)
parse_topic_text service ps v h = parsed (service_is_path service v)
  where
    parsed :
        (r : Bytes) × (service ≡ b'/' ∷ r)
        → parse_uri relaxed (service ++ rest_text (append_params [] ps) [])
          ≡ ok (topic_uri service ps)
    parsed (r, e) = rw e (
        parse_uri-path relaxed r (append_params [] ps) []
          (topic_text_is_uri r ps (rw e at v.chars) h)
          (all_mono is_service_char is_path_char (b'/' ∷ r) service_is_path_char (rw e at v.chars))
          (all_mono is_query_char (λ c. not (is_hash c)) (append_params [] ps) query_no_hash
            (append_params_chars ps h)))

topic_text_has_query :
    (service : Bytes) (p : Bytes × Option Bytes) (ps : Params)
    → ArePrintable (p ∷ ps)
    → has b'?' (service ++ rest_text (append_params [] (p ∷ ps)) []) ≡ true
topic_text_has_query service p ps h =
    rw (query_text-params p ps h) (has-append b'?' service (param_then p (tail_text ps) ++ []))

topic_params-text :
    (service : Bytes) (p : Bytes × Option Bytes) (ps : Params)
    → IsServiceName service
    → ArePrintable (p ∷ ps)
    → IsSorted (p ∷ ps)
    → topic_params (service ++ rest_text (append_params [] (p ∷ ps)) []) [] ≡ ok (p ∷ ps)
unfolding topic_params
topic_params-text service p ps v h s = rw (
  topic_text_has_query service p ps h,
  parse_topic_text service (p ∷ ps) v h,
  query_param_map-append_params relaxed (topic_uri service (p ∷ ps)) (p ∷ ps) h
      (HasDistinctKeys-of_sorted (p ∷ ps) s) refl,
  insert_all_of_perm (p ∷ ps) (p ∷ ps) s (Permᴰ.refl (p ∷ ps)),
)

make_topic-text :
    (service : Bytes) (ps : Params)
    → IsServiceName service
    → ArePrintable ps
    → IsSorted ps
    → make_topic (service ++ rest_text (append_params [] ps) []) []
      ≡ ok (record { service = service; params = ps })
unfolding make_topic
make_topic-text service [] v h s =
    unfold append_params in rw (append-nil service) (make_topic_of_service service [] v)
make_topic-text service (p ∷ ps) v h s = rw (
  topic_params-text service p ps v h s,
  parse_service-text service (append_params [] (p ∷ ps)) v,
  valid_of_IsServiceName service v,
)

-- The text that is sent to ZMQ, with its mark at the end, is read back as the topic: if the service
-- name is valid and the parameters are sorted, with values that are not empty and with keys that
-- are not empty and need no escape.
pub from_zmq_topic-to_zmq_topic :
    (t : Topic)
    → is_valid_service_name t.service ≡ true
    → IsSorted t.params
    → AreParams t.params
    → All IsPlainParam t.params
    → from_zmq_topic (to_zmq_topic true t) ≡ ok t
unfolding from_zmq_topic
from_zmq_topic-to_zmq_topic t valid sorted ok_params plain =
    let v = IsServiceName-of_valid t.service valid in
    let printable = ArePrintable-of_All t.params ok_params in
    rw
      (
        to_zmq_topic-text t.service t.params plain printable,
        ends_with-append b'#' (t.service ++ rest_text (append_params [] t.params) []),
        remove_last-append b'#' (t.service ++ rest_text (append_params [] t.params) []),
      )
      (make_topic-text t.service t.params v printable sorted)
