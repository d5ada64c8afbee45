-- ===== src/Topic/Tests.antt =====
-- The theorems on URIs, topics and filters at concrete inputs.
use mathlib.Core.List.{Permᴰ}
use opencmw_cpp.Base.{
  err, endless, ◌≢◌, decimal, ◌≡◌, refl, Bytes, codes, true, [], ◌∷◌, none, some, All, all,
  bytes_lt, ◌↔◌, starts_with, has, find_index, arith, ok, ◌>>=◌,
}
use opencmw_cpp.Uri.{Uri, strict, is_unreserved}
use opencmw_cpp.Uri.Codec.{encode, decode}
use opencmw_cpp.Uri.Codec.RoundTrip.{decode-encode}
use opencmw_cpp.Uri.Parse.{is_authority_char, is_path_char, is_uri_char}
use opencmw_cpp.Uri.Query.{Params, query_loop, append_params, append_param}
use opencmw_cpp.Uri.Query.RoundTrip.{ArePrintable}
use opencmw_cpp.Uri.Query.Fuel.{query_loop-fuel}
use opencmw_cpp.Uri.Query.Laws.{HasDistinctKeys}
use opencmw_cpp.Uri.Factory.{UriFactory, empty_factory, to_string, authority_text, build}
use opencmw_cpp.Uri.Authority.{parse_authority_parts}
use opencmw_cpp.Uri.Authority.Laws.{parse_authority_parts-authority_text}
use opencmw_cpp.Uri.Factory.Build.{IsJoinable, build-parts}
use opencmw_cpp.Topic.{
  Topic, is_valid_service_name, ends_with, strip_end, before_query, make_topic, topic_params,
  parse_service, from_mdp_topic, to_mdp_topic, to_zmq_topic, from_zmq_topic,
}
use opencmw_cpp.Topic.ParamMap.Order.{HasDistinctKeys-of_sorted, IsSorted}
use opencmw_cpp.Topic.MdpForm.{
  from_mdp_topic-to_mdp_topic, from_mdp_topic_perm, topic_uri, AreParams,
}
use opencmw_cpp.Topic.ZmqForm.{from_zmq_topic-to_zmq_topic}
use opencmw_cpp.Matcher.{Filters, content_type_filter, matches}
use opencmw_cpp.Matcher.Laws.{Satisfies, matches_iff}

abbrev space_text : Bytes
space_text = codes "a b"

decode-encode_example : decode strict (encode space_text) ≡ ok space_text
decode-encode_example =
    decode-encode strict space_text (omega arith, (omega arith, (omega arith, tt)))

query_loop-fuel_example :
    (query_loop strict 3 (codes "a&b") [] ≡ query_loop strict 9 (codes "a&b") [])
    × (query_loop strict 3 (codes "a&b") [] ≢ err endless)
query_loop-fuel_example = query_loop-fuel strict 3 9 (codes "a&b") [] (omega arith) (omega arith)

-- `a=1&b`
abbrev two_params : Params
two_params = (codes "a", some (codes "1")) ∷ (codes "b", none) ∷ []

abbrev swap_params : Params → Params
swap_params [] = []
swap_params (p ∷ []) = p ∷ []
swap_params (p ∷ q ∷ ps) = q ∷ p ∷ ps

two_params-IsSorted : IsSorted two_params
unfolding bytes_lt
two_params-IsSorted = ((refl, tt), (tt, tt))

two_params-AreParams : AreParams two_params
unfolding is_unreserved
two_params-AreParams = (
  (((omega arith, tt), λ e. cc, (omega arith, tt), λ e. cc), tt),
  ((((omega arith, tt), λ e. cc), refl), tt),
)

two_params-ArePrintable : ArePrintable two_params
unfolding is_unreserved
two_params-ArePrintable =
    (((omega arith, tt), λ e. cc, (omega arith, tt), λ e. cc), (((omega arith, tt), λ e. cc), refl))

swapped-ArePrintable : ArePrintable (swap_params two_params)
unfolding is_unreserved
swapped-ArePrintable =
    (((omega arith, tt), λ e. cc), (((omega arith, tt), λ e. cc, (omega arith, tt), λ e. cc), tt))

two_params-HasDistinctKeys : HasDistinctKeys two_params
two_params-HasDistinctKeys = HasDistinctKeys-of_sorted two_params two_params-IsSorted

abbrev query_uri : Uri
query_uri = topic_uri (codes "/dev") two_params

abbrev dev_topic : Topic
dev_topic = record { service = codes "/dev"; params = two_params }

dev_is_valid : is_valid_service_name (codes "/dev") ≡ true
unfolding is_valid_service_name starts_with ends_with
dev_is_valid = refl

from_mdp_topic-to_mdp_topic_example :
    (to_mdp_topic swap_params dev_topic >>= from_mdp_topic strict) ≡ ok dev_topic
from_mdp_topic-to_mdp_topic_example =
    from_mdp_topic-to_mdp_topic swap_params dev_topic dev_is_valid two_params-IsSorted
      two_params-AreParams (Permᴰ.swap refl refl)

from_mdp_topic_perm_example :
    from_mdp_topic strict (topic_uri (codes "/dev") two_params)
    ≡ from_mdp_topic strict (topic_uri (codes "/dev") (swap_params two_params))
from_mdp_topic_perm_example =
    from_mdp_topic_perm strict (codes "/dev") two_params (swap_params two_params)
      two_params-ArePrintable swapped-ArePrintable two_params-HasDistinctKeys (Permᴰ.swap refl refl)

from_zmq_topic-to_zmq_topic_example : from_zmq_topic (to_zmq_topic true dev_topic) ≡ ok dev_topic
unfolding is_unreserved
from_zmq_topic-to_zmq_topic_example =
    from_zmq_topic-to_zmq_topic dev_topic dev_is_valid two_params-IsSorted two_params-AreParams
      (refl, (refl, tt))

made : make_topic (codes "/dev") two_params ≡ ok dev_topic
unfolding make_topic topic_params parse_service strip_end before_query is_valid_service_name
    starts_with ends_with has find_index
made = refl

-- `mdp://localhost/dev?a=1&b#top`
abbrev dev_factory : UriFactory
dev_factory = record empty_factory {
  scheme = codes "mdp";
  authority = codes "localhost";
  path = codes "/dev";
  query_map = two_params;
  fragment = codes "top";
}

dev_factory-IsJoinable : IsJoinable dev_factory
unfolding authority_text is_authority_char is_path_char append_params append_param encode
    is_unreserved
dev_factory-IsJoinable = record {
  scheme_alnum = refl;
  scheme_given = λ e. cc;
  authority_chars = refl;
  authority_given = λ e. cc;
  rooted = refl;
  path_chars = refl;
  query_plain = refl;
  query_no_hash = refl;
  fragment_plain = refl;
}

dev_factory_legal : all is_uri_char (to_string dev_factory) ≡ true
unfolding to_string is_uri_char authority_text append_params append_param encode is_unreserved
    starts_with
dev_factory_legal = refl

build-parts_example :
    build strict dev_factory
    ≡ ok (record {
      str = to_string dev_factory;
      scheme = codes "mdp";
      authority = authority_text dev_factory;
      path = codes "/dev";
      query = append_params [] two_params;
      fragment = encode (codes "top");
    })
build-parts_example = build-parts strict dev_factory dev_factory-IsJoinable dev_factory_legal

-- a filter on `a`
abbrev a_filters : Filters
a_filters = (codes "a", content_type_filter) ∷ []

matches_iff_example :
    (matches a_filters dev_topic dev_topic ≡ true)
    ↔ ((codes "/dev" ≡ codes "/dev") × All (λ p. Satisfies a_filters two_params p.0 p.1) two_params)
matches_iff_example = matches_iff a_filters dev_topic dev_topic

-- `me:pw@host:80`
abbrev user_factory : UriFactory
user_factory = record empty_factory {
  user_name = codes "me";
  pwd = codes "pw";
  host = codes "host";
  port = some 80;
}

parse_authority_parts-authority_text_example :
    parse_authority_parts (authority_text user_factory) ≡ record {
      user_name = codes "me";
      pwd = codes "pw";
      host_name = codes "host";
      port = decimal 80;
    }
parse_authority_parts-authority_text_example =
    parse_authority_parts-authority_text user_factory 80 refl (λ e. cc) (λ e. cc) refl refl refl
      refl
