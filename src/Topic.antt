-- ===== src/Topic.antt =====
-- src/core/include/Topic.hpp: service names with query parameters, and their two wire forms.
pub mod ParamMap
pub mod Service
pub mod MdpForm
pub mod ZmqForm
pub mod Tests
use opencmw_cpp.Base.{
  ℕ, ◌+◌, ◌-◌, Bytes, codes, Bool, true, false, not, ◌||◌, ◌&&◌, ◌==◌, ltb, List, [], ◌∷◌, ◌++◌,
  Option, none, some, if◌then◌else◌, is_digit, is_lower, is_upper, is_empty, starts_with, has, all,
  length, take, find_index, Result, ok, err, ◌>>=◌, ◌>>◌, guard, invalid_argument,
}
use opencmw_cpp.Uri.{Check, strict, relaxed, Uri}
use opencmw_cpp.Uri.Codec.{encode}
use opencmw_cpp.Uri.Parse.{parse_uri}
use opencmw_cpp.Uri.Query.{Params, query_param_map}
use opencmw_cpp.Uri.Factory.{empty_factory, build}
use ParamMap.{insert_all}

-- The parameters are a `std::map`, so they are sorted by key.
pub record Topic : Type 0 where
  pub service : Bytes
  pub params : Params

abbrev pub is_service_char : ℕ → Bool
is_service_char c =
    c == b'/' || (c == b'.' || (c == b'_' || (is_digit c || (is_lower c || is_upper c))))

-- `s.ends_with(c)`
unfoldable pub ends_with : ℕ → Bytes → Bool
ends_with c [] = false
ends_with c (x ∷ []) = x == c
ends_with c (x ∷ y ∷ s) = ends_with c (y ∷ s)

-- `s.remove_suffix(1)`
unfoldable pub remove_last : Bytes → Bytes
remove_last [] = []
remove_last (x ∷ []) = []
remove_last (x ∷ y ∷ s) = x ∷ remove_last (y ∷ s)

unfoldable pub is_valid_service_name : Bytes → Bool
is_valid_service_name s =
    starts_with s (codes "/")
    && (ltb 1 (length s) && (not (ends_with b'/' s) && all is_service_char s))

-- The loop that removes the slashes at the end: what is left of a text begins with what is left
-- behind its first character, if anything is.
unfoldable pub strip_end : Bytes → Bytes
strip_end [] = []
strip_end (c ∷ s) = let rest = strip_end s in if is_empty rest && c == b'/' then [] else c ∷ rest

-- the text before the query
unfoldable pub before_query : Bytes → Bytes
before_query s = elim (find_index (λ c. c == b'?') s) [ none ↦ s | some i ↦ take i s ]

-- `parseService`
unfoldable pub parse_service : Bytes → Bytes
parse_service s =
    let r = strip_end (before_query s) in if not (starts_with r (codes "/")) then b'/' ∷ r else r

-- The parameters of the private constructor: those that are given, or those of the query.
unfoldable pub topic_params : Bytes → Params → Result Params
topic_params s params =
    if has b'?' s
    then (do
      guard (is_empty params) invalid_argument
      parsed ← parse_uri relaxed s
      query ← query_param_map relaxed parsed
      ok (insert_all query params))
    else ok params

-- the private constructor
unfoldable pub make_topic : Bytes → Params → Result Topic
make_topic s params = do
  all_params ← topic_params s params
  guard (is_valid_service_name (parse_service s)) invalid_argument
  ok (record { service = parse_service s; params = all_params })

-- `fromString`
abbrev pub from_string : Bytes → Params → Result Topic
from_string = make_topic

abbrev pub path_or_root : Bytes → Bytes
path_or_root [] = codes "/"
path_or_root (c ∷ s) = c ∷ s

-- `fromMdpTopic`
unfoldable pub from_mdp_topic : Check → Uri → Result Topic
from_mdp_topic check uri = do
  query ← query_param_map check uri
  make_topic (path_or_root uri.path) (insert_all query [])

-- `fromZmqTopic`
unfoldable pub from_zmq_topic : Bytes → Result Topic
from_zmq_topic s = from_string (if ends_with b'#' s then remove_last s else s) []

-- `toMdpTopic`. The factory holds the parameters in an unordered map: `iterate` is the order in
-- which that map meets them.
unfoldable pub to_mdp_topic : (Params → Params) → Topic → Result Uri
to_mdp_topic iterate t =
    build strict (record empty_factory { path = t.service; query_map = iterate t.params })

-- one round of the loop of `toZmqTopic`
unfoldable pub append_zmq_param : Bytes → Bool → Bytes × Option Bytes → Bytes
unfolding encode
append_zmq_param s is_first (key, value) =
    s
    ++ ((if is_first then [] else codes "&")
        ++ (key ++ elim value [ none ↦ [] | some v ↦ b'=' ∷ encode v ]))

unfoldable pub append_zmq_params : Bytes → Bool → Params → Bytes
unfolding append_zmq_param
append_zmq_params s is_first [] = s
append_zmq_params s is_first (p ∷ ps) = append_zmq_params (append_zmq_param s is_first p) false ps

-- `toZmqTopic`
unfoldable pub to_zmq_topic : Bool → Topic → Bytes
unfolding append_zmq_params
to_zmq_topic delimit t =
    let pound = if delimit then codes "#" else [] in
    if is_empty t.params
    then t.service ++ pound
    else append_zmq_params (t.service ++ codes "?") true t.params ++ pound
