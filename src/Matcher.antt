-- ===== src/Matcher.antt =====
-- src/majordomo/include/majordomo/SubscriptionMatcher.hpp, with the filters of
-- src/core/include/Filters.hpp as functions of the two values.
pub mod Laws
use opencmw_cpp.Base.{
  ℕ, Bytes, bytes_discrete, bytes_eq, Bool, true, false, ◌&&◌, List, [], ◌∷◌, Option, none, some,
  find, try_emplace, is_empty, all, Result, ok, err, if◌then◌else◌,
}
use opencmw_cpp.Uri.Query.{Params}
use opencmw_cpp.Topic.{Topic}

-- `AbstractFilter`: called with the value that is notified and the one that is subscribed to
abbrev pub Filter : Type 0
Filter = Bytes → Bytes → Bool

abbrev pub Filters : Type 0
Filters = List (Bytes × Filter)

-- `DomainFilter<T, MatchFunctor>` for a type that is made from text: what throws does not match.
unfoldable pub domain_filter {ℓ} : {T : Type ℓ} → (Bytes → Result T) → (T → T → Bool) → Filter
domain_filter make matches notified subscribed = elim (make notified) [
  | err e ↦ false
  | ok n ↦ elim (make subscribed) [ err e ↦ false | ok s ↦ matches n s ]
]

-- `DomainFilter<std::string_view>`
unfoldable pub content_type_filter : Filter
content_type_filter = bytes_eq

-- `addFilter`: a filter that is there stays.
unfoldable pub add_filter : Bytes → Filter → Filters → Filters
add_filter key f fs = try_emplace bytes_discrete key f fs

abbrev pub value_or_empty : Option Bytes → Bytes
value_or_empty none = []
value_or_empty (some v) = v

-- the test of one parameter that is subscribed to
unfoldable pub does_satisfy : Filters → Params → Bytes × Option Bytes → Bool
does_satisfy filters notification (key, value) = elim (find bytes_discrete key filters) [
  | none ↦ true
  | some f ↦ elim (find bytes_discrete key notification) [
    | none ↦ false
    | some notified ↦ f (value_or_empty notified) (value_or_empty value)
  ]
]

-- `testQueries`
unfoldable pub test_queries : Filters → Topic → Topic → Bool
unfolding does_satisfy
test_queries filters notified subscriber =
    if is_empty subscriber.params
    then true
    else all (does_satisfy filters notified.params) subscriber.params

-- `operator()`
unfoldable pub matches : Filters → Topic → Topic → Bool
unfolding test_queries
matches filters notified subscriber =
    bytes_eq notified.service subscriber.service && test_queries filters notified subscriber
