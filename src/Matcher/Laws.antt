-- ===== src/Matcher/Laws.antt =====
-- Which notifications reach which subscriptions.
use opencmw_cpp.Base.{
  ◌≡◌, refl, Bytes, bytes_discrete, bytes_eq, bytes_eq_refl, eq_of_bytes_eq, Bool, true, [], ◌∷◌,
  Option, none, some, find, all, All, is_empty, arith, Option-cases, &&-left, &&-right,
  if◌then◌else◌, ◌↔◌, inl, inr,
}
use opencmw_cpp.Uri.Query.{Params}
use opencmw_cpp.Topic.{Topic}
use opencmw_cpp.Matcher.{Filter, Filters, value_or_empty, does_satisfy, test_queries, matches}

-- What a subscription to one parameter asks of a notification.
pub data Satisfies (filters : Filters) (notification : Params) (key : Bytes) (value : Option Bytes)
    : Type 0 where
  unfiltered : find bytes_discrete key filters ≡ none → Satisfies filters notification key value
  accepted :
      (f : Filter) (notified : Option Bytes)
      → find bytes_discrete key filters ≡ some f
      → find bytes_discrete key notification ≡ some notified
      → f (value_or_empty notified) (value_or_empty value) ≡ true
      → Satisfies filters notification key value

Satisfies-of :
    (filters : Filters) (notification : Params) (key : Bytes) (value : Option Bytes)
    → does_satisfy filters notification (key, value) ≡ true
    → Satisfies filters notification key value
unfolding does_satisfy
Satisfies-of filters notification key value h =
    elim (Option-cases (find bytes_discrete key filters)) [
      | inl e ↦ unfiltered e
      | inr (f, e) ↦ elim (Option-cases (find bytes_discrete key notification)) [
        | inl k ↦ absurd (ground (arith, h, e, k))
        | inr (notified, k) ↦ accepted f notified e k (ground (arith, h, e, k))
      ]
    ]

does_satisfy-of :
    (filters : Filters) (notification : Params) (key : Bytes) (value : Option Bytes)
    → Satisfies filters notification key value
    → does_satisfy filters notification (key, value) ≡ true
unfolding does_satisfy
does_satisfy-of filters notification key value (unfiltered e) = rw (e, does_satisfy)
does_satisfy-of filters notification key value (accepted f notified e k h) =
    rw (e, does_satisfy, k) h

all_satisfied :
    (filters : Filters) (notification params : Params)
    → all (does_satisfy filters notification) params ≡ true
    → All (λ p. Satisfies filters notification p.0 p.1) params
all_satisfied filters notification [] h = tt
all_satisfied filters notification ((k, v) ∷ params) h = (
  Satisfies-of filters notification k v (&&-left _ _ h),
  all_satisfied filters notification params
      (&&-right (does_satisfy filters notification (k, v)) _ h),
)

satisfied_all :
    (filters : Filters) (notification params : Params)
    → All (λ p. Satisfies filters notification p.0 p.1) params
    → all (does_satisfy filters notification) params ≡ true
satisfied_all filters notification [] h = refl
satisfied_all filters notification ((k, v) ∷ params) h =
    rw (does_satisfy-of filters notification k v h.0)
      (satisfied_all filters notification params h.1)

all_of_empty :
    (p : Bytes × Option Bytes → Bool) (params : Params)
    → (if is_empty params then true else all p params) ≡ all p params
all_of_empty p [] = refl
all_of_empty p (x ∷ params) = refl

-- without parameters the test is passed as well
test_queries-all :
    (filters : Filters) (notified subscriber : Topic)
    → test_queries filters notified subscriber
      ≡ all (does_satisfy filters notified.params) subscriber.params
unfolding test_queries
test_queries-all filters notified subscriber =
    all_of_empty (does_satisfy filters notified.params) subscriber.params

-- A notification matches a subscription exactly if it is of the same service and, for each
-- parameter of the subscription that has a filter, has that parameter with a value that the filter
-- accepts.
pub matches_iff :
    (filters : Filters) (notified subscriber : Topic)
    → (matches filters notified subscriber ≡ true) ↔ (
        (notified.service ≡ subscriber.service)
        × All (λ p. Satisfies filters notified.params p.0 p.1) subscriber.params)
unfolding matches
matches_iff filters notified subscriber = rw (test_queries-all filters notified subscriber) (
  λ h. (
    eq_of_bytes_eq notified.service subscriber.service (&&-left _ _ h),
    all_satisfied filters notified.params subscriber.params
        (&&-right (bytes_eq notified.service subscriber.service) _ h),
  ),
  λ h.
      rw (h.0, bytes_eq_refl subscriber.service)
        (satisfied_all filters notified.params subscriber.params h.1),
)
