-- ===== src/Worker/Receive/Forward.antt =====
-- Which notifications the worker forwards, and which of them the broker publishes.
use opencmw_cpp.Base.{
  ℕ, ◌≡◌, ◌≢◌, refl, sym, ap, ◌∙◌, Bytes, bytes_eq, bytes_eq_refl, eq_of_bytes_eq, ltb, true, false,
  List, [], ◌∷◌, ◌++◌, inl, inr, Bool-cases, Option-cases, has_key, arith, find, contains,
  append-nil, ok, ◌⊎◌, &&-left,
}
use opencmw_cpp.Uri.{strict}
use opencmw_cpp.Topic.{Topic, from_mdp_topic}
use opencmw_cpp.Matcher.{Filters, matches}
use opencmw_cpp.Broker.{Broker, Message, topic_discrete}
use opencmw_cpp.Broker.Subscriptions.{count}
use opencmw_cpp.Broker.Subscriptions.Laws.{AreCounted, are_counted}
use opencmw_cpp.Broker.Notifications.{notify_subscribers}
use opencmw_cpp.Broker.Notifications.Laws.{published, matching_names, published-notify_subscribers}
use opencmw_cpp.Worker.{BasicWorker, send_to_broker}
use opencmw_cpp.Worker.Receive.{any_matches, forward}
use opencmw_cpp.Worker.Receive.Mirror.{Mirrors}

-- a topic of a set that a notification matches
abbrev IsMatchedBy : Filters → Topic → List Topic → Type 0
IsMatchedBy filters t active =
    (s : Topic) × (has_key topic_discrete s active ≡ true) × (matches filters t s ≡ true)

any_matches-found :
    (filters : Filters) (t : Topic) (active : List Topic)
    → any_matches filters t active ≡ true
    → IsMatchedBy filters t active
unfolding any_matches has_key
any_matches-found filters t [] h = cc
any_matches-found filters t (s ∷ active) h = elim (Bool-cases (matches filters t s)) [
  | inl m ↦ (s, ground arith, m)
  | inr n ↦
      let (s', k, m) = any_matches-found filters t active (ground (arith, n)) in
      (s', ground (arith, k), m)
]

any_matches-of :
    (filters : Filters) (t : Topic) (active : List Topic) (s : Topic)
    → has_key topic_discrete s active ≡ true
    → matches filters t s ≡ true
    → any_matches filters t active ≡ true
unfolding any_matches has_key
any_matches-of filters t [] s k m = cc
any_matches-of filters t (s' ∷ active) s k m =
    ground (arith, any_matches-of filters t active s, ap (matches filters t))

-- a topic that is counted and that a notification matches has its name among the published ones
matching_names-found :
    (filters : Filters) (t : Topic) (topics : List (Topic × ℕ))
    → matching_names filters t topics ≢ []
    → (s : Topic) × (contains topic_discrete s topics ≡ true) × (matches filters t s ≡ true)
unfolding find contains
matching_names-found filters t [] h = absurd (h refl)
matching_names-found filters t ((s, n) ∷ topics) h = elim (Bool-cases (matches filters t s)) [
  | inl m ↦ (s, ground arith, m)
  | inr no_match ↦
      let (s', k, m) = matching_names-found filters t topics (λ e. h (rw no_match e)) in
      (s', ground (arith, k), m)
]

matching_names-of :
    (filters : Filters) (t : Topic) (topics : List (Topic × ℕ)) (s : Topic)
    → contains topic_discrete s topics ≡ true
    → matches filters t s ≡ true
    → matching_names filters t topics ≢ []
unfolding find contains
matching_names-of filters t [] s k m = cc
matching_names-of filters t ((s', n) ∷ topics) s k m = elim (Bool-cases (matches filters t s')) [
  | inl h ↦ rw h (λ e. cc)
  | inr h ↦
      rw h (matching_names-of filters t topics s (ground (arith, h, ap (matches filters t))) m)
]

counted-contains :
    (b : Broker) (s : Topic)
    → AreCounted b
    → ltb 0 (count s b) ≡ contains topic_discrete s b.subscribed_topics
unfolding contains
counted-contains b s (are_counted h) =
    elim (Option-cases (find topic_discrete s b.subscribed_topics)) [
      | inl e ↦ rw (contains, e) refl
      | inr (n, e) ↦ rw (contains, e) (ground (arith, h s n e))
    ]

nil_or_ne : (names : List Bytes) → (names ≡ []) ⊎ (names ≢ [])
nil_or_ne [] = inl refl
nil_or_ne (x ∷ names) = inr (λ e. cc)

matched_service :
    (filters : Filters) (t s : Topic) → matches filters t s ≡ true → t.service ≡ s.service
unfolding matches
matched_service filters t s m = eq_of_bytes_eq t.service s.service (&&-left _ _ m)

own_service :
    (filters : Filters) (t s : Topic) (name : Bytes)
    → t.service ≡ name
    → matches filters t s ≡ true
    → bytes_eq s.service name ≡ true
own_service filters t s name e m =
    rw (sym e, matched_service filters t s m) (bytes_eq_refl s.service)

forward_of_match :
    (m : Message) (w : BasicWorker) (t : Topic)
    → from_mdp_topic strict m.topic ≡ ok t
    → w.has_worker_socket ≡ true
    → any_matches w.filters t w.active_subscriptions ≡ true
    → forward m w ≡ ok (send_to_broker m w)
unfolding forward
forward_of_match m w t e c h = ground (arith, e, c, h)

forward_of_none :
    (m : Message) (w : BasicWorker) (t : Topic)
    → from_mdp_topic strict m.topic ≡ ok t
    → any_matches w.filters t w.active_subscriptions ≡ false
    → forward m w ≡ ok w
unfolding forward
forward_of_none m w t e h = ground (arith, e, h)

-- A notification goes to the broker, which publishes it for some topic, or it is kept back, and the
-- broker would not have published it.
abbrev pub IsForwardedFor : Message → Message → Topic → BasicWorker → Broker → Type 0
IsForwardedFor m m' t w b =
    ((forward m w ≡ ok (send_to_broker m w))
      × (names : List Bytes) × (names ≢ [])
      × (published (notify_subscribers m' b).sent ≡ published b.sent ++ names))
    ⊎ ((forward m w ≡ ok w) × (published (notify_subscribers m' b).sent ≡ published b.sent))

module _ (m m' : Message) (w : BasicWorker) (b : Broker) (t : Topic)
    (is_topic : from_mdp_topic strict m.topic ≡ ok t) (same_topic : m'.topic ≡ m.topic)
    (own : t.service ≡ w.name) (connected : w.has_worker_socket ≡ true)
    (same_filters : w.filters ≡ b.filters) (counted : AreCounted b) (mirrors : Mirrors b w) where
  publishes :
      published (notify_subscribers m' b).sent
      ≡ published b.sent ++ matching_names b.filters t b.subscribed_topics
  publishes = published-notify_subscribers m' b t (ap (from_mdp_topic strict) same_topic ∙ is_topic)

  match_is_published :
      any_matches w.filters t w.active_subscriptions ≡ true
      → matching_names b.filters t b.subscribed_topics ≢ []
  match_is_published h =
      let (s, k, found) = any_matches-found w.filters t w.active_subscriptions h in
      matching_names-of b.filters t b.subscribed_topics s
        (sym (counted-contains b s counted)
          ∙ sym (mirrors.mirrored s (own_service w.filters t s w.name own found))
          ∙ k)
        (ap (λ f. matches f t s) (sym same_filters) ∙ found)

  published_is_match :
      matching_names b.filters t b.subscribed_topics ≢ []
      → any_matches w.filters t w.active_subscriptions ≡ true
  published_is_match h =
      let (s, k, found) = matching_names-found b.filters t b.subscribed_topics h in
      let found' = ap (λ f. matches f t s) same_filters ∙ found in
      any_matches-of w.filters t w.active_subscriptions s
        (mirrors.mirrored s (own_service w.filters t s w.name own found')
          ∙ counted-contains b s counted
          ∙ k)
        found'

  unmatched_names :
      any_matches w.filters t w.active_subscriptions ≡ false
      → matching_names b.filters t b.subscribed_topics ≡ []
  unmatched_names h = elim (nil_or_ne (matching_names b.filters t b.subscribed_topics)) [
    | inl none_left ↦ none_left
    | inr some_left ↦ absurd (cc (published_is_match some_left))
  ]

  -- If the worker is connected and has the topics of its service to which the broker counts
  -- subscriptions, and both have the same filters, then a notification of the worker's service
  -- with a topic that can be read either is forwarded, and the broker publishes the message that it makes of it for some topic, or
  -- is kept back, and the broker would not have published it.
  pub forward-IsForwardedFor : IsForwardedFor m m' t w b
  forward-IsForwardedFor = elim (Bool-cases (any_matches w.filters t w.active_subscriptions)) [
    | inl h ↦ inl (
      forward_of_match m w t is_topic connected h,
      matching_names b.filters t b.subscribed_topics,
      match_is_published h,
      publishes,
    )
    | inr h ↦ inr (
      forward_of_none m w t is_topic h,
      publishes
          ∙ ap (λ names. published b.sent ++ names) (unmatched_names h)
          ∙ append-nil (published b.sent),
    )
  ]
