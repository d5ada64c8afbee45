-- ===== src/Broker/Notifications/Laws.antt =====
-- What a notification sends on the publishing socket.
use opencmw_cpp.Base.{
  ℕ, ◌≡◌, refl, ap, ◌∙◌, Bytes, bytes_eq, Bool, true, false, List, [], ◌∷◌, ◌++◌, inl, inr,
  Bool-cases, ok, if◌then◌else◌,
}
use opencmw_cpp.Uri.{strict}
use opencmw_cpp.Topic.{Topic, to_zmq_topic, from_mdp_topic}
use opencmw_cpp.Matcher.{Filters, matches}
use opencmw_cpp.Broker.{
  Broker, Message, Socket, Effect, send, set_filter, unset_filter, rest_response, rest_notification,
  router_socket, pub_socket, sub_socket, dns_socket, rest_source_id,
}
use opencmw_cpp.Broker.Subscriptions.{subscribers}
use opencmw_cpp.Broker.Notifications.{notify_clients, notify_topics, notify_subscribers}

-- the names under which messages were sent on the publishing socket
abbrev published_by : Socket → Message → List Bytes → List Bytes
published_by pub_socket m names = m.source_id ∷ names
published_by router_socket m names = names
published_by sub_socket m names = names
published_by dns_socket m names = names

abbrev pub published : List Effect → List Bytes
published [] = []
published (send s m ∷ effects) = published_by s m (published effects)
published (set_filter t ∷ effects) = published effects
published (unset_filter t ∷ effects) = published effects
published (rest_response m ∷ effects) = published effects
published (rest_notification t m ∷ effects) = published effects

-- the topics that a notification matches, by the names of their filters
abbrev pub matching_names : Filters → Topic → List (Topic × ℕ) → List Bytes
matching_names filters notification [] = []
matching_names filters notification ((t, n) ∷ topics) =
    let rest = matching_names filters notification topics in
    if matches filters notification t then to_zmq_topic true t ∷ rest else rest

published-append : (xs ys : List Effect) → published (xs ++ ys) ≡ published xs ++ published ys
published-append [] ys = refl
published-append (send pub_socket m ∷ xs) ys =
    ap (λ (names : List Bytes). m.source_id ∷ names) (published-append xs ys)
published-append (send router_socket m ∷ xs) ys = published-append xs ys
published-append (send sub_socket m ∷ xs) ys = published-append xs ys
published-append (send dns_socket m ∷ xs) ys = published-append xs ys
published-append (set_filter t ∷ xs) ys = published-append xs ys
published-append (unset_filter t ∷ xs) ys = published-append xs ys
published-append (rest_response m ∷ xs) ys = published-append xs ys
published-append (rest_notification t m ∷ xs) ys = published-append xs ys

published-notify_clients :
    (rest : Bool) (t : Topic) (m : Message) (ids : List Bytes)
    → published (notify_clients rest t m ids) ≡ []
unfolding notify_clients
published-notify_clients rest t m [] = refl
published-notify_clients false t m (id ∷ ids) = elim (Bool-cases (bytes_eq id rest_source_id)) [
  | inl h ↦ rw h (published-notify_clients false t m ids)
  | inr h ↦ rw h (published-notify_clients false t m ids)
]
published-notify_clients true t m (id ∷ ids) = elim (Bool-cases (bytes_eq id rest_source_id)) [
  | inl h ↦ rw h (published-notify_clients true t m ids)
  | inr h ↦ rw h (published-notify_clients true t m ids)
]

published-notify_topics :
    (b : Broker) (notification : Topic) (m : Message) (topics : List (Topic × ℕ))
    → published (notify_topics b notification m topics)
      ≡ matching_names b.filters notification topics
unfolding notify_topics
published-notify_topics b notification m [] = refl
published-notify_topics b notification m ((t, n) ∷ topics) =
    elim (Bool-cases (matches b.filters notification t)) [
      | inl h ↦ rw (
        h,
        published-append (notify_clients b.rest_server t m (subscribers t b))
            (notify_topics b notification m topics),
        published-notify_clients b.rest_server t m (subscribers t b),
        published-notify_topics b notification m topics,
      )
      | inr h ↦ rw h (published-notify_topics b notification m topics)
    ]

-- A notification of a topic that can be read is published once for each topic that is subscribed to
-- and that it matches, under the name that the topic's filter has, and not for any other.
pub published-notify_subscribers :
    (m : Message) (b : Broker) (notification : Topic)
    → from_mdp_topic strict m.topic ≡ ok notification
    → published (notify_subscribers m b).sent
      ≡ published b.sent ++ matching_names b.filters notification b.subscribed_topics
unfolding notify_subscribers
published-notify_subscribers m b notification e =
    rw (e, notify_subscribers)
      (published-append b.sent (notify_topics b notification m b.subscribed_topics)
        ∙ ap (λ (names : List Bytes). published b.sent ++ names)
            (published-notify_topics b notification m b.subscribed_topics))
