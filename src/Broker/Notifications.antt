-- ===== src/Broker/Notifications.antt =====
-- Notifications of workers to the subscriptions that they match.
pub mod Laws
use opencmw_cpp.Base.{ℕ, Bytes, bytes_eq, Bool, true, List, [], ◌∷◌, ◌++◌, ok, err, if◌then◌else◌}
use opencmw_cpp.Uri.{strict}
use opencmw_cpp.Topic.{Topic, to_zmq_topic, from_mdp_topic}
use opencmw_cpp.Matcher.{matches}
use opencmw_cpp.Broker.{
  Broker, Message, Effect, send, rest_notification, pub_socket, router_socket, rest_source_id,
}
use opencmw_cpp.Broker.Subscriptions.{subscribers}

-- to the clients of one topic: through the REST server, or by the router socket
unfoldable pub notify_clients : Bool → Topic → Message → List Bytes → List Effect
notify_clients rest t m [] = []
notify_clients rest t m (id ∷ ids) =
    let others = notify_clients rest t m ids in
    if bytes_eq id rest_source_id
    then (if rest then rest_notification t m ∷ others else others)
    else send router_socket (record m { source_id = id }) ∷ others

-- the loop over the topics that are subscribed to
unfoldable pub notify_topics : Broker → Topic → Message → List (Topic × ℕ) → List Effect
unfolding notify_clients
notify_topics b notification m [] = []
notify_topics b notification m ((t, n) ∷ topics) =
    let others = notify_topics b notification m topics in
    if matches b.filters notification t
    then send pub_socket (record m { source_id = to_zmq_topic true t })
      ∷ (notify_clients b.rest_server t m (subscribers t b) ++ others)
    else others

-- `dispatchMessageToMatchingSubscribers`. A topic that is malformed is ignored.
unfoldable pub notify_subscribers : Message → Broker → Broker
unfolding notify_topics
notify_subscribers m b = elim (from_mdp_topic strict m.topic) [
  | err e ↦ b
  | ok notification ↦ record b {
    sent = b.sent ++ notify_topics b notification m b.subscribed_topics;
  }
]
