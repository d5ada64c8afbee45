-- ===== src/Broker/Subscriptions.antt =====
-- The subscriptions of the broker: how many there are to a topic, and which clients hold them.
pub mod Laws
pub mod Holders
use opencmw_cpp.Base.{
  ℕ, suc, ◌-◌, Bytes, codes, Bool, true, false, not, ◌||◌, ◌==◌, ltb, List, [], ◌∷◌, Option, none,
  some, find, try_emplace, modify, erase, add_key, remove_key, is_empty, length, bytes_discrete,
  Result, ok, err, if◌then◌else◌,
}
use opencmw_cpp.Uri.{strict}
use opencmw_cpp.Topic.{Topic, to_zmq_topic, from_zmq_topic, from_mdp_topic}
use opencmw_cpp.Broker.{Broker, Message, Effect, set_filter, unset_filter, topic_discrete, emit}

abbrev pub count_or_zero : Option ℕ → ℕ
count_or_zero none = 0
count_or_zero (some n) = n

-- how many subscriptions to a topic are counted
abbrev pub count : Topic → Broker → ℕ
count t b = count_or_zero (find topic_discrete t b.subscribed_topics)

-- `subscribe`
unfoldable pub subscribe : Topic → Broker → Broker
subscribe t b =
    let topics = modify topic_discrete t suc (try_emplace topic_discrete t 0 b.subscribed_topics) in
    let counted = record b { subscribed_topics = topics } in
    if count t counted == 1 then emit (set_filter (to_zmq_topic true t)) counted else counted

-- `unsubscribe`
unfoldable pub unsubscribe : Topic → Broker → Broker
unsubscribe t b = elim (find topic_discrete t b.subscribed_topics) [
  | none ↦ b
  | some n ↦
      if n - 1 == 0
      then emit (unset_filter (to_zmq_topic true t))
          (record b { subscribed_topics = erase topic_discrete t b.subscribed_topics })
      else record b { subscribed_topics = modify topic_discrete t (λ k. k - 1) b.subscribed_topics }
]

abbrev pub clients_or_none : Option (List Bytes) → List Bytes
clients_or_none none = []
clients_or_none (some ids) = ids

-- the clients that hold a subscription to a topic
abbrev pub subscribers : Topic → Broker → List Bytes
subscribers t b = clients_or_none (find topic_discrete t b.subscribed_clients_by_topic)

-- A client is entered among those of a topic.
unfoldable pub add_subscriber : Topic → Bytes → Broker → Broker
add_subscriber t id b = record b {
  subscribed_clients_by_topic =
      modify topic_discrete t (add_key bytes_discrete id)
        (try_emplace topic_discrete t [] b.subscribed_clients_by_topic);
}

-- A client is removed, and with the last client the topic.
unfoldable pub remove_subscriber : Topic → Bytes → Broker → Broker
remove_subscriber t id b = elim (find topic_discrete t b.subscribed_clients_by_topic) [
  | none ↦ b
  | some ids ↦
      let left = remove_key bytes_discrete id ids in
      record b {
        subscribed_clients_by_topic =
            if is_empty left
            then erase topic_discrete t b.subscribed_clients_by_topic
            else modify topic_discrete t (λ k. left) b.subscribed_clients_by_topic;
      }
]

-- The commands Subscribe and Unsubscribe of a client. A topic that is malformed is ignored.
unfoldable pub client_subscribes : Message → Broker → Broker × Bool
unfolding subscribe add_subscriber
client_subscribes m b = elim (from_mdp_topic strict m.topic) [
  | err e ↦ (b, false)
  | ok t ↦ (add_subscriber t m.source_id (subscribe t b), true)
]

unfoldable pub client_unsubscribes : Message → Broker → Broker × Bool
unfolding unsubscribe remove_subscriber
client_unsubscribes m b = elim (from_mdp_topic strict m.topic) [
  | err e ↦ (b, false)
  | ok t ↦ (remove_subscriber t m.source_id (unsubscribe t b), true)
]

-- The frame of the XPUB socket, by its first byte: the subscription or its end.
unfoldable pub pub_frame : ℕ → Bytes → Broker → Broker × Bool
unfolding subscribe unsubscribe
pub_frame first topic b =
    if not (first == 0 || first == 1) then (b, false) else elim (from_zmq_topic topic) [
      | err e ↦ (b, false)
      | ok t ↦ (if first == 1 then subscribe t b else unsubscribe t b, true)
    ]

-- `receivePubMessage` on the frame that the socket gave
unfoldable pub receive_pub_message : Bytes → Broker → Broker × Bool
unfolding pub_frame
receive_pub_message [] b = (b, false)
receive_pub_message (c ∷ []) b = (b, false)
receive_pub_message (c ∷ d ∷ s) b = pub_frame c (d ∷ s) b
