-- ===== src/Worker/Receive.antt =====
-- What the worker does with what its sockets receive. A read of a socket that is not there has no
-- defined behaviour. Assertions are not compiled in.
pub mod Mirror
pub mod Follow
pub mod Forward
use opencmw_cpp.Base.{
  ℕ, ◌+◌, Bytes, codes, bytes_eq, ◌==◌, Bool, true, false, not, ◌&&◌, ◌||◌, List, [], ◌∷◌, ◌++◌,
  Option, none, some, add_key, remove_key, Result, ok, err, ◌>>=◌, ◌>>◌, guard, undefined,
  if◌then◌else◌,
}
use opencmw_cpp.Uri.{strict}
use opencmw_cpp.Topic.{Topic, from_zmq_topic, from_mdp_topic}
use opencmw_cpp.Matcher.{Filters, matches}
use opencmw_cpp.Broker.{
  Message, Command, Protocol, client_protocol, worker_protocol, other_protocol, invalid, get, set,
  partial, final, ready, disconnect, subscribe, unsubscribe, notify, heartbeat, topic_discrete,
}
use opencmw_cpp.Worker.{BasicWorker, create_message, send_to_broker, notify_from}
use opencmw_cpp.Worker.Requests.{process_request}

-- `connectToBroker`, at a time and with what the two calls of zmq_connect return
unfoldable pub connect_to_broker : ℕ → Bool → Bool → BasicWorker → BasicWorker × Bool
connect_to_broker now router_connects pub_connects w =
    if not router_connects
    then (record w { has_worker_socket = true; has_pub_socket = false }, false)
    else if not pub_connects
    then (record w { has_worker_socket = false; has_pub_socket = true }, false)
    else (
      send_to_broker (record (create_message ready w) { body = w.description })
          (record w {
            has_worker_socket = true;
            has_pub_socket = true;
            liveness = w.settings.heartbeat_liveness;
            heartbeat_at = now + w.settings.heartbeat_interval;
          }),
      true,
    )

-- What one round of the receiving loop meets: what threads notified since the last one, each with
-- its time and thread, what the two sockets hold, the time, and what zmq_connect would return.
pub record Poll : Type 0 where
  pub notified : List (ℕ × ℕ × Message)
  pub dealer : Option Message
  pub frame : Option Bytes
  pub now : ℕ
  pub router_connects : Bool
  pub pub_connects : Bool

-- The switch over the command. The result of `connectToBroker` is not looked at.
unfoldable pub dealer_command : Command → Poll → Message → BasicWorker → Result BasicWorker
unfolding connect_to_broker
dealer_command get poll m w = ok (send_to_broker (process_request w m) w)
dealer_command set poll m w = ok (send_to_broker (process_request w m) w)
dealer_command disconnect poll m w = ok (
    if bytes_eq m.body (codes "broker shutdown")
    then record w { shutdown_requested = true }
    else (connect_to_broker poll.now poll.router_connects poll.pub_connects w).0)
dealer_command heartbeat poll m w = ok w
dealer_command invalid poll m w = ok w
dealer_command partial poll m w = ok w
dealer_command final poll m w = ok w
dealer_command ready poll m w = ok w
dealer_command subscribe poll m w = ok w
dealer_command unsubscribe poll m w = ok w
dealer_command notify poll m w = ok w

abbrev pub is_worker_protocol : Protocol → Bool
is_worker_protocol worker_protocol = true
is_worker_protocol client_protocol = false
is_worker_protocol other_protocol = false

-- `handleDealerMessage`
unfoldable pub handle_dealer_message : Poll → Message → BasicWorker → Result BasicWorker
unfolding dealer_command
handle_dealer_message poll m w =
    let renewed = record w { liveness = w.settings.heartbeat_liveness } in
    if is_worker_protocol m.protocol then dealer_command m.command poll m renewed else ok renewed

-- `receiveDealerMessage`: the new state, and whether there was a message
unfoldable pub receive_dealer_message : Poll → BasicWorker → Result (BasicWorker × Bool)
unfolding handle_dealer_message
receive_dealer_message poll w = guard w.has_worker_socket undefined >> elim poll.dealer [
  | none ↦ ok (w, false)
  | some m ↦ handle_dealer_message poll m w >>= (λ w'. ok (w', true))
]

-- a subscription, or its end, by the first byte of the frame
unfoldable pub subscription_frame : ℕ → Bytes → BasicWorker → BasicWorker × Bool
subscription_frame first topic w =
    if not (first == 0 || first == 1) then (w, true) else elim (from_zmq_topic topic) [
      | err e ↦ (w, false)
      | ok t ↦
          (if not (bytes_eq t.service w.name)
            then (w, true)
            else if first == 1
            then (
              record w { active_subscriptions = add_key topic_discrete t w.active_subscriptions },
              true,
            )
            else (
              record w {
                active_subscriptions = remove_key topic_discrete t w.active_subscriptions;
              },
              true,
            ))
    ]

-- the frame, which has two bytes at least
unfoldable pub long_frame : Bytes → BasicWorker → BasicWorker × Bool
unfolding subscription_frame
long_frame [] w = (w, true)
long_frame (c ∷ []) w = (w, true)
long_frame (c ∷ d ∷ s) w = subscription_frame c (d ∷ s) w

-- `receiveSubscriptionMessage`
unfoldable pub receive_subscription_message :
    Option Bytes → BasicWorker → Result (BasicWorker × Bool)
unfolding long_frame
receive_subscription_message frame w =
    guard w.has_pub_socket undefined
    >> elim frame [ none ↦ ok (w, false) | some data_read ↦ ok (long_frame data_read w) ]

-- `std::any_of` over the active subscriptions
unfoldable pub any_matches : Filters → Topic → List Topic → Bool
any_matches filters t [] = false
any_matches filters t (s ∷ active) =
    let rest = any_matches filters t active in if matches filters t s then true else rest

-- a notification goes to the broker if a subscription matches it
unfoldable pub forward : Message → BasicWorker → Result BasicWorker
unfolding any_matches
forward m w = from_mdp_topic strict m.topic >>= (λ t. ok (
    if w.has_worker_socket && any_matches w.filters t w.active_subscriptions
    then send_to_broker m w
    else w))

-- `receiveNotificationMessage`: the oldest notification of the listener socket
unfoldable pub receive_notification_message : BasicWorker → Result (BasicWorker × Bool)
unfolding forward
receive_notification_message w = elim w.notifications [
  | [] ↦ ok (w, false)
  | m ∷ rest ↦ forward m (record w { notifications = rest }) >>= (λ w'. ok (w', true))
]

-- the calls of `notify`
unfoldable pub notify_all : List (ℕ × ℕ × Message) → BasicWorker → BasicWorker
notify_all [] w = w
notify_all ((now, thread, m) ∷ calls) w = notify_all calls (notify_from now thread m w)

-- one round of the receiving loop of `run`
unfoldable pub receive_messages : Poll → BasicWorker → Result (BasicWorker × Bool)
unfolding notify_all receive_dealer_message receive_subscription_message
    receive_notification_message
receive_messages poll w = do
  (w1, dealt) ← receive_dealer_message poll (notify_all poll.notified w)
  (w2, subscribed) ← receive_subscription_message poll.frame w1
  (w3, notified) ← receive_notification_message w2
  ok (w3, dealt || subscribed || notified)
