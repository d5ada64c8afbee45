-- ===== src/Worker/Run/Connected.antt =====
-- What keeps a worker connected: the receiving loop, while the broker accepts its connections.
use opencmw_cpp.Base.{
  ℕ, ◌≡◌, refl, sym, ◌∙◌, subst, Bytes, codes, bytes_eq, Bool, true, false, ◌&&◌, ◌||◌, List, [],
  ◌∷◌, All, All-append, inl, inr, Bool-cases, Option-cases, arith, Option, some, none, Result, ok,
  ◌⊎◌,
}
use opencmw_cpp.Uri.{strict}
use opencmw_cpp.Topic.{Topic, from_mdp_topic}
use opencmw_cpp.Broker.{Message, Command, get, set, disconnect}
use opencmw_cpp.Worker.{
  BasicWorker, send_to_broker, notification, notify_from, notification_handler, handler_send,
}
use opencmw_cpp.Worker.Requests.{process_request}
use opencmw_cpp.Worker.Receive.{
  Poll, connect_to_broker, dealer_command, handle_dealer_message, receive_dealer_message,
  long_frame, subscription_frame, receive_subscription_message, any_matches, forward,
  receive_notification_message, notify_all, receive_messages, is_worker_protocol,
}
use opencmw_cpp.Worker.Run.{receive_all}

-- the topic of a notification can be read
abbrev pub IsNotification : Message → Type 0
IsNotification m = (t : Topic) × (from_mdp_topic strict m.topic ≡ ok t)

-- Both sockets are there, and the notifications that wait have topics that can be read.
pub record IsConnected (w : BasicWorker) : Type 0 where
  pub worker_socket : w.has_worker_socket ≡ true
  pub pub_socket : w.has_pub_socket ≡ true
  pub are_notifications : All IsNotification w.notifications

-- The broker accepts the connections of a round, and threads notify topics that can be read.
pub record IsAccepted (poll : Poll) : Type 0 where
  pub router : poll.router_connects ≡ true
  pub publisher : poll.pub_connects ≡ true
  pub notified : All (λ call. IsNotification call.2) poll.notified

-- A call that gives a result, in a state with the property.
abbrev Gives : Result (BasicWorker × Bool) → Type 0
Gives r = (w' : BasicWorker) × (flag : Bool) × (r ≡ ok (w', flag)) × IsConnected w'

notify_all-IsConnected :
    (calls : List (ℕ × ℕ × Message)) (w : BasicWorker)
    → All (λ call. IsNotification call.2) calls
    → IsConnected w
    → IsConnected (notify_all calls w)
unfolding notify_all notify_from handler_send notification_handler
notify_all-IsConnected [] w h c = c
notify_all-IsConnected ((now, thread, m) ∷ calls) w h c =
    notify_all-IsConnected calls (notify_from now thread m w) h.1 (record {
      worker_socket = c.worker_socket;
      pub_socket = c.pub_socket;
      are_notifications =
          All-append IsNotification w.notifications (notification m w ∷ []) c.are_notifications
            (h.0, tt);
    })

pub connect_to_broker-IsConnected :
    (now : ℕ) (router pub_ok : Bool) (w : BasicWorker)
    → router ≡ true
    → pub_ok ≡ true
    → All IsNotification w.notifications
    → IsConnected (connect_to_broker now router pub_ok w).0
      × ((connect_to_broker now router pub_ok w).1 ≡ true)
unfolding connect_to_broker
connect_to_broker-IsConnected now router pub_ok w r p n =
    rw (r, p) (record { worker_socket = refl; pub_socket = refl; are_notifications = n }, refl)

-- what keeps the sockets and the notifications keeps the property
pub keeps_IsConnected :
    (w w' : BasicWorker)
    → w'.has_worker_socket ≡ w.has_worker_socket
    → w'.has_pub_socket ≡ w.has_pub_socket
    → w'.notifications ≡ w.notifications
    → IsConnected w
    → IsConnected w'
keeps_IsConnected w w' e1 e2 e3 h = record {
  worker_socket = e1 ∙ h.worker_socket;
  pub_socket = e2 ∙ h.pub_socket;
  are_notifications = subst (All IsNotification) (sym e3) h.are_notifications;
}

module _ (poll : Poll) (m : Message) (accepted : IsAccepted poll) where
  dealer_command-IsConnected :
      (c : Command) (w : BasicWorker)
      → IsConnected w
      → (w' : BasicWorker) × (dealer_command c poll m w ≡ ok w') × IsConnected w'
  unfolding dealer_command
  dealer_command-IsConnected get w h =
      (send_to_broker (process_request w m) w, refl, keeps_IsConnected w _ refl refl refl h)
  dealer_command-IsConnected set w h =
      (send_to_broker (process_request w m) w, refl, keeps_IsConnected w _ refl refl refl h)
  dealer_command-IsConnected disconnect w h =
      elim (Bool-cases (bytes_eq m.body (codes "broker shutdown"))) [
        | inl e ↦ (
          record w { shutdown_requested = true },
          rw e refl,
          keeps_IsConnected w _ refl refl refl h,
        )
        | inr e ↦ (
          (connect_to_broker poll.now poll.router_connects poll.pub_connects w).0,
          rw e refl,
          (connect_to_broker-IsConnected poll.now poll.router_connects poll.pub_connects w
              accepted.router accepted.publisher h.are_notifications).0,
        )
      ]
  dealer_command-IsConnected c w h = (w, ground arith, h)

  handle_dealer_message-IsConnected :
      (w : BasicWorker)
      → IsConnected w
      → (w' : BasicWorker) × (handle_dealer_message poll m w ≡ ok w') × IsConnected w'
  unfolding handle_dealer_message
  handle_dealer_message-IsConnected w h = elim (Bool-cases (is_worker_protocol m.protocol)) [
    | inl e ↦ rw e (dealer_command-IsConnected m.command _ (keeps_IsConnected w _ refl refl refl h))
    | inr e ↦ rw e (_, refl, keeps_IsConnected w _ refl refl refl h)
  ]

  receive_dealer_message-IsConnected :
      (w : BasicWorker)
      → poll.dealer ≡ some m
      → IsConnected w
      → Gives (receive_dealer_message poll w)
  unfolding receive_dealer_message
  receive_dealer_message-IsConnected w e h =
      let (w', handled, connected) = handle_dealer_message-IsConnected w h in
      (w', true, ground (arith, e, h.worker_socket, handled), connected)

module _ (poll : Poll) (accepted : IsAccepted poll) where
  receive_dealer_message-Gives :
      (w : BasicWorker) → IsConnected w → Gives (receive_dealer_message poll w)
  unfolding receive_dealer_message
  receive_dealer_message-Gives w h = elim (Option-cases poll.dealer) [
    | inl e ↦ (w, false, ground (arith, e, h.worker_socket), h)
    | inr (m, e) ↦ receive_dealer_message-IsConnected poll m accepted w e h
  ]

subscription_frame-IsConnected :
    (first : ℕ) (topic : Bytes) (w : BasicWorker)
    → IsConnected w
    → IsConnected (subscription_frame first topic w).0
unfolding subscription_frame
subscription_frame-IsConnected first topic w h =
    keeps_IsConnected w _ (ground arith) (ground arith) (ground arith) h

long_frame-IsConnected :
    (frame : Bytes) (w : BasicWorker) → IsConnected w → IsConnected (long_frame frame w).0
unfolding long_frame
long_frame-IsConnected [] w h = h
long_frame-IsConnected (c ∷ []) w h = h
long_frame-IsConnected (c ∷ d ∷ s) w h = subscription_frame-IsConnected c (d ∷ s) w h

receive_subscription_message-Gives :
    (frame : Option Bytes) (w : BasicWorker)
    → IsConnected w
    → Gives (receive_subscription_message frame w)
unfolding receive_subscription_message
receive_subscription_message-Gives none w h = (w, false, ground (arith, h.pub_socket), h)
receive_subscription_message-Gives (some frame) w h = (
  (long_frame frame w).0,
  (long_frame frame w).1,
  ground (arith, h.pub_socket),
  long_frame-IsConnected frame w h,
)

-- what is left of the notifications
notifications-left :
    (m : Message) (rest : List Message) (w : BasicWorker)
    → w.notifications ≡ m ∷ rest
    → IsConnected w
    → IsNotification m × IsConnected (record w { notifications = rest })
notifications-left m rest w e h =
    let all = subst (All IsNotification) e h.are_notifications in
    (
      all.0,
      record {
        worker_socket = h.worker_socket;
        pub_socket = h.pub_socket;
        are_notifications = all.1;
      },
    )

forward-IsConnected :
    (m : Message) (w : BasicWorker)
    → IsNotification m
    → IsConnected w
    → (w' : BasicWorker) × (forward m w ≡ ok w') × IsConnected w'
unfolding forward
forward-IsConnected m w (t, e) h =
    elim (Bool-cases (w.has_worker_socket && any_matches w.filters t w.active_subscriptions)) [
      | inl k ↦ (send_to_broker m w, rw (e, k) refl, keeps_IsConnected w _ refl refl refl h)
      | inr k ↦ (w, rw (e, k) refl, h)
    ]

List-cases {ℓ} :
    {A : Type ℓ} (xs : List A) → (xs ≡ []) ⊎ ((x : A) × (rest : List A) × (xs ≡ x ∷ rest))
List-cases [] = inl refl
List-cases (x ∷ xs) = inr (x, xs, refl)

receive_notification_message-Gives :
    (w : BasicWorker) → IsConnected w → Gives (receive_notification_message w)
unfolding receive_notification_message
receive_notification_message-Gives w h = elim (List-cases w.notifications) [
  | inl e ↦ (w, false, ground (arith, e), h)
  | inr (m, rest, e) ↦
      let (readable, left) = notifications-left m rest w e h in
      let (w', forwarded, connected) =
        forward-IsConnected m (record w { notifications = rest }) readable left in
      (w', true, ground (arith, e, forwarded), connected)
]

receive_messages-Gives :
    (poll : Poll) (w : BasicWorker)
    → IsAccepted poll
    → IsConnected w
    → Gives (receive_messages poll w)
unfolding receive_messages
receive_messages-Gives poll w a h =
    let (w1, b1, e1, c1) =
      receive_dealer_message-Gives poll a (notify_all poll.notified w)
        (notify_all-IsConnected poll.notified w a.notified h) in
    let (w2, b2, e2, c2) = receive_subscription_message-Gives poll.frame w1 c1 in
    let (w3, b3, e3, c3) = receive_notification_message-Gives w2 c2 in
    (w3, b1 || b2 || b3, rw (e1, e2, e3) refl, c3)

pub receive_all-IsConnected :
    (polls : List Poll) (w : BasicWorker)
    → All IsAccepted polls
    → IsConnected w
    → (w' : BasicWorker) × (receive_all polls w ≡ ok w') × IsConnected w'
unfolding receive_all
receive_all-IsConnected [] w a h = (w, refl, h)
receive_all-IsConnected (poll ∷ polls) w a h =
    let (w1, more, e, c) = receive_messages-Gives poll w a.0 h in
    elim (Bool-cases more) [
      | inl yes_more ↦
          let (w', e', c') = receive_all-IsConnected polls w1 a.1 c in (w', rw (e, yes_more) e', c')
      | inr no_more ↦ (w1, rw (e, no_more) refl, c)
    ]
