-- ===== src/Worker/Run/Laws.antt =====
-- The loop of the worker reads no socket that is not there as long as the broker accepts its
-- connections.
use opencmw_cpp.Base.{
  ◌+◌, ◌==◌, ◌≡◌, refl, ltb, Bool, true, false, not, ◌&&◌, ◌∙◌, all, List, [], ◌∷◌, All, inl, inr,
  Bool-cases, arith, Result, ok, ◌>>=◌, if◌then◌else◌,
}
use opencmw_cpp.Broker.{disconnect, heartbeat}
use opencmw_cpp.Worker.{BasicWorker, create_message, send_to_broker, cleanup_notification_handlers}
use opencmw_cpp.Worker.Run.{
  disconnect_from_broker, Beat, check_liveness, send_heartbeat, Round, run_rounds,
}
use opencmw_cpp.Worker.Run.Connected.{
  IsConnected, IsAccepted, keeps_IsConnected, connect_to_broker-IsConnected,
  receive_all-IsConnected,
}

-- The broker accepts the connections that a check of the heartbeat may ask for.
pub record AcceptsBeat (beat : Beat) : Type 0 where
  pub router : beat.router_connects ≡ true
  pub publisher : beat.pub_connects ≡ true

check_liveness-IsConnected :
    (beat : Beat) (w : BasicWorker)
    → AcceptsBeat beat
    → IsConnected w
    → IsConnected (check_liveness beat w).0 × ((check_liveness beat w).1 ≡ true)
unfolding check_liveness
check_liveness-IsConnected beat w a h = elim (Bool-cases (ltb w.heartbeat_at beat.checked_at)) [
  | inr early ↦ rw early (h, refl)
  | inl due ↦ elim (Bool-cases (w.liveness == 1)) [
    | inl last ↦
        rw (due, last)
          (connect_to_broker-IsConnected beat.connected_at beat.router_connects beat.pub_connects
            (record w { liveness = 0 }) a.router a.publisher h.are_notifications)
    | inr more ↦ rw (due, more) (keeps_IsConnected w _ refl refl refl h, refl)
  ]
]

send_heartbeat-IsConnected :
    (beat : Beat) (w : BasicWorker)
    → IsConnected w
    → (w' : BasicWorker) × (send_heartbeat beat w ≡ ok w') × IsConnected w'
unfolding send_heartbeat cleanup_notification_handlers
send_heartbeat-IsConnected beat w h = elim (Bool-cases (ltb w.heartbeat_at beat.sent_at)) [
  | inr early ↦ (w, rw early refl, h)
  | inl due ↦ (
    cleanup_notification_handlers beat.renewed_at
        (record (send_to_broker (create_message heartbeat w) w) {
          heartbeat_at = beat.renewed_at + w.settings.heartbeat_interval;
        }),
    ground (arith, due, h.worker_socket),
    keeps_IsConnected w _ refl refl refl h,
  )
]

-- The broker accepts every connection in a round, and every topic that is notified can be read.
abbrev pub AcceptsRound : Round → Type 0
AcceptsRound round = All IsAccepted round.polls × AcceptsBeat round.beat

-- behind `disconnect`
abbrev pub IsDisconnected : BasicWorker → Type 0
IsDisconnected w = (w.has_worker_socket ≡ false) × (w.has_pub_socket ≡ false)

disconnect_from_broker-ok :
    (w : BasicWorker)
    → IsConnected w
    → (w' : BasicWorker) × (disconnect_from_broker w ≡ ok w')
      × IsDisconnected w'
      × (w'.shutdown_requested ≡ w.shutdown_requested)
unfolding disconnect_from_broker
disconnect_from_broker-ok w h = (
  record (send_to_broker (create_message disconnect w) w) {
    has_worker_socket = false;
    has_pub_socket = false;
  },
  ground (arith, h.worker_socket),
  (refl, refl),
  refl,
)

-- While the loop goes on, the worker is connected and no shutdown is requested. Where it has ended,
-- the worker is disconnected, and a shutdown was requested unless a poll failed.
abbrev pub IsLeft : List Round → Bool → BasicWorker → Type 0
IsLeft rounds true w = IsConnected w × (w.shutdown_requested ≡ false)
IsLeft rounds false w =
    IsDisconnected w
    × (all (λ (round : Round). round.poll_is_valid) rounds ≡ true → w.shutdown_requested ≡ true)

-- A run has a result in such a state.
abbrev pub HasRun : List Round → Result (BasicWorker × Bool) → Type 0
HasRun rounds r =
    (w' : BasicWorker) × (goes_on : Bool) × (r ≡ ok (w', goes_on)) × IsLeft rounds goes_on w'

IsLeft-cons :
    (round : Round) (rounds : List Round) (goes_on : Bool) (w : BasicWorker)
    → IsLeft rounds goes_on w
    → IsLeft (round ∷ rounds) goes_on w
IsLeft-cons round rounds true w h = h
IsLeft-cons round rounds false w (gone, requested) =
    (gone, λ valid. requested (ground (arith, valid)))

-- the end of a round, behind the check of the liveness
module _ (round : Round) (rounds : List Round)
    (next : (w : BasicWorker)
      → IsConnected w
      → w.shutdown_requested ≡ false
      → HasRun rounds (run_rounds rounds w)) where
  round_ends :
      (w : BasicWorker)
      → IsConnected w
      → HasRun (round ∷ rounds) (
          if not w.shutdown_requested && round.poll_is_valid
          then run_rounds rounds w
          else disconnect_from_broker w >>= (λ left. ok (left, false)))
  round_ends w h = elim (Bool-cases (not w.shutdown_requested && round.poll_is_valid)) [
    | inl more ↦
        let (w', goes_on, e, left) = next w h (ground (arith, more)) in
        rw more (w', goes_on, e, IsLeft-cons round rounds goes_on w' left)
    | inr last ↦
        let (w', left, gone, same) = disconnect_from_broker-ok w h in
        rw last (w', false, rw left refl, (gone, λ valid. same ∙ ground (arith, last, valid)))
  ]

-- As long as the broker accepts every connection of the worker and every topic that is notified can
-- be read, the loop of a connected worker without a request to shut down runs without an exception
-- and without a use of a socket that is not there, whatever messages arrive. While it goes on the
-- worker is connected and no shutdown is requested. Where it ends the worker is disconnected, and
-- a shutdown was requested unless a poll failed.
pub run_rounds-total :
    (rounds : List Round) (w : BasicWorker)
    → All AcceptsRound rounds
    → IsConnected w
    → w.shutdown_requested ≡ false
    → HasRun rounds (run_rounds rounds w)
unfolding run_rounds
run_rounds-total [] w a h stays = (w, true, refl, (h, stays))
run_rounds-total (round ∷ rounds) w a h stays =
    let (w1, received, c1) = receive_all-IsConnected round.polls w a.0.0 h in
    let (c2, goes_on) = check_liveness-IsConnected round.beat w1 a.0.1 c1 in
    let (w3, beaten, c3) =
      send_heartbeat-IsConnected round.beat (check_liveness round.beat w1).0 c2 in
    rw (received, goes_on, beaten)
      (round_ends round rounds (λ v hv still. run_rounds-total rounds v a.1 hv still) w3 c3)
