-- ===== src/Worker/Run.antt =====
-- The loop of `BasicWorker::run`, as far as the given rounds reach.
pub mod Connected
pub mod Laws
pub mod Silence
use opencmw_cpp.Base.{
  ℕ, ◌+◌, ◌-◌, ◌==◌, ltb, Bool, true, false, not, ◌&&◌, List, [], ◌∷◌, Result, ok, err, ◌>>=◌, ◌>>◌,
  guard, undefined, if◌then◌else◌,
}
use opencmw_cpp.Broker.{disconnect, heartbeat}
use opencmw_cpp.Worker.{BasicWorker, create_message, send_to_broker, cleanup_notification_handlers}
use opencmw_cpp.Worker.Receive.{Poll, connect_to_broker, receive_messages}

-- `disconnect`
unfoldable pub disconnect_from_broker : BasicWorker → Result BasicWorker
disconnect_from_broker w =
    guard w.has_worker_socket undefined
    >> ok (record (send_to_broker (create_message disconnect w) w) {
      has_worker_socket = false;
      has_pub_socket = false;
    })

-- The receiving loop: it ends with the round in which nothing was received.
unfoldable pub receive_all : List Poll → BasicWorker → Result BasicWorker
receive_all [] w = ok w
receive_all (poll ∷ polls) w = receive_messages poll w >>= (λ received.
    let rest = receive_all polls received.0 in if received.1 then rest else ok received.0)

-- What one check of the heartbeat meets: the times at which the clock is read, one after the other,
-- and what zmq_connect would return.
pub record Beat : Type 0 where
  pub checked_at : ℕ
  pub connected_at : ℕ
  pub sent_at : ℕ
  pub renewed_at : ℕ
  pub router_connects : Bool
  pub pub_connects : Bool

-- The broker has been silent for too long if this was the last of its lives: the worker connects
-- again. The result says whether `run` goes on.
unfoldable pub check_liveness : Beat → BasicWorker → BasicWorker × Bool
check_liveness beat w =
    if ltb w.heartbeat_at beat.checked_at
    then (if w.liveness == 1
        then connect_to_broker beat.connected_at beat.router_connects beat.pub_connects
            (record w { liveness = 0 })
        else (record w { liveness = w.liveness - 1 }, true))
    else (w, true)

unfoldable pub send_heartbeat : Beat → BasicWorker → Result BasicWorker
send_heartbeat beat w =
    if ltb w.heartbeat_at beat.sent_at
    then guard w.has_worker_socket undefined
      >> ok (
          cleanup_notification_handlers beat.renewed_at
            (record (send_to_broker (create_message heartbeat w) w) {
              heartbeat_at = beat.renewed_at + w.settings.heartbeat_interval;
            }))
    else ok w

-- One round of the outer loop, with what its call of zmq_poll returns.
pub record Round : Type 0 where
  pub polls : List Poll
  pub beat : Beat
  pub poll_is_valid : Bool

-- the outer loop: `ok (w, true)` if it has not ended yet
unfoldable pub run_rounds : List Round → BasicWorker → Result (BasicWorker × Bool)
unfolding disconnect_from_broker receive_all check_liveness send_heartbeat
run_rounds [] w = ok (w, true)
run_rounds (round ∷ rounds) w = receive_all round.polls w >>= (λ received.
    let (checked, goes_on) = check_liveness round.beat received in
    if not goes_on
    then ok (checked, false)
    else send_heartbeat round.beat checked >>= (λ beaten.
      let rest = run_rounds rounds beaten in
      if not beaten.shutdown_requested && round.poll_is_valid
      then rest
      else disconnect_from_broker beaten >>= (λ left. ok (left, false))))

-- `run`
unfoldable pub run : ℕ → Bool → Bool → List Round → BasicWorker → Result (BasicWorker × Bool)
unfolding run_rounds
run now router_connects pub_connects rounds w =
    let (connected, is_connected) = connect_to_broker now router_connects pub_connects w in
    if is_connected then run_rounds rounds connected else ok (connected, false)
