-- ===== src/Worker/Run/Silence.antt =====
-- A worker that hears nothing from the broker: it sends heartbeats, and connects again.
use opencmw_cpp.Base.{
  ℕ, zero, suc, ◌+◌, ◌-◌, ◌<◌, ◌≤◌, ◌≡◌, refl, sym, ap, ◌∙◌, true, false, List, [], ◌∷◌, ◌++◌, map,
  length, arith, append_assoc, append-nil, none, ok,
}
use opencmw_cpp.Broker.{Message, ready, heartbeat}
use opencmw_cpp.Worker.{BasicWorker, create_message, send_to_broker, cleanup_notification_handlers}
use opencmw_cpp.Worker.Receive.{
  Poll, connect_to_broker, notify_all, receive_messages, receive_dealer_message,
  receive_subscription_message, receive_notification_message,
}
use opencmw_cpp.Worker.Run.{receive_all, Beat, check_liveness, send_heartbeat, Round, run_rounds}

-- nothing is received
abbrev nothing : Poll
nothing = record {
  notified = [];
  dealer = none;
  frame = none;
  now = 0;
  router_connects = false;
  pub_connects = false;
}

-- a round in which nothing is received
abbrev pub quiet : Beat → Round
quiet beat = record { polls = nothing ∷ []; beat = beat; poll_is_valid = true }

-- A connected worker with no notification to receive that is not asked to shut down.
pub record IsQuiet (w : BasicWorker) : Type 0 where
  pub worker_socket : w.has_worker_socket ≡ true
  pub pub_socket : w.has_pub_socket ≡ true
  pub no_notification : w.notifications ≡ []
  pub runs : w.shutdown_requested ≡ false

-- Each check finds the heartbeat due, the one in front of the first and the others by the renewal of
-- the check before them.
abbrev pub AreDue : ℕ → ℕ → List Beat → Type 0
AreDue heartbeat_at interval [] = Unit
AreDue heartbeat_at interval (beat ∷ beats) =
    (heartbeat_at < beat.checked_at)
    × (heartbeat_at < beat.sent_at)
    × AreDue (beat.renewed_at + interval) interval beats

-- when the heartbeat is due behind the checks
abbrev pub renewal : ℕ → ℕ → List Beat → ℕ
renewal heartbeat_at interval [] = heartbeat_at
renewal heartbeat_at interval (beat ∷ beats) = renewal (beat.renewed_at + interval) interval beats

-- The check at which the worker connects again, in less than an interval.
pub record Reconnects (heartbeat_at interval : ℕ) (beat : Beat) : Type 0 where
  pub due : heartbeat_at < beat.checked_at
  pub router : beat.router_connects ≡ true
  pub publisher : beat.pub_connects ≡ true
  pub in_time : beat.sent_at ≤ beat.connected_at + interval

abbrev pub heartbeats : ℕ → BasicWorker → List Message
heartbeats zero w = []
heartbeats (suc n) w = create_message heartbeat w ∷ heartbeats n w

abbrev pub ready_message : BasicWorker → Message
ready_message w = record (create_message ready w) { body = w.description }

-- the state behind a check that finds lives left
abbrev beaten : Beat → BasicWorker → BasicWorker
beaten beat w =
    cleanup_notification_handlers beat.renewed_at
      (record (send_to_broker (create_message heartbeat w) w) {
        liveness = w.liveness - 1;
        heartbeat_at = beat.renewed_at + w.settings.heartbeat_interval;
      })

receive_all-nothing : (w : BasicWorker) → IsQuiet w → receive_all (nothing ∷ []) w ≡ ok w
unfolding receive_all receive_messages notify_all receive_dealer_message
    receive_subscription_message receive_notification_message
receive_all-nothing w q = ground (arith, q.worker_socket, q.pub_socket, q.no_notification)

quiet_round :
    (beat : Beat) (rounds : List Round) (w w1 w2 : BasicWorker)
    → IsQuiet w
    → check_liveness beat w ≡ (w1, true)
    → send_heartbeat beat w1 ≡ ok w2
    → w2.shutdown_requested ≡ false
    → run_rounds (quiet beat ∷ rounds) w ≡ run_rounds rounds w2
unfolding run_rounds
quiet_round beat rounds w w1 w2 q e1 e2 e3 = rw (receive_all-nothing w q, e1, e2, e3) refl

abbrev lowered : BasicWorker → BasicWorker
lowered w = record w { liveness = w.liveness - 1 }

check_liveness-lowers :
    (beat : Beat) (w : BasicWorker)
    → w.heartbeat_at < beat.checked_at
    → 1 < w.liveness
    → check_liveness beat w ≡ (lowered w, true)
unfolding check_liveness
check_liveness-lowers beat w c l = ground arith

send_heartbeat-beaten :
    (beat : Beat) (w : BasicWorker)
    → w.heartbeat_at < beat.sent_at
    → w.has_worker_socket ≡ true
    → send_heartbeat beat (lowered w) ≡ ok (beaten beat w)
unfolding send_heartbeat cleanup_notification_handlers create_message
send_heartbeat-beaten beat w s h = ground arith

abbrev reconnected : Beat → BasicWorker → BasicWorker
reconnected beat w = record (send_to_broker (ready_message w) w) {
  has_worker_socket = true;
  has_pub_socket = true;
  liveness = w.settings.heartbeat_liveness;
  heartbeat_at = beat.connected_at + w.settings.heartbeat_interval;
}

check_liveness-Reconnects :
    (beat : Beat) (w : BasicWorker)
    → Reconnects w.heartbeat_at w.settings.heartbeat_interval beat
    → w.liveness ≡ 1
    → check_liveness beat w ≡ (reconnected beat w, true)
unfolding check_liveness connect_to_broker create_message
check_liveness-Reconnects beat w r l = ground arith

send_heartbeat-early :
    (beat : Beat) (w : BasicWorker) → beat.sent_at ≤ w.heartbeat_at → send_heartbeat beat w ≡ ok w
unfolding send_heartbeat
send_heartbeat-early beat w h = ground arith

heartbeats-beaten :
    (n : ℕ) (beat : Beat) (w : BasicWorker) → heartbeats n (beaten beat w) ≡ heartbeats n w
unfolding create_message cleanup_notification_handlers
heartbeats-beaten zero beat w = refl
heartbeats-beaten (suc n) beat w =
    ap (◌∷◌ (create_message heartbeat w)) (heartbeats-beaten n beat w)

beaten-IsQuiet : (beat : Beat) (w : BasicWorker) → IsQuiet w → IsQuiet (beaten beat w)
unfolding cleanup_notification_handlers
beaten-IsQuiet beat w q = record {
  worker_socket = q.worker_socket;
  pub_socket = q.pub_socket;
  no_notification = q.no_notification;
  runs = q.runs;
}

-- If a connected worker that is not asked to shut down receives nothing, it sends a heartbeat at
-- each check at which one is due, as long as more than one of its lives is left; at the next such
-- check, if the broker accepts the connections in less than an interval, it connects again and
-- announces itself, and it has all its lives again.
pub run_rounds_silent :
    (beats : List Beat) (last : Beat) (w : BasicWorker)
    → IsQuiet w
    → w.liveness ≡ length beats + 1
    → AreDue w.heartbeat_at w.settings.heartbeat_interval beats
    → Reconnects
        (renewal w.heartbeat_at w.settings.heartbeat_interval beats)
        w.settings.heartbeat_interval
        last
    → (w' : BasicWorker) × (run_rounds (map quiet beats ++ quiet last ∷ []) w ≡ ok (w', true))
      × (w'.sent ≡ w.sent ++ heartbeats (length beats) w ++ ready_message w ∷ [])
      × (w'.liveness ≡ w.settings.heartbeat_liveness)
unfolding run_rounds cleanup_notification_handlers create_message
run_rounds_silent [] last w q l due r = (
  reconnected last w,
  quiet_round last [] w _ _ q (check_liveness-Reconnects last w r (omega arith))
      (send_heartbeat-early last (reconnected last w) r.in_time) q.runs,
  ap (λ s. s ++ ready_message w ∷ []) (sym (append-nil w.sent)),
  refl,
)
run_rounds_silent (beat ∷ beats) last w q l due r =
    let (w', ran, sent, alive) =
      run_rounds_silent beats last (beaten beat w) (beaten-IsQuiet beat w q) (omega arith) due.2
        r in
    (
      w',
      quiet_round beat (map quiet beats ++ quiet last ∷ []) w _ _ q
            (check_liveness-lowers beat w due.0 (omega arith))
            (send_heartbeat-beaten beat w due.1 q.worker_socket) q.runs
          ∙ ran,
      sent
          ∙ ap (λ s. s ++ ready_message w ∷ [])
              (ap (λ hs. w.sent ++ create_message heartbeat w ∷ [] ++ hs)
                  (heartbeats-beaten (length beats) beat w)
                ∙ append_assoc w.sent (create_message heartbeat w ∷ [])
                    (heartbeats (length beats) w)),
      alive,
    )
