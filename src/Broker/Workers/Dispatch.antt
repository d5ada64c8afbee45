-- ===== src/Broker/Workers/Dispatch.antt =====
-- The loop of `dispatch` ends, and what it leaves.
use opencmw_cpp.Base.{
  ℕ, zero, suc, ◌+◌, ◌≤◌, ◌≡◌, refl, ◌∙◌, ◌⊎◌, inl, inr, Bytes, bytes_discrete, true, false, ◌||◌,
  ◌==◌, List, [], ◌∷◌, some, find, is_empty, length, arith, ok, Option-cases,
}
use opencmw_cpp.Broker.{Message, Worker, Service, Effect, send}
use opencmw_cpp.Broker.Queue.{take_first, take_next_message, take_next_worker}
use opencmw_cpp.Broker.Queue.Laws.{IsCounted, take_next_message-IsCounted}
use opencmw_cpp.Broker.Workers.{Workers, dispatch_loop, for_worker}
use opencmw_cpp.Broker.Workers.Waiting.{AreKnown}

take_next_message-waiting :
    (s : Service) {m : Message} {s' : Service}
    → take_next_message s ≡ some (m, s')
    → s'.waiting ≡ s.waiting
unfolding take_next_message
take_next_message-waiting s h = elim (Option-cases (take_first s.requests_by_priority)) [
  | inl e ↦ absurd (ground (arith, h, e))
  | inr ((m, rest), e) ↦ ground (arith, h, e)
]

take_next_worker_cons :
    (s : Service) (id : Bytes) (rest : List Bytes)
    → s.waiting ≡ id ∷ rest
    → take_next_worker s ≡ some (id, record s { waiting = rest })
unfolding take_next_worker
take_next_worker_cons s id rest e = rw (e, take_next_worker)

goes_on :
    (s : Service) (n : ℕ) (id : Bytes) (rest : List Bytes)
    → s.waiting ≡ id ∷ rest
    → s.request_count ≡ suc n
    → (is_empty s.waiting || s.request_count == 0) ≡ false
goes_on s n id rest waiting count = rw (waiting, count) (ground arith)

stops : (s : Service) → s.request_count ≡ 0 → (is_empty s.waiting || s.request_count == 0) ≡ true
stops s count = ground (arith, count)

-- what one round takes, and the rounds behind it
dispatch_round :
    (ws : Workers) (fuel n : ℕ) (s s1 s3 : Service) (m : Message) (id : Bytes) (rest : List Bytes)
    (w : Worker) (effects : List Effect)
    → s.waiting ≡ id ∷ rest
    → s.request_count ≡ suc n
    → take_next_message s ≡ some (m, s1)
    → s1.waiting ≡ id ∷ rest
    → find bytes_discrete id ws ≡ some w
    → dispatch_loop ws fuel (record s1 { waiting = rest }) ≡ ok (s3, effects)
    → dispatch_loop ws (suc fuel) s ≡ ok (s3, send w.socket (for_worker m w) ∷ effects)
unfolding dispatch_loop
dispatch_round ws fuel n s s1 s3 m id rest w effects waiting count taken same found behind =
    rw (
      goes_on s n id rest waiting count,
      taken,
      take_next_worker_cons s1 id rest same,
      found,
      behind,
    )

dispatch_empty :
    (ws : Workers) (fuel : ℕ) (s : Service) → s.waiting ≡ [] → dispatch_loop ws fuel s ≡ ok (s, [])
unfolding dispatch_loop
dispatch_empty ws zero s e = refl
dispatch_empty ws (suc fuel) s e = rw e

dispatch_idle :
    (ws : Workers) (fuel : ℕ) (s : Service)
    → s.request_count ≡ 0
    → dispatch_loop ws fuel s ≡ ok (s, [])
unfolding dispatch_loop
dispatch_idle ws zero s e = refl
dispatch_idle ws (suc fuel) s e = rw (stops s e)

-- What `dispatch` has done to a service when its loop ends.
pub record IsDispatched (s s' : Service) (effects : List Effect) : Type 0 where
  pub finished : (s'.waiting ≡ []) ⊎ (s'.request_count ≡ 0)
  pub counted : IsCounted s'
  pub workers_used : length effects + length s'.waiting ≡ length s.waiting
  pub requests_sent : length effects + s'.request_count ≡ s.request_count

IsDispatched-nothing :
    (s : Service) → IsCounted s → (s.waiting ≡ []) ⊎ (s.request_count ≡ 0) → IsDispatched s s []
IsDispatched-nothing s v done = record {
  finished = done;
  counted = v;
  workers_used = omega arith;
  requests_sent = omega arith;
}

IsDispatched-one :
    (s s1 s3 : Service) (id : Bytes) (rest : List Bytes) (x : Effect) (effects : List Effect)
    → s.waiting ≡ id ∷ rest
    → s1.request_count + 1 ≡ s.request_count
    → IsDispatched (record s1 { waiting = rest }) s3 effects
    → IsDispatched s s3 (x ∷ effects)
IsDispatched-one s s1 s3 id rest x effects waiting count v = record {
  finished = v.finished;
  counted = v.counted;
  workers_used = rw waiting (omega (arith, v.workers_used));
  requests_sent = omega (arith, v.requests_sent, count);
}

drain :
    (ws : Workers) (fuel : ℕ) (s : Service) (waiting : List Bytes)
    → s.waiting ≡ waiting
    → IsCounted s
    → AreKnown bytes_discrete waiting ws
    → length waiting ≤ fuel
    → (s' : Service) × (effects : List Effect) × (dispatch_loop ws fuel s ≡ ok (s', effects))
      × IsDispatched s s' effects
drain ws fuel s [] e v known enough =
    (s, [], dispatch_empty ws fuel s e, IsDispatched-nothing s v (inl e))
drain ws zero s (id ∷ rest) e v known enough = absurd (omega arith)
drain ws (suc fuel) s (id ∷ rest) e v (((w, found)), once, known) enough =
    elim (take_next_message-IsCounted s v) [
      | inl (none_left, t) ↦
          (s, [], dispatch_idle ws (suc fuel) s none_left, IsDispatched-nothing s v (inr none_left))
      | inr (m, s1, taken, count, v1) ↦
          let same = take_next_message-waiting s taken ∙ e in
          let behind = record s1 { waiting = rest } in
          let (s3, effects, eq, d) =
            drain ws fuel behind rest refl
              (record { counted = v1.counted; has_queue = v1.has_queue }) known (omega arith) in
          (
            s3,
            send w.socket (for_worker m w) ∷ effects,
            dispatch_round ws fuel s1.request_count s s1 s3 m id rest w effects e
                (omega (arith, count)) taken same found eq,
            IsDispatched-one s s1 s3 id rest (send w.socket (for_worker m w)) effects e count d,
          )
    ]

-- With a count that is right and waiting workers that are known, as much fuel as there are waiting
-- workers is enough: the loop ends with no waiting worker or no request left, and each message that
-- it sent took one of both.
pub dispatch_loop-total :
    (ws : Workers) (fuel : ℕ) (s : Service)
    → IsCounted s
    → AreKnown bytes_discrete s.waiting ws
    → length s.waiting ≤ fuel
    → (s' : Service) × (effects : List Effect) × (dispatch_loop ws fuel s ≡ ok (s', effects))
      × IsDispatched s s' effects
dispatch_loop-total ws fuel s v known enough = drain ws fuel s s.waiting refl v known enough
