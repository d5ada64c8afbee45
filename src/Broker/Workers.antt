-- ===== src/Broker/Workers.antt =====
-- The workers: those that wait, those whose time is over, and the requests that they are given.
--
-- `undefined` is what C++ leaves undefined: a waiting worker that is no longer in the broker's map
-- (a pointer to a worker that was erased), and the service of a worker that is not in the map of
-- services (the end of the map).
pub mod Waiting
pub mod Invariant
pub mod Dispatch
use opencmw_cpp.Base.{
  ℕ, zero, suc, Bytes, codes, bytes_discrete, Bool, true, false, ◌||◌, ◌==◌, ltb, List, [], ◌∷◌,
  ◌++◌, Option, none, some, find, modify, erase, is_empty, length, Result, ok, err, ◌>>=◌,
  undefined, ite, if◌then◌else◌,
}
use opencmw_cpp.Broker.{
  Broker, Message, Worker, Service, Effect, Socket, send, worker_protocol, disconnect, new_message,
  updated_worker_expiry, broker_rbac, emit,
}
use opencmw_cpp.Broker.Queue.{take_next_message, take_next_worker}

abbrev pub Workers : Type 0
Workers = List (Bytes × Worker)

abbrev pub Services : Type 0
Services = List (Bytes × Service)

-- what a pointer or an iterator leads to
abbrev pub or_undefined {ℓ} : {A : Type ℓ} → Option A → Result A
or_undefined none = err undefined
or_undefined (some a) = ok a

abbrev pub is_expired : ℕ → Worker → Bool
is_expired now w = ltb w.expiry now

-- The waiting list of one service: the workers whose time is over leave it and the map.
unfoldable pub purge_waiting : ℕ → List Bytes → Workers → Result (List Bytes × Workers)
purge_waiting now [] ws = ok ([], ws)
purge_waiting now (id ∷ ids) ws = elim (find bytes_discrete id ws) [
  | none ↦ err undefined
  | some w ↦ elim (is_expired now w) [
    | true ↦ purge_waiting now ids (erase bytes_discrete id ws)
    | false ↦ do (kept, left) ← purge_waiting now ids ws; ok (id ∷ kept, left)
  ]
]

unfoldable pub purge_services : ℕ → Services → Workers → Result (Services × Workers)
unfolding purge_waiting
purge_services now [] ws = ok ([], ws)
purge_services now ((name, s) ∷ services) ws = do
  (kept, left) ← purge_waiting now s.waiting ws
  (rest, remaining) ← purge_services now services left
  ok ((name, record s { waiting = kept }) ∷ rest, remaining)

-- `purgeWorkers`
unfoldable pub purge_workers : ℕ → Broker → Result Broker
purge_workers now b = do
  (services, workers) ← purge_services now b.services b.workers
  ok (record b { services = services; workers = workers })

-- the message that a worker gets: the client's id stands in its service name
abbrev pub for_worker : Message → Worker → Message
for_worker m w = record m {
  service_name = m.source_id;
  source_id = w.id;
  protocol = worker_protocol;
}

-- The loop of `dispatch` and what it sends. Each round takes a waiting worker, so their number is
-- fuel enough.
unfoldable pub dispatch_loop : Workers → ℕ → Service → Result (Service × List Effect)
dispatch_loop ws zero s = ok (s, [])
dispatch_loop ws (suc fuel) s =
    let round = or_undefined (take_next_message s) >>= λ (m, s1).
    or_undefined (take_next_worker s1) >>= λ (id, s2).
    or_undefined (find bytes_discrete id ws) >>= λ w. dispatch_loop ws fuel s2 >>= λ (s3, effects).
    ok (s3, send w.socket (for_worker m w) ∷ effects) in
    if is_empty s.waiting || s.request_count == 0 then ok (s, []) else round

-- `dispatch` of the service of a name
unfoldable pub dispatch : ℕ → Bytes → Broker → Result Broker
dispatch now name b = do
  purged ← purge_workers now b
  s ← or_undefined (find bytes_discrete name purged.services)
  (s', effects) ← dispatch_loop purged.workers (length s.waiting) s
  ok (record purged {
    services = modify bytes_discrete name (λ old. s') purged.services;
    sent = purged.sent ++ effects;
  })

-- The part of `workerWaiting` before its dispatch: the worker goes to the end of the waiting list.
unfoldable pub enqueue_worker : ℕ → Bytes → Bytes → Broker → Broker
enqueue_worker now id name b = record b {
  services =
      modify bytes_discrete name (λ (s : Service). record s { waiting = s.waiting ++ id ∷ [] })
        b.services;
  workers =
      modify bytes_discrete id (λ (w : Worker). record w { expiry = updated_worker_expiry now b })
        b.workers;
}

-- `workerWaiting`
unfoldable pub worker_waiting : ℕ → Bytes → Broker → Result Broker
unfolding enqueue_worker
worker_waiting now id b = do
  w ← or_undefined (find bytes_discrete id b.workers)
  s ← or_undefined (find bytes_discrete w.service_name b.services)
  dispatch now w.service_name (enqueue_worker now id w.service_name b)

-- every place of a worker in a waiting list
unfoldable pub remove_waiting : Bytes → List Bytes → List Bytes
remove_waiting id [] = []
remove_waiting id (j ∷ ids) =
    ite (bytes_discrete j id) (remove_waiting id ids) (j ∷ remove_waiting id ids)

-- `deleteWorker`
unfoldable pub delete_worker : Worker → Broker → Broker
unfolding remove_waiting
delete_worker w b = record b {
  services =
      modify bytes_discrete w.service_name
        (λ (s : Service). record s { waiting = remove_waiting w.id s.waiting }) b.services;
  workers = erase bytes_discrete w.id b.workers;
}

-- `disconnectWorker`
unfoldable pub disconnect_worker : Worker → Broker → Broker
unfolding delete_worker
disconnect_worker w b = delete_worker w (
    emit
      (send w.socket (record new_message {
        protocol = worker_protocol;
        command = disconnect;
        source_id = w.id;
        service_name = w.service_name;
        body = codes "broker shutdown";
        rbac = broker_rbac;
      }))
      b)

-- `cleanup`: every worker is disconnected.
unfoldable pub disconnect_all : Workers → Broker → Broker
unfolding disconnect_worker
disconnect_all [] b = b
disconnect_all ((id, w) ∷ ws) b = disconnect_all ws (disconnect_worker w b)

unfoldable pub cleanup : Broker → Broker
unfolding disconnect_all
cleanup b = disconnect_all b.workers b
