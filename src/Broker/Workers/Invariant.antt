-- ===== src/Broker/Workers/Invariant.antt =====
-- The waiting lists hold workers that the broker knows, each once.
use opencmw_cpp.Base.{
  ℕ, ◌≤◌, ◌≡◌, refl, ◌∙◌, inl, inr, Bytes, bytes_discrete, true, false, List, [], ◌∷◌, ◌++◌, some,
  find, erase, find-erase_self, undefined, has_key, arith, ok, err, Bool-cases,
}
use opencmw_cpp.Broker.{Broker, Worker, Service}
use opencmw_cpp.Broker.Workers.{
  Workers, Services, is_expired, purge_waiting, purge_services, purge_workers,
}
use opencmw_cpp.Broker.Workers.Waiting.{
  AreKnown, AreKnown-agree, AreKnown-left, AreKnown-right, AreKnown-apart, AreKnown-erase, Shrinks,
  Shrinks-append, Shrinks-nil, Shrinks-drop, Shrinks-keep,
}

-- the ids in the waiting lists
abbrev pub waiting_ids : Services → List Bytes
waiting_ids [] = []
waiting_ids ((name, s) ∷ services) = s.waiting ++ waiting_ids services

-- Each worker waits at most once, and only while the broker knows it.
abbrev pub AreWaitingKnown : Broker → Type 0
AreWaitingKnown b = AreKnown bytes_discrete (waiting_ids b.services) b.workers

-- Each worker of a list is known, and its time is not over.
abbrev pub AreAlive : ℕ → List Bytes → Workers → Type 0
AreAlive now [] ws = Unit
AreAlive now (id ∷ ids) ws =
    ((w : Worker) × (find bytes_discrete id ws ≡ some w) × (now ≤ w.expiry)) × AreAlive now ids ws

AreAlive-agree :
    (now : ℕ) (ids : List Bytes) (ws vs : Workers)
    → AreAlive now ids ws
    → ((id : Bytes)
        → has_key bytes_discrete id ids ≡ true
        → find bytes_discrete id vs ≡ find bytes_discrete id ws)
    → AreAlive now ids vs
unfolding has_key
AreAlive-agree now [] ws vs h agree = tt
AreAlive-agree now (id ∷ ids) ws vs h agree = (
  (h.0.0, agree id (ground arith) ∙ h.0.1, h.0.2),
  AreAlive-agree now ids ws vs h.1 (λ j e. agree j (ground (arith, e))),
)

purge_expired :
    (now : ℕ) (id : Bytes) (ids : List Bytes) (ws : Workers) (w : Worker)
    → find bytes_discrete id ws ≡ some w
    → is_expired now w ≡ true
    → purge_waiting now (id ∷ ids) ws ≡ purge_waiting now ids (erase bytes_discrete id ws)
unfolding purge_waiting
purge_expired now id ids ws w found over = rw (found, purge_waiting, over)

purge_young :
    (now : ℕ) (id : Bytes) (ids kept : List Bytes) (ws left : Workers) (w : Worker)
    → find bytes_discrete id ws ≡ some w
    → is_expired now w ≡ false
    → purge_waiting now ids ws ≡ ok (kept, left)
    → purge_waiting now (id ∷ ids) ws ≡ ok (id ∷ kept, left)
unfolding purge_waiting
purge_young now id ids kept ws left w found young e = rw (found, purge_waiting, young, e)

purge_waiting-Shrinks :
    (now : ℕ) (ids : List Bytes) (ws : Workers)
    → AreKnown bytes_discrete ids ws
    → (kept : List Bytes) × (left : Workers) × (purge_waiting now ids ws ≡ ok (kept, left))
      × Shrinks bytes_discrete ids ws kept left
      × AreAlive now kept left
purge_waiting-Shrinks now [] ws h =
    ([], ws, unfold purge_waiting in refl, Shrinks-nil bytes_discrete ws, tt)
purge_waiting-Shrinks now (id ∷ ids) ws ((w, found), once, h) =
    elim (Bool-cases (is_expired now w)) [
      | inl over ↦
          let (kept, left, e, v, alive) =
            purge_waiting-Shrinks now ids (erase bytes_discrete id ws)
              (AreKnown-erase bytes_discrete id ids ws once h) in
          (
            kept,
            left,
            purge_expired now id ids ws w found over ∙ e,
            Shrinks-drop bytes_discrete id ids kept ws left v,
            alive,
          )
      | inr young ↦
          let (kept, left, e, v, alive) = purge_waiting-Shrinks now ids ws h in
          (
            id ∷ kept,
            left,
            purge_young now id ids kept ws left w found young e,
            Shrinks-keep bytes_discrete id w ids kept ws left found once v,
            ((w, v.same id once ∙ found, ground (arith, young)), alive),
          )
    ]

AreAlive-append :
    (now : ℕ) (ids js : List Bytes) (ws : Workers)
    → AreAlive now ids ws
    → AreAlive now js ws
    → AreAlive now (ids ++ js) ws
AreAlive-append now [] js ws h g = g
AreAlive-append now (id ∷ ids) js ws h g = (h.0, AreAlive-append now ids js ws h.1 g)

purge_services_step :
    (now : ℕ) (name : Bytes) (s : Service) (services rest : Services) (ws left remaining : Workers)
    (kept : List Bytes)
    → purge_waiting now s.waiting ws ≡ ok (kept, left)
    → purge_services now services left ≡ ok (rest, remaining)
    → purge_services now ((name, s) ∷ services) ws
      ≡ ok ((name, record s { waiting = kept }) ∷ rest, remaining)
unfolding purge_services
purge_services_step now name s services rest ws left remaining kept e k = rw (e, k)

apart_back :
    (ids js : List Bytes)
    → ((id : Bytes) → has_key bytes_discrete id ids ≡ true → has_key bytes_discrete id js ≡ false)
    → (id : Bytes) → has_key bytes_discrete id js ≡ true
    → has_key bytes_discrete id ids ≡ false
apart_back ids js apart id k = ground (arith, k, apart id)

kept_apart :
    (js : List Bytes) {ids kept : List Bytes} {ws left : Workers}
    → Shrinks bytes_discrete ids ws kept left
    → ((id : Bytes) → has_key bytes_discrete id ids ≡ true → has_key bytes_discrete id js ≡ false)
    → (id : Bytes) → has_key bytes_discrete id kept ≡ true
    → has_key bytes_discrete id js ≡ false
kept_apart js {ids} v apart id k = ground (arith, k, apart id, v.fewer id)

purge_services-Shrinks :
    (now : ℕ) (services : Services) (ws : Workers)
    → AreKnown bytes_discrete (waiting_ids services) ws
    → (rest : Services) × (left : Workers) × (purge_services now services ws ≡ ok (rest, left))
      × Shrinks bytes_discrete (waiting_ids services) ws (waiting_ids rest) left
      × AreAlive now (waiting_ids rest) left
purge_services-Shrinks now [] ws h =
    ([], ws, unfold purge_services in refl, Shrinks-nil bytes_discrete ws, tt)
purge_services-Shrinks now ((name, s) ∷ services) ws h =
    let others = waiting_ids services in
    let apart = AreKnown-apart bytes_discrete s.waiting others ws h in
    let (kept, left, e, v, alive) =
      purge_waiting-Shrinks now s.waiting ws (AreKnown-left bytes_discrete s.waiting others ws h) in
    let behind = λ (id : Bytes) (k : has_key bytes_discrete id others ≡ true).
      v.same id (apart_back s.waiting others apart id k) in
    let known =
      AreKnown-agree bytes_discrete others ws left
        (AreKnown-right bytes_discrete s.waiting others ws h) behind in
    let (rest, remaining, e', v', alive') = purge_services-Shrinks now services left known in
    (
      (name, record s { waiting = kept }) ∷ rest,
      remaining,
      purge_services_step now name s services rest ws left remaining kept e e',
      Shrinks-append bytes_discrete s.waiting others kept (waiting_ids rest) ws left remaining apart
          v v',
      AreAlive-append now kept (waiting_ids rest) remaining
          (AreAlive-agree now kept left remaining alive
            (λ id k. v'.same id (kept_apart others v apart id k)))
          alive',
    )

-- If every worker that waits is known and waits once, then `purgeWorkers` follows no pointer to a
-- worker that is gone; afterwards this holds again, and the time of no waiting worker is over.
pub purge_workers-total :
    (now : ℕ) (b : Broker)
    → AreWaitingKnown b
    → (b' : Broker) × (purge_workers now b ≡ ok b')
      × AreWaitingKnown b'
      × AreAlive now (waiting_ids b'.services) b'.workers
unfolding purge_workers
purge_workers-total now b h =
    let (services, workers, e, v, alive) = purge_services-Shrinks now b.services b.workers h in
    (record b { services = services; workers = workers }, rw e, v.known, alive)

-- A worker whose time is over and that stands twice at the front of a waiting list makes
-- `purgeWorkers` follow the pointer to a worker that it has just erased.
pub purge_waiting_twice :
    (now : ℕ) (id : Bytes) (ids : List Bytes) (ws : Workers) (w : Worker)
    → find bytes_discrete id ws ≡ some w
    → is_expired now w ≡ true
    → purge_waiting now (id ∷ id ∷ ids) ws ≡ err undefined
unfolding purge_waiting
purge_waiting_twice now id ids ws w found over =
    purge_expired now id (id ∷ ids) ws w found over
    ∙ rw (find-erase_self bytes_discrete id ws, purge_waiting)
