-- ===== src/Broker/Queue.antt =====
-- The queues of a service: a message waits in the queue of its role, and the first queue that is
-- not empty is served first.
pub mod Laws
use opencmw_cpp.Base.{
  ℕ, ◌+◌, ◌-◌, Bytes, bytes_discrete, List, [], ◌∷◌, ◌++◌, map, Option, none, some, ite,
}
use opencmw_cpp.Broker.{Message, Service, Internal}
use opencmw_cpp.Broker.Rbac.{role}

-- `QueueEntry`, `PriorityQueue`
abbrev pub Queues : Type 0
Queues = List (Bytes × List Message)

-- `makePriorityQueue`: without roles there is one queue.
unfoldable pub make_priority_queue : List Bytes → Queues
make_priority_queue [] = ([], []) ∷ []
make_priority_queue (r ∷ rs) = map (λ name. (name, [])) (r ∷ rs)

-- A message to the queue of its role, or to the last queue if there is none of that role.
unfoldable pub put_in_role : Bytes → Message → Queues → Queues
put_in_role r m [] = []
put_in_role r m ((name, q) ∷ []) = (name, q ++ m ∷ []) ∷ []
put_in_role r m ((name, q) ∷ next ∷ qs) =
    ite (bytes_discrete name r) ((name, q ++ m ∷ []) ∷ next ∷ qs)
      ((name, q) ∷ put_in_role r m (next ∷ qs))

-- `putMessage`
unfoldable pub put_message : Message → Service → Service
put_message m s = record s {
  requests_by_priority = put_in_role (role m.rbac) m s.requests_by_priority;
  request_count = s.request_count + 1;
}

-- the first message of the first queue that is not empty
unfoldable pub take_first : Queues → Option (Message × Queues)
take_first [] = none
take_first ((name, []) ∷ qs) = elim (take_first qs) [
  | none ↦ none
  | some (m, rest) ↦ some (m, (name, []) ∷ rest)
]
take_first ((name, m ∷ q) ∷ qs) = some (m, (name, q) ∷ qs)

-- `takeNextMessage`; `none` is the case that its assertion excludes.
unfoldable pub take_next_message : Service → Option (Message × Service)
unfolding take_first
take_next_message s = elim (take_first s.requests_by_priority) [
  | none ↦ none
  | some (m, rest) ↦
      some (m, record s { requests_by_priority = rest; request_count = s.request_count - 1 })
]

-- `takeNextWorker`; `none` is `front()` of an empty list.
unfoldable pub take_next_worker : Service → Option (Bytes × Service)
take_next_worker s = elim s.waiting [ [] ↦ none | w ∷ rest ↦ some (w, record s { waiting = rest }) ]
