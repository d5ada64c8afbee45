-- ===== src/Broker/Queue/Laws.antt =====
-- The queues refine one list of requests, and are first in, first out within a role.
use opencmw_cpp.Base.{
  ℕ, ◌+◌, ◌-◌, ◌≡◌, ◌≢◌, refl, ◌⊎◌, inl, inr, Bytes, [], ◌∷◌, none, some, length, length-append,
  arith,
}
use opencmw_cpp.Broker.{Message, Service}
use opencmw_cpp.Broker.Rbac.{role}
use opencmw_cpp.Broker.Queue.{Queues, put_in_role, put_message, take_first, take_next_message}

-- how many messages wait
abbrev pub total : Queues → ℕ
total [] = 0
total ((name, q) ∷ qs) = length q + total qs

-- `requestCount` is the number of messages in the queues, of which there is at least one.
pub record IsCounted (s : Service) : Type 0 where
  pub counted : s.request_count ≡ total s.requests_by_priority
  pub has_queue : s.requests_by_priority ≢ []

total-put_in_role :
    (r : Bytes) (m : Message) (qs : Queues) → qs ≢ [] → total (put_in_role r m qs) ≡ total qs + 1
unfolding put_in_role
total-put_in_role r m [] h = absurd (h refl)
total-put_in_role r m ((name, q) ∷ []) h = omega (arith, length-append q (m ∷ []))
total-put_in_role r m ((name, q) ∷ next ∷ qs) h =
    ground (arith, length-append q (m ∷ []), total-put_in_role r m (next ∷ qs))

put_in_role-ne-nil : (r : Bytes) (m : Message) (qs : Queues) → qs ≢ [] → put_in_role r m qs ≢ []
unfolding put_in_role
put_in_role-ne-nil r m [] h = h
put_in_role-ne-nil r m ((name, q) ∷ []) h = λ e. cc
put_in_role-ne-nil r m ((name, q) ∷ next ∷ qs) h = ground arith

-- `putMessage` keeps the count right.
put_message-IsCounted : (m : Message) (s : Service) → IsCounted s → IsCounted (put_message m s)
unfolding put_message
put_message-IsCounted m s v = record {
  counted =
      omega
        (arith, total-put_in_role (role m.rbac) m s.requests_by_priority v.has_queue, v.counted);
  has_queue = put_in_role-ne-nil (role m.rbac) m s.requests_by_priority v.has_queue;
}

-- A message is found whenever the count is not zero.
take_first-total :
    (qs : Queues)
    → ((take_first qs ≡ none) × (total qs ≡ 0))
      ⊎ ((m : Message) × (rest : Queues) × (take_first qs ≡ some (m, rest))
          × (total qs ≡ total rest + 1)
          × (rest ≢ []))
unfolding take_first
take_first-total [] = inl (refl, refl)
take_first-total ((name, m ∷ q) ∷ qs) = inr (m, (name, q) ∷ qs, refl, omega arith, λ e. cc)
take_first-total ((name, []) ∷ qs) = elim (take_first-total qs) [
  | inl (e, t) ↦ inl (rw (e, take_first), omega arith)
  | inr (m, rest, e, t, n) ↦ inr (m, (name, []) ∷ rest, rw (e, take_first), omega arith, λ k. cc)
]

-- With the count right, `takeNextMessage` finds a message exactly if the count is above zero, and
-- keeps the count right.
pub take_next_message-IsCounted :
    (s : Service)
    → IsCounted s
    → ((s.request_count ≡ 0) × (take_next_message s ≡ none))
      ⊎ ((m : Message) × (s' : Service) × (take_next_message s ≡ some (m, s'))
          × (s'.request_count + 1 ≡ s.request_count)
          × IsCounted s')
unfolding take_next_message
take_next_message-IsCounted s v = elim (take_first-total s.requests_by_priority) [
  | inl (e, t) ↦ inl (omega (arith, v.counted), rw (e, take_next_message))
  | inr (m, rest, e, t, n) ↦ inr (
    m,
    record s { requests_by_priority = rest; request_count = s.request_count - 1 },
    rw (e, take_next_message),
    omega (arith, v.counted),
    record { counted = omega (arith, v.counted); has_queue = n },
  )
]

-- In a service whose request count is the number of its queued messages, `putMessage` keeps it so,
-- and `takeNextMessage` finds a message exactly if the count is above zero, lowers it by one and
-- keeps it the number of queued messages.
pub queue_operations-IsCounted :
    (m : Message) (s : Service)
    → IsCounted s
    → IsCounted (put_message m s)
      × (((s.request_count ≡ 0) × (take_next_message s ≡ none))
          ⊎ ((first : Message) × (s' : Service) × (take_next_message s ≡ some (first, s'))
              × (s'.request_count + 1 ≡ s.request_count)
              × IsCounted s'))
queue_operations-IsCounted m s v = (put_message-IsCounted m s v, take_next_message-IsCounted s v)
