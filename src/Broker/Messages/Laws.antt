-- ===== src/Broker/Messages/Laws.antt =====
-- The queue of a client's requests.
use opencmw_cpp.Base.{
  ◌≡◌, bytes_discrete, [], ◌∷◌, ◌++◌, some, find, try_emplace, find-modify_self, find-try_emplace,
}
use opencmw_cpp.Broker.{Broker, Message, Client}
use opencmw_cpp.Broker.Messages.{queue_request}

-- A request of a client that is known goes to the end of its queue; the client's socket and the time
-- at which it expires stay as they are.
pub queue_request_known :
    (fresh c : Client) (m : Message) (b : Broker)
    → find bytes_discrete m.source_id b.clients ≡ some c
    → find bytes_discrete m.source_id (queue_request fresh m b).clients
      ≡ some (record c { requests = c.requests ++ m ∷ [] })
unfolding queue_request
queue_request_known fresh c m b known = rw (
  find-modify_self bytes_discrete m.source_id
      (λ (c : Client). record c { requests = c.requests ++ m ∷ [] })
      (try_emplace bytes_discrete m.source_id fresh b.clients),
  find-try_emplace bytes_discrete m.source_id m.source_id fresh b.clients,
  known,
)
