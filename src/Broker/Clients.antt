-- ===== src/Broker/Clients.antt =====
-- The requests of clients: `processClients`, and the clients whose time is over: `purgeClients`.
mod Internal
unfoldable pub use Internal.*
use opencmw_cpp.Base.{
  ℕ, Bytes, codes, bytes_discrete, bytes_eq, Bool, true, false, not, ◌&&◌, ◌==◌, ltb, List, [], ◌∷◌,
  ◌++◌, Option, none, some, find, modify, Result, ok, err, ◌>>=◌, if◌then◌else◌,
}
use opencmw_cpp.Broker.{Broker, Message, Client, Service, final, rest_source_id, broker_rbac}
use opencmw_cpp.Broker.Queue.{put_message}
use opencmw_cpp.Broker.Services.{best_matching_service}
use opencmw_cpp.Broker.Workers.{or_undefined, dispatch}
use opencmw_cpp.Broker.WorkerMessages.{reply_to, internal_service_names_uri}

-- the reply to a request for a service that is not there
unfoldable pub unknown_service : Message → Message
unknown_service m = record m {
  command = final;
  topic = internal_service_names_uri;
  body = [];
  error = codes "unknown service (error 501): '" ++ m.service_name ++ codes "'";
  rbac = broker_rbac;
}

abbrev pub checked : Option (Message → Message) → Message → Message
checked none m = m
checked (some handler) m = handler m

-- A request for a service: the broker answers itself, or the service's queue takes the request.
unfoldable pub serve : ℕ → Client → Message → Bytes → Service → Broker → Result Broker
unfolding answer reply_to put_message dispatch
serve now c m key s b = elim s.internal_handler [
  | some handler ↦ (answer handler m b >>= λ reply. reply_to c reply b)
  | none ↦
      dispatch now key
        (record b { services = modify bytes_discrete key (put_message m) b.services })
]

-- The loop of `processClients`. It ends with the first request that has a service.
unfoldable pub process_requests : ℕ → List (Bytes × Client) → Broker → Result Broker
unfolding serve unknown_service best_matching_service reply_to
process_requests now [] b = ok b
process_requests now ((id, c) ∷ cs) b =
    let continue = λ (b' : Broker). process_requests now cs b' in
    elim c.requests [
      | [] ↦ continue b
      | m ∷ requests ↦
          let taken = record b {
            clients =
                modify bytes_discrete id (λ (old : Client). record old { requests = requests })
                  b.clients;
          } in
          let request = checked b.rbac_handler m in
          elim (best_matching_service request.service_name taken) [
            | some key ↦
                (or_undefined (find bytes_discrete key taken.services) >>= λ s.
                serve now c request key s taken)
            | none ↦ (reply_to c (unknown_service request) taken >>= continue)
          ]
    ]

-- `processClients`
unfoldable pub process_clients : ℕ → Broker → Result Broker
unfolding process_requests
process_clients now b = process_requests now b.clients b

unfoldable pub drop_expired_clients : ℕ → List (Bytes × Client) → List (Bytes × Client)
drop_expired_clients now [] = []
drop_expired_clients now ((id, c) ∷ cs) =
    let rest = drop_expired_clients now cs in
    if not (bytes_eq id rest_source_id) && ltb c.expiry now then rest else (id, c) ∷ rest

-- `purgeClients`. With a timeout of zero no client expires.
unfoldable pub purge_clients : ℕ → Broker → Broker
unfolding drop_expired_clients
purge_clients now b =
    if b.settings.client_timeout == 0
    then b
    else record b { clients = drop_expired_clients now b.clients }
