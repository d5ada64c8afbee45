-- ===== src/Broker/WorkerMessages.antt =====
-- The messages of workers: `processWorker`.
use opencmw_cpp.Base.{
  ℕ, Bytes, codes, bytes_discrete, bytes_eq, Bool, none, some, find, contains, try_emplace, modify,
  Result, ok, err, ◌>>=◌, bad_optional, if◌then◌else◌,
}
use opencmw_cpp.Broker.{
  Broker, Message, Worker, Client, Socket, Command, send, rest_response, pub_socket,
  client_protocol, invalid, get, set, partial, final, ready, disconnect, subscribe, unsubscribe,
  notify, heartbeat, new_message, rest_source_id, updated_worker_expiry, root_uri, emit,
}
use opencmw_cpp.Broker.Services.{require_service}
use opencmw_cpp.Broker.Workers.{or_undefined, worker_waiting, disconnect_worker}
use opencmw_cpp.Broker.Dns.{register_new_service}
use opencmw_cpp.Broker.Notifications.{notify_subscribers}
use opencmw_cpp.Uri.{Uri}

-- `INTERNAL_SERVICE_NAMES` and its URI
abbrev pub internal_service_names : Bytes
internal_service_names = codes "/mmi.service"

abbrev pub internal_service_names_uri : Uri
internal_service_names_uri = record root_uri {
  str = internal_service_names;
  path = internal_service_names;
}

-- A reply to a client: through the REST server if there is one, or by the client's socket.
unfoldable pub reply_to : Client → Message → Broker → Result Broker
reply_to c m b =
    if bytes_eq c.id rest_source_id
    then ok (if b.rest_server then emit (rest_response m) b else b)
    else elim c.socket [ none ↦ err bad_optional | some s ↦ ok (emit (send s m) b) ]

abbrev pub fresh_worker : Socket → Message → ℕ → Broker → Worker
fresh_worker socket m now b = record {
  socket = socket;
  id = m.source_id;
  service_name = m.service_name;
  expiry = updated_worker_expiry now b;
}

-- the news of a new service, for whoever listens
abbrev pub service_notification : Broker → Message
service_notification b = record new_message {
  service_name = internal_service_names;
  topic = internal_service_names_uri;
  request_id = b.broker_name;
  source_id = internal_service_names;
}

-- Ready
unfoldable pub worker_ready : ℕ → Message → Worker → Broker → Result Broker
unfolding require_service worker_waiting register_new_service
worker_ready now m w b = do
  waiting ← worker_waiting now w.id (require_service m.service_name m.body b)
  registered ← register_new_service now m.service_name waiting
  ok (emit (send pub_socket (service_notification registered)) registered)

-- Partial and Final of a worker that is known: the reply goes to the client, and the worker waits.
-- The client's id stands in the service name.
unfoldable pub worker_replies : ℕ → Message → Worker → Broker → Result Broker
unfolding reply_to worker_waiting
worker_replies now m w b = elim (find bytes_discrete m.service_name b.clients) [
  | none ↦ ok b
  | some c ↦ do
    b' ←
        reply_to c
          (record m {
            source_id = m.service_name;
            service_name = w.service_name;
            protocol = client_protocol;
          })
          b
    worker_waiting now w.id b'
]

-- the switch over the command
unfoldable pub worker_command : ℕ → Command → Bool → Message → Worker → Broker → Result Broker
unfolding worker_ready worker_replies disconnect_worker notify_subscribers
worker_command now ready known m w b = worker_ready now m w b
worker_command now disconnect known m w b = ok b
worker_command now partial known m w b =
    if known then worker_replies now m w b else ok (disconnect_worker w b)
worker_command now final known m w b =
    if known then worker_replies now m w b else ok (disconnect_worker w b)
worker_command now notify known m w b = ok (
    notify_subscribers
      (record m { protocol = client_protocol; command = final; service_name = w.service_name }) b)
worker_command now heartbeat known m w b =
    if known
    then ok (record b {
      workers =
          modify bytes_discrete w.id
            (λ (old : Worker). record old { expiry = updated_worker_expiry now b }) b.workers;
    })
    else ok (disconnect_worker w b)
worker_command now invalid known m w b = ok b
worker_command now get known m w b = ok b
worker_command now set known m w b = ok b
worker_command now subscribe known m w b = ok b
worker_command now unsubscribe known m w b = ok b

-- `processWorker`: whoever sends becomes a worker of the service that the message names.
unfoldable pub process_worker : ℕ → Socket → Message → Broker → Result Broker
unfolding worker_command
process_worker now socket m b =
    let known = contains bytes_discrete m.source_id b.workers in
    let entered = record b {
      workers = try_emplace bytes_discrete m.source_id (fresh_worker socket m now b) b.workers;
    } in
    or_undefined (find bytes_discrete m.source_id entered.workers) >>= λ w.
    worker_command now m.command known m w entered
