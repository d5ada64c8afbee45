-- ===== src/Broker/Messages.antt =====
-- What the broker does with the messages that arrive, and the rounds of its loop.
pub mod Laws
use opencmw_cpp.Base.{
  ℕ, ◌+◌, Bytes, codes, bytes_discrete, Bool, true, false, not, ◌==◌, ltb, List, [], ◌∷◌, ◌++◌,
  Option, none, some, find, try_emplace, modify, add_key, is_empty, Result, ok, err, ◌>>=◌,
  if◌then◌else◌,
}
use opencmw_cpp.Uri.{relaxed}
use opencmw_cpp.Uri.Parse.{parse_uri}
use opencmw_cpp.Broker.{
  Broker, Message, Client, Service, Worker, DnsServiceItem, Socket, Command, Protocol, Effect, send,
  router_socket, client_protocol, worker_protocol, other_protocol, new_message, rest_source_id,
  broker_rbac, updated_client_expiry, updated_dns_expiry, invalid, get, set, partial, final, ready,
  disconnect, subscribe, unsubscribe, notify, heartbeat,
}
use opencmw_cpp.Broker.Subscriptions.{client_subscribes, client_unsubscribes}
use opencmw_cpp.Broker.Workers.{or_undefined, purge_workers}
use opencmw_cpp.Broker.Dns.{new_dns_item, send_dns_heartbeats, purge_dns_services}
use opencmw_cpp.Broker.WorkerMessages.{process_worker}
use opencmw_cpp.Broker.Clients.{process_clients, purge_clients}

-- A request goes to the end of its client's queue. A client that is not known is entered.
unfoldable pub queue_request : Client → Message → Broker → Broker
queue_request fresh m b = record b {
  clients =
      modify bytes_discrete m.source_id
        (λ (c : Client). record c { requests = c.requests ++ m ∷ [] })
        (try_emplace bytes_discrete m.source_id fresh b.clients);
}

abbrev pub rest_client : Message → Client
rest_client m = record { socket = none; id = m.source_id; requests = []; expiry = 0 }

abbrev pub socket_client : ℕ → Socket → Message → Broker → Client
socket_client now socket m b = record {
  socket = some socket;
  id = m.source_id;
  requests = [];
  expiry = updated_client_expiry now b;
}

-- the switch of `handleRestMessage`
unfoldable pub rest_command : Command → Message → Broker → Broker
unfolding queue_request client_subscribes client_unsubscribes
rest_command get m b = queue_request (rest_client m) m b
rest_command set m b = queue_request (rest_client m) m b
rest_command subscribe m b = (client_subscribes m b).0
rest_command unsubscribe m b = (client_unsubscribes m b).0
rest_command invalid m b = b
rest_command partial m b = b
rest_command final m b = b
rest_command ready m b = b
rest_command disconnect m b = b
rest_command notify m b = b
rest_command heartbeat m b = b

-- `handleRestMessage`
unfoldable pub handle_rest_message : Message → Broker → Broker
unfolding rest_command
handle_rest_message m b =
    rest_command m.command (record m { source_id = rest_source_id; protocol = client_protocol }) b

-- Ready of a client: another broker registers a service. A topic without a scheme is ignored.
unfoldable pub register_item : ℕ → Message → Broker → Result (Broker × Bool)
register_item now m b = parse_uri relaxed m.topic.str >>= λ uri. ok (
  if is_empty uri.scheme then b else record b {
    dns_cache =
        modify bytes_discrete m.service_name
          (λ (i : DnsServiceItem). record i {
            uris = add_key bytes_discrete m.topic.str i.uris;
            expiry = updated_dns_expiry now b;
          })
          (try_emplace bytes_discrete m.service_name (new_dns_item m.source_id m.service_name)
            b.dns_cache);
  },
  true,
)

abbrev pub queued : ℕ → Socket → Message → Broker → Result (Broker × Bool)
queued now socket m b = ok (queue_request (socket_client now socket m b) m b, true)

-- the switch of `receiveMessage` for a client
unfoldable pub client_command : ℕ → Socket → Command → Message → Broker → Result (Broker × Bool)
unfolding register_item client_subscribes client_unsubscribes queue_request send_dns_heartbeats
client_command now socket ready m b = register_item now m b
client_command now socket subscribe m b = ok (client_subscribes m b)
client_command now socket unsubscribe m b = ok (client_unsubscribes m b)
client_command now socket heartbeat m b =
    send_dns_heartbeats now true b >>= λ b'. queued now socket m b'
client_command now socket get m b = queued now socket m b
client_command now socket set m b = queued now socket m b
client_command now socket invalid m b = queued now socket m b
client_command now socket partial m b = queued now socket m b
client_command now socket final m b = queued now socket m b
client_command now socket disconnect m b = queued now socket m b
client_command now socket notify m b = queued now socket m b

abbrev pub by_protocol : ℕ → Socket → Protocol → Message → Broker → Result (Broker × Bool)
by_protocol now socket client_protocol m b = client_command now socket m.command m b
by_protocol now socket worker_protocol m b = process_worker now socket m b >>= λ b'. ok (b', true)
by_protocol now socket other_protocol m b = process_worker now socket m b >>= λ b'. ok (b', true)

-- `receiveMessage`, with what the socket gave
unfoldable pub receive_message : ℕ → Socket → Option Message → Broker → Result (Broker × Bool)
unfolding client_command process_worker
receive_message now socket none b = ok (b, false)
receive_message now socket (some m) b = by_protocol now socket m.protocol m b

-- the heartbeats to the workers that wait for one service
unfoldable pub heartbeats_to : List (Bytes × Worker) → List Bytes → Result (List Effect)
heartbeats_to ws [] = ok []
heartbeats_to ws (id ∷ ids) = do
  w ← or_undefined (find bytes_discrete id ws)
  rest ← heartbeats_to ws ids
  ok (
      send w.socket (record new_message {
        protocol = worker_protocol;
        command = heartbeat;
        source_id = w.id;
        service_name = w.service_name;
        rbac = broker_rbac;
      })
      ∷ rest)

unfoldable pub all_heartbeats :
    List (Bytes × Worker) → List (Bytes × Service) → Result (List Effect)
unfolding heartbeats_to
all_heartbeats ws [] = ok []
all_heartbeats ws ((name, s) ∷ services) = do
  effects ← heartbeats_to ws s.waiting
  rest ← all_heartbeats ws services
  ok (effects ++ rest)

-- `sendHeartbeats`
unfoldable pub send_heartbeats : ℕ → Broker → Result Broker
unfolding all_heartbeats
send_heartbeats now b =
    if ltb now b.heartbeat_at
    then ok b
    else (all_heartbeats b.workers b.services >>= λ effects.
        ok (record b {
          sent = b.sent ++ effects;
          heartbeat_at = now + b.settings.heartbeat_interval;
        }))

-- the maintenance of every tenth round
unfoldable pub maintain : ℕ → Broker → Result Broker
unfolding purge_workers purge_clients send_heartbeats purge_dns_services
maintain now b = do
  b1 ← purge_workers now b
  b2 ← send_heartbeats now (purge_clients now b1)
  purge_dns_services now b2
