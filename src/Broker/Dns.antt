-- ===== src/Broker/Dns.antt =====
-- The registration of the broker and its services with the name service.
use opencmw_cpp.Base.{
  ℕ, ◌+◌, Bytes, codes, bytes_discrete, bytes_eq, Bool, true, false, ◌||◌, ◌==◌, ltb, List, [], ◌∷◌,
  ◌++◌, modify, try_emplace, add_key, Result, ok, ◌>>=◌, if◌then◌else◌,
}
use opencmw_cpp.Uri.{Uri, strict, relaxed}
use opencmw_cpp.Uri.Parse.{parse_uri}
use opencmw_cpp.Broker.{
  Broker, Message, Service, DnsServiceItem, send, dns_socket, router_socket, client_protocol, ready,
  heartbeat, new_message, broker_rbac, updated_dns_expiry, emit,
}

-- `detail::stripStart`
unfoldable pub strip_start : (ℕ → Bool) → Bytes → Bytes
strip_start p [] = []
strip_start p (c ∷ s) = let rest = strip_start p s in if p c then rest else c ∷ s

abbrev pub new_dns_item : Bytes → Bytes → DnsServiceItem
new_dns_item address service_name = record {
  address = address;
  service_name = service_name;
  uris = [];
  expiry = 0;
}

-- `createDnsReadyMessage`
abbrev pub dns_ready_message : Broker → Message
dns_ready_message b = record new_message {
  protocol = client_protocol;
  command = ready;
  service_name = b.broker_name;
  request_id = codes "clientID";
  rbac = broker_rbac;
}

-- `registerWithDnsServices`. The message goes out without its source id.
unfoldable pub register_with_dns : ℕ → Message → Broker → Result Broker
register_with_dns now m b = do
  _ ← parse_uri relaxed m.topic.str
  let item = λ (i : DnsServiceItem). record i {
    uris = add_key bytes_discrete m.topic.str i.uris;
    expiry = updated_dns_expiry now b;
  }
  ok (
      emit (send dns_socket m) (record b {
        dns_cache =
            modify bytes_discrete b.broker_name item (
              try_emplace bytes_discrete b.broker_name (new_dns_item [] b.broker_name) b.dns_cache);
      }))

-- the topic of a ready message, and its registration
unfoldable pub register_address : ℕ → Bytes → Broker → Result Broker
unfolding register_with_dns
register_address now address b = do
  topic ← parse_uri strict address
  register_with_dns now (record (dns_ready_message b) { topic = topic }) b

-- `registerNewService`, over the addresses
unfoldable pub register_service_at : ℕ → Bytes → List Bytes → Broker → Result Broker
unfolding register_address strip_start
register_service_at now name [] b = ok b
register_service_at now name (address ∷ addresses) b = do
  b' ← register_address now (address ++ b'/' ∷ strip_start (λ c. c == b'/') name) b
  register_service_at now name addresses b'

unfoldable pub register_new_service : ℕ → Bytes → Broker → Result Broker
unfolding register_service_at
register_new_service now name b = register_service_at now name b.dns_addresses b

unfoldable pub register_addresses : ℕ → List Bytes → Broker → Result Broker
unfolding register_address
register_addresses now [] b = ok b
register_addresses now (address ∷ addresses) b = do
  b' ← register_address now address b
  register_addresses now addresses b'

unfoldable pub register_services : ℕ → List (Bytes × Service) → Broker → Result Broker
unfolding register_new_service
register_services now [] b = ok b
register_services now ((name, s) ∷ services) b = do
  b' ← register_new_service now name b
  register_services now services b'

-- `sendDnsHeartbeats`
unfoldable pub send_dns_heartbeats : ℕ → Bool → Broker → Result Broker
unfolding register_addresses register_services
send_dns_heartbeats now force b =
    if ltb b.dns_heartbeat_at now || force
    then (register_addresses now b.dns_addresses b >>= λ b'. register_services now b'.services b')
    else ok b

-- `registerDnsAddress`
unfoldable pub register_dns_address : ℕ → Uri → Broker → Result Broker
unfolding send_dns_heartbeats
register_dns_address now address b = do
  _ ← parse_uri relaxed address.str
  send_dns_heartbeats now true (record b {
    dns_addresses = add_key bytes_discrete address.str b.dns_addresses;
    dns_cache =
        modify bytes_discrete b.broker_name
          (λ (i : DnsServiceItem). record i { uris = add_key bytes_discrete address.str i.uris })
          (try_emplace bytes_discrete b.broker_name (new_dns_item [] b.broker_name) b.dns_cache);
  })

-- The loop of `purgeDnsServices`: the broker's own entries are renewed, the others are challenged.
unfoldable pub challenge_services :
    ℕ → List (Bytes × DnsServiceItem) → Broker → List (Bytes × DnsServiceItem) × Broker
challenge_services now [] b = ([], b)
challenge_services now ((key, item) ∷ items) b =
    if bytes_eq item.service_name b.broker_name
    then (let (rest, b') = challenge_services now items b in
        ((key, record item { expiry = updated_dns_expiry now b }) ∷ rest, b'))
    else (let (rest, b') = challenge_services now items (
          emit
            (send router_socket (record new_message {
              protocol = client_protocol;
              command = heartbeat;
              request_id = codes "dnsChallenge";
              rbac = broker_rbac;
              source_id = item.address;
              service_name = item.service_name;
            }))
            b) in
        ((key, item) ∷ rest, b'))

unfoldable pub drop_expired_items :
    ℕ → List (Bytes × DnsServiceItem) → List (Bytes × DnsServiceItem)
drop_expired_items now [] = []
drop_expired_items now ((key, item) ∷ items) =
    let rest = drop_expired_items now items in
    if ltb item.expiry now then rest else (key, item) ∷ rest

-- `purgeDnsServices`
unfoldable pub purge_dns_services : ℕ → Broker → Result Broker
unfolding send_dns_heartbeats challenge_services drop_expired_items
purge_dns_services now b =
    if ltb now b.dns_heartbeat_at
    then ok b
    else (send_dns_heartbeats now false b >>= λ b1.
        let (items, b2) = challenge_services now b1.dns_cache b1 in
        ok (record b2 {
          dns_cache = drop_expired_items now items;
          dns_heartbeat_at = now + b.settings.dns_timeout;
        }))
