-- ===== src/Broker.antt =====
-- src/majordomo/include/majordomo/Broker.hpp: the broker's data.
--
-- A worker is named by its id, the key of `_workers`: the pointers in a service's waiting list are
-- such ids. The messages that the broker sends, the filters that it sets on its subscription socket
-- and its calls of the REST server are listed in `sent`, oldest first.
pub mod Rbac
pub mod Queue
pub mod Subscriptions
pub mod Services
pub mod Workers
pub mod Dns
pub mod Notifications
pub mod WorkerMessages
pub mod Clients
pub mod Messages
pub mod Tests
use opencmw_cpp.Base.{
  ℕ, ◌+◌, ◌*◌, Bytes, codes, bytes_discrete, Bool, List, [], ◌∷◌, ◌++◌, Option, ℕ_discrete,
}
use opencmw_cpp.Uri.{Uri}
use opencmw_cpp.Topic.{Topic}
use opencmw_cpp.Matcher.{Filters}

-- `mdp::Command`
pub data Command : Type 0 where
  invalid get set partial final ready disconnect subscribe unsubscribe notify heartbeat : Command

-- `clientProtocol`, `workerProtocol` and any other protocol name
pub data Protocol : Type 0 where
  client_protocol worker_protocol other_protocol : Protocol

-- `mdp::BasicMessage<WithSourceId>`, without the fields that the broker does not read: id,
-- arrivalTime and timeout.
pub record Message : Type 0 where
  pub source_id : Bytes
  pub protocol : Protocol
  pub command : Command
  pub service_name : Bytes
  pub request_id : Bytes
  pub topic : Uri
  pub body : Bytes
  pub error : Bytes
  pub rbac : Bytes

-- the broker's sockets
pub data Socket : Type 0 where
  router_socket pub_socket sub_socket dns_socket : Socket

-- `Client`. A client that came through the REST server has no socket.
pub record Client : Type 0 where
  pub socket : Option Socket
  pub id : Bytes
  pub requests : List Message
  pub expiry : ℕ

pub record Worker : Type 0 where
  pub socket : Socket
  pub id : Bytes
  pub service_name : Bytes
  pub expiry : ℕ

-- the handlers of the internal services
pub data Internal : Type 0 where
  mmi_dns mmi_echo mmi_service mmi_openapi : Internal

-- `Service`. The queues stand in the order of their priority.
pub record Service : Type 0 where
  pub internal_handler : Option Internal
  pub name : Bytes
  pub description : Bytes
  pub waiting : List Bytes
  pub requests_by_priority : List (Bytes × List Message)
  pub request_count : ℕ

-- `DnsServiceItem`; the set of URIs by their texts
pub record DnsServiceItem : Type 0 where
  pub address : Bytes
  pub service_name : Bytes
  pub uris : List Bytes
  pub expiry : ℕ

-- `majordomo::Settings`, in milliseconds
pub record Settings : Type 0 where
  pub heartbeat_liveness : ℕ
  pub heartbeat_interval : ℕ
  pub client_timeout : ℕ
  pub dns_timeout : ℕ

pub data Effect : Type 0 where
  send : Socket → Message → Effect
  set_filter : Bytes → Effect
  unset_filter : Bytes → Effect
  rest_response : Message → Effect
  rest_notification : Topic → Message → Effect

pub record Broker : Type 0 where
  pub settings : Settings
  pub broker_name : Bytes
  -- the names of the template's roles, by priority
  pub roles : List Bytes
  -- whether there is a REST server
  pub rest_server : Bool
  pub heartbeat_at : ℕ
  pub filters : Filters
  pub rbac_handler : Option (Message → Message)
  pub subscribed_clients_by_topic : List (Topic × List Bytes)
  pub subscribed_topics : List (Topic × ℕ)
  pub clients : List (Bytes × Client)
  pub workers : List (Bytes × Worker)
  pub services : List (Bytes × Service)
  pub dns_cache : List (Bytes × DnsServiceItem)
  pub dns_addresses : List Bytes
  pub dns_heartbeat_at : ℕ
  pub sent : List Effect

unfoldable pub topic_discrete : Discrete Topic
unfolding bytes_discrete ℕ_discrete
topic_discrete = hlevel (bytes_discrete, ℕ_discrete)

-- one more effect
abbrev pub emit : Effect → Broker → Broker
emit e b = record b { sent = b.sent ++ e ∷ [] }

-- `kRestSourceId`
abbrev pub rest_source_id : Bytes
rest_source_id = codes "rest"

-- `_rbac`
abbrev pub broker_rbac : Bytes
broker_rbac = codes "RBAC=ADMIN,abcdef12345"

-- `updatedClientExpiry`, `updatedWorkerExpiry`, `updatedDnsExpiry`
abbrev pub updated_client_expiry : ℕ → Broker → ℕ
updated_client_expiry now b = now + b.settings.client_timeout

abbrev pub updated_worker_expiry : ℕ → Broker → ℕ
updated_worker_expiry now b = now + b.settings.heartbeat_interval * b.settings.heartbeat_liveness

abbrev pub updated_dns_expiry : ℕ → Broker → ℕ
updated_dns_expiry now b = now + b.settings.dns_timeout * b.settings.heartbeat_liveness

abbrev pub root_uri : Uri
root_uri = record {
  str = codes "/";
  scheme = [];
  authority = [];
  path = codes "/";
  query = [];
  fragment = [];
}

-- a message as it is constructed
abbrev pub new_message : Message
new_message = record {
  source_id = [];
  protocol = other_protocol;
  command = invalid;
  service_name = codes "/";
  request_id = [];
  topic = root_uri;
  body = [];
  error = [];
  rbac = [];
}
