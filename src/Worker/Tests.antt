-- ===== src/Worker/Tests.antt =====
-- The worker at a service /dev with one subscription, and what it does when the broker is gone.
use opencmw_cpp.Base.{
  ℕ, ◌≡◌, refl, ◌⊎◌, ◌++◌, codes, false, true, [], ◌∷◌, none, some, ok, err, undefined, find,
  has_key, has, find_index, starts_with, arith, map, bytes_eq,
}
use opencmw_cpp.Uri.{strict}
use opencmw_cpp.Uri.Query.{query_param_map}
use opencmw_cpp.Topic.{
  Topic, from_mdp_topic, make_topic, topic_params, parse_service, strip_end, before_query,
  is_valid_service_name, ends_with,
}
use opencmw_cpp.Topic.ParamMap.{insert_all}
use opencmw_cpp.Broker.{
  root_uri, Broker, Message, Settings, set, disconnect, worker_protocol, client_protocol,
  new_message,
}
use opencmw_cpp.Broker.Subscriptions.Laws.{AreCounted, are_counted}
use opencmw_cpp.Worker.{read_only, write_only, replied, BasicWorker}
use opencmw_cpp.Worker.Requests.{process_request, run_handler}
use opencmw_cpp.Worker.Requests.Laws.{IsAllowed, IsRefused, process_request-IsGuarded}
use opencmw_cpp.Worker.Receive.{
  Poll, receive_messages, notify_all, receive_dealer_message, handle_dealer_message, dealer_command,
  connect_to_broker, receive_subscription_message,
}
use opencmw_cpp.Worker.Receive.Mirror.{IsReadable, Mirrors}
use opencmw_cpp.Worker.Receive.Follow.{IsFollowed, changes, changes-IsFollowed}
use opencmw_cpp.Worker.Receive.Forward.{IsForwardedFor, forward-IsForwardedFor}
use opencmw_cpp.Worker.Run.{Beat, Round, run_rounds}
use opencmw_cpp.Worker.Run.Connected.{IsConnected}
use opencmw_cpp.Worker.Run.Laws.{HasRun, run_rounds-total}
use opencmw_cpp.Worker.Run.Silence.{quiet, heartbeats, ready_message, run_rounds_silent}

abbrev dev_topic : Topic
dev_topic = record { service = codes "/dev"; params = [] }

abbrev dev_settings : Settings
dev_settings = record {
  heartbeat_liveness = 3;
  heartbeat_interval = 1000;
  client_timeout = 10000;
  dns_timeout = 10000;
}

-- a worker that lets a reader read and a writer write, and whose handler answers with "42"
abbrev dev_worker : BasicWorker
dev_worker = record {
  settings = dev_settings;
  name = codes "/dev";
  description = [];
  roles = (codes "WRITER", write_only) ∷ (codes "READER", read_only) ∷ [];
  handler = λ request reply. replied (record reply { body = codes "42" });
  rbac_predicate = none;
  format_data = λ body. body;
  filters = [];
  shutdown_requested = false;
  liveness = 2;
  heartbeat_at = 0;
  has_worker_socket = true;
  has_pub_socket = true;
  active_subscriptions = dev_topic ∷ [];
  notification_handlers = [];
  notifications = [];
  sent = [];
}

abbrev dev_broker : Broker
dev_broker = record {
  settings = dev_settings;
  broker_name = codes "/broker";
  roles = [];
  rest_server = false;
  heartbeat_at = 0;
  filters = [];
  rbac_handler = none;
  subscribed_clients_by_topic = [];
  subscribed_topics = (dev_topic, 1) ∷ [];
  clients = [];
  workers = [];
  services = [];
  dns_cache = [];
  dns_addresses = [];
  dns_heartbeat_at = 0;
  sent = [];
}

abbrev write_request : Message
write_request = record new_message {
  protocol = worker_protocol;
  command = set;
  service_name = codes "client";
  rbac = codes "RBAC=READER,1234";
}

process_request-IsGuarded_example :
    (IsAllowed dev_worker write_request
      × (process_request dev_worker write_request ≡ run_handler dev_worker write_request))
    ⊎ IsRefused dev_worker write_request
process_request-IsGuarded_example = process_request-IsGuarded dev_worker write_request

dev_topic-IsReadable : IsReadable dev_topic
unfolding is_valid_service_name starts_with ends_with
dev_topic-IsReadable = record { valid = refl; sorted = tt; are_params = tt; are_plain = tt }

dev_broker-AreCounted : AreCounted dev_broker
unfolding find
dev_broker-AreCounted = are_counted (λ t n e. ground (arith, e))

dev_worker-Mirrors : Mirrors dev_broker dev_worker
unfolding find has_key
dev_worker-Mirrors = record { mirrored = λ u own. ground arith }

changes-IsFollowed_example :
    IsFollowed dev_broker
      (changes ((true, dev_topic) ∷ (false, dev_topic) ∷ []) dev_broker)
      dev_worker
changes-IsFollowed_example =
    changes-IsFollowed ((true, dev_topic) ∷ (false, dev_topic) ∷ []) dev_broker dev_worker
      (dev_topic-IsReadable, (dev_topic-IsReadable, tt)) refl dev_broker-AreCounted
      dev_worker-Mirrors

abbrev news : Message
news = record new_message { topic = record root_uri { str = codes "/dev"; path = codes "/dev" } }

news_read : from_mdp_topic strict news.topic ≡ ok dev_topic
unfolding from_mdp_topic query_param_map insert_all make_topic topic_params parse_service strip_end
    before_query is_valid_service_name starts_with ends_with has find_index
news_read = refl

forward-IsForwardedFor_example :
    IsForwardedFor news (record news { protocol = client_protocol }) dev_topic dev_worker dev_broker
forward-IsForwardedFor_example =
    forward-IsForwardedFor news (record news { protocol = client_protocol }) dev_worker dev_broker
      dev_topic news_read refl refl refl refl dev_broker-AreCounted dev_worker-Mirrors

-- a poll that finds a request, and a notification by a thread
abbrev busy_poll : Poll
busy_poll = record {
  notified = (5, 1, news) ∷ [];
  dealer = some write_request;
  frame = none;
  now = 5;
  router_connects = true;
  pub_connects = true;
}

abbrev beat_at : ℕ → Beat
beat_at now = record {
  checked_at = now;
  connected_at = now;
  sent_at = now;
  renewed_at = now;
  router_connects = true;
  pub_connects = true;
}

abbrev busy_round : Round
busy_round = record { polls = busy_poll ∷ []; beat = beat_at 10; poll_is_valid = false }

dev_worker-IsConnected : IsConnected dev_worker
dev_worker-IsConnected = record { worker_socket = refl; pub_socket = refl; are_notifications = tt }

run_rounds-total_example : HasRun (busy_round ∷ []) (run_rounds (busy_round ∷ []) dev_worker)
run_rounds-total_example =
    run_rounds-total (busy_round ∷ []) dev_worker
      (
        (
          (record { router = refl; publisher = refl; notified = ((dev_topic, news_read), tt) }, tt),
          record { router = refl; publisher = refl },
        ),
        tt,
      )
      dev_worker-IsConnected refl

run_rounds_silent_example :
    (w' : BasicWorker) × (run_rounds
        (map quiet (beat_at 10 ∷ []) ++ quiet (beat_at 2000) ∷ [])
        dev_worker
      ≡ ok (w', true))
    × (w'.sent ≡ [] ++ heartbeats 1 dev_worker ++ ready_message dev_worker ∷ [])
    × (w'.liveness ≡ 3)
run_rounds_silent_example =
    run_rounds_silent (beat_at 10 ∷ []) (beat_at 2000) dev_worker
      (record { worker_socket = refl; pub_socket = refl; no_notification = refl; runs = refl }) refl
      (omega arith, omega arith, tt)
      (record { due = omega arith; router = refl; publisher = refl; in_time = omega arith })

-- The broker is stopped and asks the worker to disconnect.
abbrev lost_poll : Poll
lost_poll = record {
  notified = [];
  dealer = some (record new_message { protocol = worker_protocol; command = disconnect });
  frame = none;
  now = 5;
  router_connects = false;
  pub_connects = false;
}

-- The connection is refused, and the socket that was reset is read in the same round.
lost_socket_is_read : receive_messages lost_poll dev_worker ≡ err undefined
unfolding receive_messages notify_all receive_dealer_message handle_dealer_message dealer_command
    connect_to_broker receive_subscription_message bytes_eq
lost_socket_is_read = refl
