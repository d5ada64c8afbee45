-- ===== src/Broker/Tests.antt =====
-- The theorems on the broker at a broker with one client, one worker and one service.
use opencmw_cpp.Base.{
  modify, add_key, remove_key, starts_with, has, find_index, ◌+◌, ◌-◌, ◌≡◌, refl, ◌⊎◌, codes,
  bytes_discrete, false, List, [], ◌∷◌, ◌++◌, none, some, ite, find, has_key, arith, ok, err,
  undefined,
}
use opencmw_cpp.Uri.{Uri, strict}
use opencmw_cpp.Uri.Query.{query_param_map}
use opencmw_cpp.Topic.{
  Topic, from_mdp_topic, make_topic, topic_params, parse_service, strip_end, before_query,
  is_valid_service_name, ends_with,
}
use opencmw_cpp.Topic.ParamMap.{insert_all}
use opencmw_cpp.Broker.Notifications.{notify_subscribers}
use opencmw_cpp.Broker.Notifications.Laws.{published, matching_names, published-notify_subscribers}
use opencmw_cpp.Broker.Subscriptions.Holders.{subscribers_change}
use opencmw_cpp.Broker.{
  root_uri, Broker, Message, Client, Worker, Service, Effect, get, client_protocol, router_socket,
  topic_discrete, new_message,
}
use opencmw_cpp.Broker.Queue.{put_message, take_next_message}
use opencmw_cpp.Broker.Queue.Laws.{IsCounted, queue_operations-IsCounted}
use opencmw_cpp.Broker.Subscriptions.{
  count, subscribe, unsubscribe, subscribers, add_subscriber, remove_subscriber,
}
use opencmw_cpp.Broker.Subscriptions.Laws.{
  AreCounted, are_counted, filter_set, filter_unset, subscriptions_effect,
}
use opencmw_cpp.Broker.Services.{remove_slash, best_matching_service}
use opencmw_cpp.Broker.Services.Laws.{IsMatch, best_matching_service-IsMatch}
use opencmw_cpp.Broker.Workers.{
  enqueue_worker, Workers, purge_waiting, purge_workers, dispatch_loop,
}
use opencmw_cpp.Broker.Workers.Invariant.{
  AreWaitingKnown, AreAlive, waiting_ids, purge_workers-total, purge_waiting_twice,
}
use opencmw_cpp.Broker.Workers.Dispatch.{IsDispatched, dispatch_loop-total}
use opencmw_cpp.Broker.Messages.{queue_request}
use opencmw_cpp.Broker.Messages.Laws.{queue_request_known}

abbrev dev_topic : Topic
dev_topic = record { service = codes "/dev"; params = [] }

abbrev request : Message
request = record new_message {
  protocol = client_protocol;
  command = get;
  source_id = codes "c";
  service_name = codes "/dev/x";
}

abbrev dev_worker : Worker
dev_worker = record {
  socket = router_socket;
  id = codes "w";
  service_name = codes "/dev";
  expiry = 10;
}

abbrev dev_client : Client
dev_client = record { socket = some router_socket; id = codes "c"; requests = []; expiry = 10 }

-- one worker waits, and one request
abbrev dev_service : Service
dev_service = record {
  internal_handler = none;
  name = codes "/dev";
  description = [];
  waiting = codes "w" ∷ [];
  requests_by_priority = (codes "ADMIN", []) ∷ ([], request ∷ []) ∷ [];
  request_count = 1;
}

abbrev dev_workers : Workers
dev_workers = (codes "w", dev_worker) ∷ []

abbrev dev_broker : Broker
dev_broker = record {
  settings = record {
    heartbeat_liveness = 3;
    heartbeat_interval = 1000;
    client_timeout = 10000;
    dns_timeout = 10000;
  };
  broker_name = codes "/broker";
  roles = codes "ADMIN" ∷ [] ∷ [];
  rest_server = false;
  heartbeat_at = 0;
  filters = [];
  rbac_handler = none;
  subscribed_clients_by_topic = [];
  subscribed_topics = (dev_topic, 1) ∷ [];
  clients = (codes "c", dev_client) ∷ [];
  workers = dev_workers;
  services = (codes "/dev", dev_service) ∷ [];
  dns_cache = [];
  dns_addresses = [];
  dns_heartbeat_at = 0;
  sent = [];
}

dev_service-IsCounted : IsCounted dev_service
dev_service-IsCounted = record { counted = refl; has_queue = λ e. cc }

dev_broker-AreCounted : AreCounted dev_broker
unfolding find
dev_broker-AreCounted = are_counted (λ t n e. ground (arith, e))

best_matching_service-IsMatch_example :
    IsMatch
      (remove_slash (codes "/dev/x"))
      dev_broker.services
      (best_matching_service (codes "/dev/x") dev_broker)
best_matching_service-IsMatch_example = best_matching_service-IsMatch (codes "/dev/x") dev_broker

dev_broker-AreWaitingKnown : AreWaitingKnown dev_broker
unfolding find has_key bytes_discrete
dev_broker-AreWaitingKnown = ((dev_worker, refl), refl, tt)

purge_workers-total_example :
    (b' : Broker) × (purge_workers 11 dev_broker ≡ ok b')
    × AreWaitingKnown b'
    × AreAlive 11 (waiting_ids b'.services) b'.workers
purge_workers-total_example = purge_workers-total 11 dev_broker dev_broker-AreWaitingKnown

dev_worker_found : find bytes_discrete (codes "w") dev_workers ≡ some dev_worker
unfolding find bytes_discrete
dev_worker_found = refl

purge_waiting_twice_example :
    purge_waiting 11 (codes "w" ∷ codes "w" ∷ []) dev_workers ≡ err undefined
purge_waiting_twice_example =
    purge_waiting_twice 11 (codes "w") [] dev_workers dev_worker dev_worker_found refl

dispatch_loop-total_example :
    (s' : Service) × (effects : List Effect) × (dispatch_loop dev_workers 1 dev_service
      ≡ ok (s', effects))
    × IsDispatched dev_service s' effects
dispatch_loop-total_example =
    dispatch_loop-total dev_workers 1 dev_service dev_service-IsCounted dev_broker-AreWaitingKnown
      (omega arith)

dev_client_found : find bytes_discrete (codes "c") dev_broker.clients ≡ some dev_client
unfolding find bytes_discrete
dev_client_found = refl

queue_request_known_example :
    find bytes_discrete (codes "c") (queue_request dev_client request dev_broker).clients
    ≡ some (record dev_client { requests = request ∷ [] })
queue_request_known_example =
    queue_request_known dev_client dev_client request dev_broker dev_client_found

abbrev dev_uri : Uri
dev_uri = record root_uri { str = codes "/dev"; path = codes "/dev" }

abbrev news : Message
news = record new_message { topic = dev_uri }

dev_uri_read : from_mdp_topic strict dev_uri ≡ ok dev_topic
unfolding from_mdp_topic query_param_map insert_all make_topic topic_params parse_service strip_end
    before_query is_valid_service_name starts_with ends_with has find_index
dev_uri_read = refl

published-notify_subscribers_example :
    published (notify_subscribers news dev_broker).sent
    ≡ [] ++ matching_names [] dev_topic ((dev_topic, 1) ∷ [])
published-notify_subscribers_example =
    published-notify_subscribers news dev_broker dev_topic dev_uri_read

-- a worker that waits is entered once more
enqueued_twice :
    find bytes_discrete
      (codes "/dev")
      (enqueue_worker 0 (codes "w") (codes "/dev") dev_broker).services
    ≡ some (record dev_service { waiting = codes "w" ∷ codes "w" ∷ [] })
unfolding enqueue_worker find modify bytes_discrete
enqueued_twice = refl

queue_operations-IsCounted_example :
    IsCounted (put_message request dev_service)
    × (((dev_service.request_count ≡ 0) × (take_next_message dev_service ≡ none))
        ⊎ ((m : Message) × (s' : Service) × (take_next_message dev_service ≡ some (m, s'))
            × (s'.request_count + 1 ≡ dev_service.request_count)
            × IsCounted s'))
queue_operations-IsCounted_example =
    queue_operations-IsCounted request dev_service dev_service-IsCounted

subscriptions_effect_example :
    ((u : Topic)
      → (count u (subscribe dev_topic dev_broker)
          ≡ ite (topic_discrete dev_topic u) (count u dev_broker + 1) (count u dev_broker))
        × (count u (unsubscribe dev_topic dev_broker)
            ≡ ite (topic_discrete dev_topic u) (count u dev_broker - 1) (count u dev_broker)))
    × ((subscribe dev_topic dev_broker).sent
        ≡ [] ++ filter_set (count dev_topic dev_broker) dev_topic)
    × ((unsubscribe dev_topic dev_broker).sent
        ≡ [] ++ filter_unset (count dev_topic dev_broker) dev_topic)
    × AreCounted (subscribe dev_topic dev_broker)
    × AreCounted (unsubscribe dev_topic dev_broker)
subscriptions_effect_example = subscriptions_effect dev_topic dev_broker dev_broker-AreCounted

subscribers_change_example :
    (subscribers dev_topic (add_subscriber dev_topic (codes "c") dev_broker)
      ≡ ite
          (topic_discrete dev_topic dev_topic)
          (add_key bytes_discrete (codes "c") (subscribers dev_topic dev_broker))
          (subscribers dev_topic dev_broker))
    × (subscribers dev_topic (remove_subscriber dev_topic (codes "c") dev_broker)
        ≡ ite
            (topic_discrete dev_topic dev_topic)
            (remove_key bytes_discrete (codes "c") (subscribers dev_topic dev_broker))
            (subscribers dev_topic dev_broker))
subscribers_change_example = subscribers_change dev_topic dev_topic (codes "c") dev_broker
