-- ===== src/Worker.antt =====
-- src/majordomo/include/majordomo/Worker.hpp: `BasicWorker`, its data, the messages that it makes and
-- the notifications that its threads hand over.
--
-- What the handler, the predicate and the formatting of a body do is given by functions. What a
-- thread pushes to the listener socket stands in `notifications` until it is received, and what the
-- worker sends to the broker is listed in `sent`, oldest first.
pub mod Requests
pub mod Receive
pub mod Run
pub mod Tests
use opencmw_cpp.Base.{
  ℕ, ◌+◌, ltb, Bytes, codes, ℕ_discrete, Bool, true, false, List, [], ◌∷◌, ◌++◌, Option,
  try_emplace, modify, if◌then◌else◌,
}
use opencmw_cpp.Topic.{Topic}
use opencmw_cpp.Matcher.{Filters}
use opencmw_cpp.Broker.{
  Message, Settings, Command, worker_protocol, final, ready, disconnect, notify, heartbeat,
  new_message,
}

-- `Permission`
pub data Permission : Type 0 where
  read_write read_only write_only no_access : Permission

-- how a call of the handler ends: with the reply as it left it, with a std::exception and its text,
-- or with another exception
pub data Handled : Type 0 where
  replied : Message → Handled
  threw : Bytes → Handled
  threw_unknown : Handled

pub record BasicWorker : Type 0 where
  pub settings : Settings
  pub name : Bytes
  pub description : Bytes
  -- the roles of the template's arguments, without ADMIN, which always stands in front
  pub roles : List (Bytes × Permission)
  -- called with the request and the reply
  pub handler : Message → Message → Handled
  pub rbac_predicate : Option (Bytes → Bool)
  -- how a body is printed in an error text
  pub format_data : Bytes → Bytes
  pub filters : Filters
  pub shutdown_requested : Bool
  -- 0 stands for 0 and below
  pub liveness : ℕ
  pub heartbeat_at : ℕ
  -- whether there are `_workerSocket` and `_pubSocket`
  pub has_worker_socket : Bool
  pub has_pub_socket : Bool
  pub active_subscriptions : List Topic
  -- when the handler of a thread was last used
  pub notification_handlers : List (ℕ × ℕ)
  pub notifications : List Message
  pub sent : List Message

-- `_defaultRbacToken`
abbrev pub default_rbac_token : Bytes
default_rbac_token = codes "RBAC=NONE,"

-- `createMessage`
unfoldable pub create_message : Command → BasicWorker → Message
create_message command w = record new_message {
  protocol = worker_protocol;
  command = command;
  service_name = w.name;
  rbac = default_rbac_token;
}

-- `replyFromRequest`
unfoldable pub reply_from_request : Message → Message
reply_from_request request = record new_message {
  protocol = request.protocol;
  command = final;
  service_name = request.service_name;
  request_id = request.request_id;
  topic = request.topic;
  rbac = request.rbac;
}

abbrev pub send_to_broker : Message → BasicWorker → BasicWorker
send_to_broker m w = record w { sent = w.sent ++ m ∷ [] }

-- `notificationHandlerForThisThread`: a thread that is not known gets a handler that was not used.
unfoldable pub notification_handler : ℕ → BasicWorker → BasicWorker
notification_handler thread w = record w {
  notification_handlers = try_emplace ℕ_discrete thread 0 w.notification_handlers;
}

-- what `notify` makes of a message
abbrev pub notification : Message → BasicWorker → Message
notification m w = record m {
  protocol = worker_protocol;
  command = notify;
  service_name = w.name;
  rbac = default_rbac_token;
}

-- `NotificationHandler::send`
unfoldable pub handler_send : ℕ → ℕ → Message → BasicWorker → BasicWorker
handler_send now thread m w = record w {
  notification_handlers = modify ℕ_discrete thread (λ last_used. now) w.notification_handlers;
  notifications = w.notifications ++ m ∷ [];
}

-- `notify`, called by a thread
unfoldable pub notify_from : ℕ → ℕ → Message → BasicWorker → BasicWorker
notify_from now thread m w =
    handler_send now thread (notification m w) (notification_handler thread w)

-- `cleanupNotificationHandlers`: what was not used for 30 seconds goes.
unfoldable pub unexpired : ℕ → List (ℕ × ℕ) → List (ℕ × ℕ)
unexpired now [] = []
unexpired now ((thread, last_used) ∷ handlers) =
    let rest = unexpired now handlers in
    if ltb (last_used + 30000) now then rest else (thread, last_used) ∷ rest

unfoldable pub cleanup_notification_handlers : ℕ → BasicWorker → BasicWorker
cleanup_notification_handlers now w = record w {
  notification_handlers = unexpired now w.notification_handlers;
}

-- `shutdown`
unfoldable pub shutdown : BasicWorker → BasicWorker
shutdown w = record w { shutdown_requested = true }
