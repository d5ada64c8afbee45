-- ===== src/Broker/Services.antt =====
-- The services that the broker knows, and the one that serves a name.
pub mod Laws
use opencmw_cpp.Base.{
  ℕ, Bytes, codes, Bool, true, false, not, ◌||◌, ◌&&◌, ◌==◌, ltb, List, [], ◌∷◌, Option, none, some,
  try_emplace, starts_with, length, bytes_lt, bytes_discrete, if◌then◌else◌,
}
use opencmw_cpp.Broker.{Broker, Service, Internal}
use opencmw_cpp.Broker.Queue.{make_priority_queue}

abbrev pub new_service : List Bytes → Option Internal → Bytes → Bytes → Service
new_service roles handler name description = record {
  internal_handler = handler;
  name = name;
  description = description;
  waiting = [];
  requests_by_priority = make_priority_queue roles;
  request_count = 0;
}

-- `requireService`: the first worker's description stays.
unfoldable pub require_service : Bytes → Bytes → Broker → Broker
require_service name description b = record b {
  services = try_emplace bytes_discrete name (new_service b.roles none name description) b.services;
}

-- `addInternalService`
unfoldable pub add_internal_service : Bytes → Internal → Broker → Broker
add_internal_service name handler b = record b {
  services =
      try_emplace bytes_discrete name (new_service b.roles (some handler) name []) b.services;
}

-- A leading slash is dropped. (On an empty name the program reads `s[0]` of an empty view, where
-- the string behind it has its terminator.)
unfoldable pub remove_slash : Bytes → Bytes
remove_slash [] = []
remove_slash (c ∷ s) = if c == b'/' then s else c ∷ s

-- `lessByLength`
unfoldable pub less_by_length : Bytes → Bytes → Bool
less_by_length l r = if length l == length r then bytes_lt l r else ltb (length l) (length r)

-- The loop of `bestMatchingService`: the best name so far, without its slash, and its key.
unfoldable pub best_loop :
    Bytes → Option (Bytes × Bytes) → List (Bytes × Service) → Option (Bytes × Bytes)
unfolding remove_slash less_by_length
best_loop sn best [] = best
best_loop sn best ((name, s) ∷ services) =
    let n = remove_slash name in
    let better : Bool = elim best [ none ↦ true | some (b, key) ↦ less_by_length n b ] in
    best_loop sn (if starts_with sn n && better then some (n, name) else best) services

abbrev pub key_of : Option (Bytes × Bytes) → Option Bytes
key_of none = none
key_of (some (n, key)) = some key

-- `bestMatchingService`, as the key of the service
unfoldable pub best_matching_service : Bytes → Broker → Option Bytes
unfolding best_loop
best_matching_service name b = key_of (best_loop (remove_slash name) none b.services)
