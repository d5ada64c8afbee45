-- ===== src/Worker/Requests.antt =====
-- How the worker answers a request: `processRequest` and the permissions of roles.
pub mod Laws
use opencmw_cpp.Base.{
  Bytes, codes, bytes_eq, Bool, true, false, not, ◌&&◌, List, [], ◌∷◌, ◌++◌, Option, none, some,
  if◌then◌else◌,
}
use opencmw_cpp.Broker.{Message, Command, get, set}
use opencmw_cpp.Broker.Rbac.{role}
use opencmw_cpp.Worker.{
  Permission, read_write, read_only, write_only, no_access, Handled, replied, threw, threw_unknown,
  BasicWorker, reply_from_request,
}

-- `ADMIN::name()`
abbrev pub admin_name : Bytes
admin_name = codes "ADMIN"

-- `permissionMap`
unfoldable pub permissions_by_role : BasicWorker → List (Bytes × Permission)
permissions_by_role w = (admin_name, read_write) ∷ w.roles

-- `data.back().second` behind a first entry
unfoldable pub last_permission : Permission → List (Bytes × Permission) → Permission
last_permission p [] = p
last_permission p ((name, q) ∷ roles) = last_permission q roles

-- `_defaultPermission`: that of the role that stands last
unfoldable pub default_permission : BasicWorker → Permission
unfolding last_permission
default_permission w = last_permission read_write w.roles

-- `ConstExprMap::at` with a default
unfoldable pub permission_at : Bytes → Permission → List (Bytes × Permission) → Permission
permission_at name default [] = default
permission_at name default ((key, p) ∷ roles) =
    let rest = permission_at name default roles in if bytes_eq key name then p else rest

-- the permission of the role that a token names
unfoldable pub permission_of : BasicWorker → Bytes → Permission
unfolding permission_at permissions_by_role default_permission
permission_of w token = permission_at (role token) (default_permission w) (permissions_by_role w)

abbrev pub may_read : Permission → Bool
may_read read_write = true
may_read read_only = true
may_read write_only = false
may_read no_access = false

abbrev pub may_write : Permission → Bool
may_write read_write = true
may_write read_only = false
may_write write_only = true
may_write no_access = false

abbrev pub is_get : Command → Bool
is_get get = true
is_get c = false

abbrev pub is_set : Command → Bool
is_set set = true
is_set c = false

-- `_rbacPredicate && !_rbacPredicate(rbac)`
abbrev pub is_rejected : Option (Bytes → Bool) → Bytes → Bool
is_rejected none token = false
is_rejected (some predicate) token = not (predicate token)

abbrev pub error_reply : Message → Bytes → Message
error_reply request text = record (reply_from_request request) { error = text }

-- the call of the handler, in its `try` block
unfoldable pub run_handler : BasicWorker → Message → Message
run_handler w request = elim (w.handler request (reply_from_request request)) [
  | replied reply ↦ reply
  | threw what ↦ error_reply request (
      codes "Caught exception for service '"
      ++ w.name
      ++ codes "'"
      ++ 10 ∷ codes "request message: "
      ++ w.format_data request.body
      ++ 10 ∷ codes "exception: "
      ++ what)
  | threw_unknown ↦ error_reply request (
      codes "Caught unexpected exception for service '"
      ++ w.name
      ++ codes "'"
      ++ 10 ∷ codes "request message: "
      ++ w.format_data request.body)
]

-- `processRequest`
unfoldable pub process_request : BasicWorker → Message → Message
unfolding run_handler
process_request w request =
    let client_role = role request.rbac in
    let permission = permission_of w request.rbac in
    if is_rejected w.rbac_predicate request.rbac
    then error_reply request (codes "request rejected by RBAC handler")
    else if is_get request.command && not (may_read permission)
    then error_reply request (codes "GET access denied to role '" ++ client_role ++ codes "'")
    else if is_set request.command && not (may_write permission)
    then error_reply request (codes "SET access denied to role '" ++ client_role ++ codes "'")
    else run_handler w request
