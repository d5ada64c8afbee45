-- ===== src/Worker/Requests/Laws.antt =====
-- Which requests reach the handler, and what the others are answered.
use opencmw_cpp.Base.{
  ◌≡◌, ◌≢◌, refl, Bytes, Bool, true, false, not, ◌&&◌, [], Option, none, some, inl, inr, ◌⊎◌,
  Bool-cases, arith,
}
use opencmw_cpp.Broker.{Message, Command, get, set, final}
use opencmw_cpp.Worker.{Handled, BasicWorker, reply_from_request}
use opencmw_cpp.Worker.Requests.{
  permissions_by_role, default_permission, permission_of, may_read, may_write, is_get, is_set,
  is_rejected, error_reply, run_handler, process_request,
}

-- A request that the predicate accepts, and whose role may do what its command does.
pub record IsAllowed (w : BasicWorker) (m : Message) : Type 0 where
  pub accepted :
      (predicate : Bytes → Bool) → w.rbac_predicate ≡ some predicate → predicate m.rbac ≡ true
  pub readable : m.command ≡ get → may_read (permission_of w m.rbac) ≡ true
  pub writable : m.command ≡ set → may_write (permission_of w m.rbac) ≡ true

-- A final reply that names the request's client, id, topic and token, has an error and no body.
pub record IsRefusalOf (m reply : Message) : Type 0 where
  pub is_final : reply.command ≡ final
  pub same_protocol : reply.protocol ≡ m.protocol
  pub same_client : reply.service_name ≡ m.service_name
  pub same_request : reply.request_id ≡ m.request_id
  pub same_topic : reply.topic ≡ m.topic
  pub same_token : reply.rbac ≡ m.rbac
  pub is_error : reply.error ≢ []
  pub no_body : reply.body ≡ []

error_reply-IsRefusalOf :
    (m : Message) (text : Bytes) → text ≢ [] → IsRefusalOf m (error_reply m text)
unfolding reply_from_request
error_reply-IsRefusalOf m text h = record {
  is_final = refl;
  same_protocol = refl;
  same_client = refl;
  same_request = refl;
  same_topic = refl;
  same_token = refl;
  is_error = h;
  no_body = refl;
}

-- A request that is refused is refused in the same words whatever the handler does.
abbrev pub IsRefused : BasicWorker → Message → Type 0
IsRefused w m =
    ¬ IsAllowed w m
    × IsRefusalOf m (process_request w m)
    × ((h : Message → Message → Handled)
        → process_request (record w { handler = h }) m ≡ process_request w m)

is_get_of : (c : Command) → is_get c ≡ true → c ≡ get
is_get_of c h = ground arith

is_set_of : (c : Command) → is_set c ≡ true → c ≡ set
is_set_of c h = ground arith

permission_of-handler :
    (w : BasicWorker) (token : Bytes) (h : Message → Message → Handled)
    → permission_of (record w { handler = h }) token ≡ permission_of w token
unfolding permission_of permissions_by_role default_permission
permission_of-handler w token h = refl

rejected-accepts :
    (p : Option (Bytes → Bool)) (token : Bytes)
    → is_rejected p token ≡ true
    → ¬ ((predicate : Bytes → Bool) → p ≡ some predicate → predicate token ≡ true)
rejected-accepts none token r accepts = cc
rejected-accepts (some predicate) token r accepts = ground (arith, accepts predicate refl)

accepts_of :
    (p : Option (Bytes → Bool)) (token : Bytes)
    → is_rejected p token ≡ false
    → (predicate : Bytes → Bool) → p ≡ some predicate
    → predicate token ≡ true
accepts_of none token r predicate e = cc
accepts_of (some q) token r predicate e = ground (arith, e)

module _ (w : BasicWorker) (m : Message) where
  IsRefused-by_predicate : is_rejected w.rbac_predicate m.rbac ≡ true → IsRefused w m
  unfolding process_request
  IsRefused-by_predicate r = (
    λ allowed. rejected-accepts w.rbac_predicate m.rbac r allowed.accepted,
    rw r (error_reply-IsRefusalOf m _ (λ e. cc)),
    λ h. rw r refl,
  )

  IsRefused-get :
      is_rejected w.rbac_predicate m.rbac ≡ false
      → (is_get m.command && not (may_read (permission_of w m.rbac))) ≡ true
      → IsRefused w m
  unfolding process_request
  IsRefused-get r g = (
    λ allowed. ground (arith, g, is_get_of m.command, allowed.readable),
    rw (r, g) (error_reply-IsRefusalOf m _ (λ e. cc)),
    λ h. rw (r, permission_of-handler w m.rbac h, g) refl,
  )

  IsRefused-set :
      is_rejected w.rbac_predicate m.rbac ≡ false
      → (is_get m.command && not (may_read (permission_of w m.rbac))) ≡ false
      → (is_set m.command && not (may_write (permission_of w m.rbac))) ≡ true
      → IsRefused w m
  unfolding process_request
  IsRefused-set r g s = (
    λ allowed. ground (arith, s, is_set_of m.command, allowed.writable),
    rw (r, g, s) (error_reply-IsRefusalOf m _ (λ e. cc)),
    λ h. rw (r, permission_of-handler w m.rbac h, g, s) refl,
  )

-- Every request either is allowed, and is answered by the handler, or is not, and is answered by a
-- refusal that names its client, id and topic and on which the handler has no influence.
pub process_request-IsGuarded :
    (w : BasicWorker) (m : Message)
    → (IsAllowed w m × (process_request w m ≡ run_handler w m)) ⊎ IsRefused w m
unfolding process_request
process_request-IsGuarded w m = elim (Bool-cases (is_rejected w.rbac_predicate m.rbac)) [
  | inl r ↦ inr (IsRefused-by_predicate w m r)
  | inr r ↦ elim (Bool-cases (is_get m.command && not (may_read (permission_of w m.rbac)))) [
    | inl g ↦ inr (IsRefused-get w m r g)
    | inr g ↦ elim (Bool-cases (is_set m.command && not (may_write (permission_of w m.rbac)))) [
      | inl s ↦ inr (IsRefused-set w m r g s)
      | inr s ↦ inl (
        record {
          accepted = accepts_of w.rbac_predicate m.rbac r;
          readable = λ c. ground (arith, c, g);
          writable = λ c. ground (arith, c, s);
        },
        rw (r, g, s) refl,
      )
    ]
  ]
]
