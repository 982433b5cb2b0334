-- ===== src/Service/Refused.antt =====
-- src/service.rs: the requests that Raft mode turns away.
use nexus_auth.Prelude.{
  ◌≡◌, refl, true, false, Option, some, [], Text, Bytes, text, Result, ok, err, All, Result-cases,
  unwrap_or, if◌then◌else◌, arith, List, ◌∷◌,
}
use nexus_auth.Order.{text_ord, cmp_text, ◌≟◌}
use nexus_auth.Names.{External}
use nexus_auth.Auth.Replicate.{op_replicate, op_sync_request}
use nexus_auth.Auth.Requests.{AdminRequestV2, AdminV2Error, VerifiedAdmin}
use nexus_auth.Context.{SidecarError, AdminForwarder, System, Env, AuthContext}
use nexus_auth.Context.Task.{Task}
use nexus_auth.Service.{is_member_management_op, forwarded_admin_op, Wire, is_among}
use nexus_auth.Service.Errors.{admin_v2_error}
use nexus_auth.Service.Writes.{unknown_op, verify_admin}
use nexus_auth.Service.Admin.{handle_verified, handle_admin_v2}
use nexus_auth.Service.Classes.{among_all, member_op-classify}
use nexus_auth.Transport.{raft_rpc_op}
use nexus_auth.Service.Dispatch.{
  Handlers, op_request, raft_join_op, seed_delivery_op, seed_drop_op, join_disabled,
  replicate_disabled, sync_disabled, handle_op, handle_service_request,
}

-- The answer to an operation on members: the request is judged and then refused, whoever signed it.
unfoldable pub refusal : AdminRequestV2 → Result AdminV2Error VerifiedAdmin → SidecarError
refusal r (ok verified) = unknown_op r.op
refusal r (err e) = admin_v2_error e

-- The messages of the older mode, and how each is turned away.
unfoldable pub old_ops : List Text
old_ops = op_request ∷ op_replicate ∷ op_sync_request ∷ []

unfoldable pub old_error : Text → SidecarError
old_error op =
    if op ≟ op_request
    then join_disabled
    else if op ≟ op_replicate
    then replicate_disabled
    else sync_disabled

module _ {C W J V S : Type 0} (env : Env C W V) (wire : Wire J V S) ⦃x : External⦄ where
  -- An administrator's request for an operation on members, not in an envelope, is refused by the
  -- handler of administrators' requests: with the error of its verification where that fails, and
  -- as an unknown operation where it is verified, whoever signed it.
  pub member_request_refused :
      (member_write : AdminRequestV2 → VerifiedAdmin → Task (System C W V) SidecarError Bytes)
      (read_admin : AdminRequestV2 → Task (System C W V) SidecarError Bytes) (raw : Bytes)
      (value : J) (ctx : AuthContext W) (forwarder : Option (AdminForwarder W)) (s : System C W V)
      (r : AdminRequestV2)
      → (unwrap_or (wire.get_op value) [] ≟ forwarded_admin_op) ≡ false
      → wire.to_admin_v2 value ≡ ok r
      → is_member_management_op r.op ≡ true
      → handle_admin_v2 env wire member_write read_admin raw value ctx forwarder s
        ≡ (err (refusal r (verify_admin env wire r s).0), (verify_admin env wire r s).1)
  unfolding handle_admin_v2 handle_verified refusal
  member_request_refused member_write read_admin raw value ctx forwarder s r f q m =
      ground (arith, f, q, member_op-classify r.op m, Result-cases (verify_admin env wire r s).0)

  module _ (handlers : Handlers C W J V) (payload : Bytes) (value : J) (ctx : AuthContext W)
      (forwarder : Option (AdminForwarder W)) (s : System C W V)
      (raft_required : ctx.raft_required ≡ true) where
    old-All :
        All
          (λ op.
            handle_op env wire handlers op payload value ctx forwarder s ≡ (err (old_error op), s))
          old_ops
    unfolding old_ops old_error handle_op op_request op_replicate op_sync_request raft_rpc_op
        raft_join_op seed_delivery_op seed_drop_op text cmp_text
    old-All = (rw raft_required refl, (rw raft_required refl, (rw raft_required refl, tt)))

    -- In Raft mode, a request with the operation of the older join, replication or synchronisation
    -- is refused with the error for it and changes nothing.
    pub old_request_refused :
        (op : Text)
        → wire.from_slice payload ≡ ok value
        → wire.get_op value ≡ some op
        → is_among op old_ops ≡ true
        → handle_service_request env wire handlers payload ctx forwarder s ≡ (err (old_error op), s)
    unfolding handle_service_request
    old_request_refused op p q m =
        rw (p, q, handle_service_request)
          (among_all
            (λ op.
              handle_op env wire handlers op payload value ctx forwarder s
              ≡ (err (old_error op), s))
            op old_ops old-All m)
