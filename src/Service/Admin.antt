-- ===== src/Service/Admin.antt =====
-- `handle_admin_v2` of src/service.rs: an administrator's request in Raft mode.
use nexus_auth.Prelude.{
  not, Option, ◌++◌, [], Bytes, text, Result, ok, err, if◌then◌else◌, unwrap_or,
}
use nexus_auth.Order.{text_ord, ◌≟◌}
use nexus_auth.Names.{External}
use nexus_auth.Auth.Requests.{is_root, AdminRequestV2, AdminV2Error, VerifiedAdmin}
use nexus_auth.Context.{SidecarError, AdminForwarder, System, Env, AuthContext}
use nexus_auth.Context.Task.{Task}
use nexus_auth.Service.{
  read, write, unknown, classify_admin_op, forwarded_admin_op, Wire, bad_request,
}
use nexus_auth.Service.Errors.{admin_v2_error}
use nexus_auth.Service.Writes.{forbidden_role, unknown_op, verify_admin}
use nexus_auth.Service.Routes.{handle_root_write, handle_forwarded_admin}

-- `member_write` is `execute_member_write` and `read_admin` is `handle_admin_read`.
module _ {C W J V S : Type 0} (env : Env C W V) (wire : Wire J V S) ⦃x : External⦄
    (member_write : AdminRequestV2 → VerifiedAdmin → Task (System C W V) SidecarError Bytes)
    (read_admin : AdminRequestV2 → Task (System C W V) SidecarError Bytes) where
  -- A request whose signature has been judged.
  unfoldable pub handle_verified :
      Bytes
      → AdminRequestV2
      → AuthContext W
      → Option (AdminForwarder W)
      → Result AdminV2Error VerifiedAdmin
      → Task (System C W V) SidecarError Bytes
  handle_verified raw r ctx forwarder (err e) s = (err (admin_v2_error e), s)
  handle_verified raw r ctx forwarder (ok verified) s = elim (classify_admin_op r.op) [
    | read ↦ read_admin r s
    | write ↦
        if not (is_root verified.role)
        then (err forbidden_role, s)
        else handle_root_write env wire member_write raw r verified ctx forwarder s
    | unknown ↦ (err (unknown_op r.op), s)
  ]

  unfoldable pub handle_admin_v2 :
      Bytes → J → AuthContext W → Option (AdminForwarder W) → Task (System C W V) SidecarError Bytes
  handle_admin_v2 raw value ctx forwarder s =
      if unwrap_or (wire.get_op value) [] ≟ forwarded_admin_op
      then handle_forwarded_admin env wire member_write raw ctx s
      else elim (wire.to_admin_v2 value) [
        | err e ↦ (err (bad_request (text "管理员请求解析失败: " ++ e)), s)
        | ok r ↦
            let (result, s') = verify_admin env wire r s in
            handle_verified raw r ctx forwarder result s'
      ]
