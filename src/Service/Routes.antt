-- ===== src/Service/Routes.antt =====
-- src/service.rs: the node that executes an administrator's write, and what is forwarded to it.
use nexus_auth.Prelude.{
  ◌||◌, not, Option, none, some, [], ◌++◌, Text, Bytes, text, Result, ok, err, map_err,
  if◌then◌else◌, ◌==◌,
}
use nexus_auth.Order.{text_ord, ◌≟◌}
use nexus_auth.Names.{External}
use nexus_auth.Auth.Requests.{is_root, AdminRequestV2, AdminV2Error, VerifiedAdmin}
use nexus_auth.Context.{
  SidecarError, sidecar_error, AdminRaft, AdminForwarder, System, Env, AuthContext,
}
use nexus_auth.Context.Task.{Task, resume}
use nexus_auth.Service.{
  write, classify_admin_op, is_member_management_op, ForwardedAdminEnvelope, forwarded_admin_op,
  forwarded_admin_version, Wire, bad_request,
}
use nexus_auth.Service.Errors.{admin_v2_error}
use nexus_auth.Service.Writes.{
  at_raft, forbidden_role, ok_or_default, propose_write, publish_requested, verify_admin,
}

module _ {C W J V S : Type 0} (env : Env C W V) (wire : Wire J V S) ⦃x : External⦄ where
  -- The envelope, once it is encoded, goes to the leader.
  unfoldable pub deliver :
      Text
      → AdminRaft W
      → AdminForwarder W
      → Result Text Bytes
      → Task (System C W V) SidecarError Bytes
  deliver leader raft forwarder (err e) s = (err (bad_request (text "转发信封编码失败: " ++ e)), s)
  deliver leader raft forwarder (ok payload) s =
      let (result, w) = forwarder.forward_admin raft.service_name leader payload s.world in
      (map_err (λ e. sidecar_error e.code e.message) result, resume env w s)

  -- The request as it came, for the leader.
  unfoldable pub forward :
      Bytes → Text → AdminRaft W → AdminForwarder W → Task (System C W V) SidecarError Bytes
  forward raw leader raft forwarder s =
      let (me, w) = forwarder.whoami s.world in
      deliver leader raft forwarder
        (wire.envelope_json (record {
          op = forwarded_admin_op;
          v = forwarded_admin_version;
          request_b64 = wire.encode_standard raw;
          edge_peer = ok_or_default me;
          edge_sig = [];
        }))
        (resume env w s)

  unfoldable pub send_on :
      Bytes
      → AdminRaft W
      → Option (AdminForwarder W)
      → Option Text
      → Task (System C W V) SidecarError Bytes
  send_on raw raft forwarder none s =
      (err (sidecar_error (text "no_leader") (text "当前没有已知的 Raft leader")), s)
  send_on raw raft none (some leader) s =
      (err (sidecar_error (text "not_leader") (text "本节点不是 leader 且没有可用的转发连接")), s)
  send_on raw raft (some forwarder) (some leader) s = forward raw leader raft forwarder s

  -- The request inside an envelope.
  unfoldable pub open_envelope : ForwardedAdminEnvelope → Result SidecarError AdminRequestV2
  open_envelope envelope = elim (wire.crypto.decode_standard envelope.request_b64) [
    | none ↦ err (bad_request (text "request_b64 不是合法 base64"))
    | some bytes ↦ elim (wire.from_slice bytes) [
      | err e ↦ err (bad_request (text "原始请求解析失败: " ++ e))
      | ok value ↦ map_err (λ e. bad_request (text "管理员请求解析失败: " ++ e)) (wire.to_admin_v2 value)
    ]
  ]

  -- `member_write` is `execute_member_write`.
  module _
      (member_write : AdminRequestV2 → VerifiedAdmin → Task (System C W V) SidecarError Bytes) where
    unfoldable pub execute_root_write :
        AdminRequestV2
        → VerifiedAdmin
        → AdminRaft W
        → AuthContext W
        → Task (System C W V) SidecarError Bytes
    execute_root_write r verified raft ctx s =
        let s' = resume env (raft.leader_peer s.world).1 s in
        if is_member_management_op r.op
        then member_write r verified s'
        else if r.op ≟ text "publish_now"
        then publish_requested env wire r.request_id raft ctx s'
        else propose_write env wire r verified raft ctx s'

    unfoldable pub write_at :
        Bytes
        → AdminRequestV2
        → VerifiedAdmin
        → AuthContext W
        → Option (AdminForwarder W)
        → AdminRaft W
        → Task (System C W V) SidecarError Bytes
    write_at raw r verified ctx forwarder raft s =
        let (leader, w) = raft.is_leader s.world in
        let s' = resume env w s in
        let (peer, w') = raft.leader_peer s'.world in
        if leader
        then execute_root_write r verified raft ctx s'
        else send_on raw raft forwarder peer (resume env w' s')

    unfoldable pub handle_root_write :
        Bytes
        → AdminRequestV2
        → VerifiedAdmin
        → AuthContext W
        → Option (AdminForwarder W)
        → Task (System C W V) SidecarError Bytes
    handle_root_write raw r verified ctx forwarder =
        at_raft ctx.admin_raft (write_at raw r verified ctx forwarder)

    -- What the leader does with the request in an envelope.
    unfoldable pub execute_forwarded :
        AdminRequestV2
        → AdminRaft W
        → AuthContext W
        → Result AdminV2Error VerifiedAdmin
        → Task (System C W V) SidecarError Bytes
    execute_forwarded r raft ctx (err e) s = (err (admin_v2_error e), s)
    execute_forwarded r raft ctx (ok verified) s =
        if not (is_root verified.role)
        then (err forbidden_role, s)
        else elim (classify_admin_op r.op) [
          | write ↦ execute_root_write r verified raft ctx s
          | _ ↦ (err (bad_request (text "forwarded_admin 只接受写操作")), s)
        ]

    unfoldable pub execute_envelope :
        AdminRaft W
        → AuthContext W
        → Result SidecarError AdminRequestV2
        → Task (System C W V) SidecarError Bytes
    execute_envelope raft ctx (err e) s = (err e, s)
    execute_envelope raft ctx (ok r) s =
        let (result, s') = verify_admin env wire r s in execute_forwarded r raft ctx result s'

    unfoldable pub envelope_at :
        AuthContext W
        → ForwardedAdminEnvelope
        → AdminRaft W
        → Task (System C W V) SidecarError Bytes
    envelope_at ctx envelope raft s =
        let (leader, w) = raft.is_leader s.world in
        let s' = resume env w s in
        if leader
        then execute_envelope raft ctx (open_envelope envelope) s'
        else (err (sidecar_error (text "not_leader") (text "forwarded_admin 只能由 leader 处理")), s')

    unfoldable pub handle_envelope :
        AuthContext W → ForwardedAdminEnvelope → Task (System C W V) SidecarError Bytes
    handle_envelope ctx envelope s =
        if not (envelope.op ≟ forwarded_admin_op) || not (envelope.v == forwarded_admin_version)
        then (err (bad_request (text "非法的 forwarded_admin 信封")), s)
        else at_raft ctx.admin_raft (envelope_at ctx envelope) s

    unfoldable pub handle_forwarded_admin :
        Bytes → AuthContext W → Task (System C W V) SidecarError Bytes
    handle_forwarded_admin raw ctx s = elim (wire.to_envelope raw) [
      | err e ↦ (err (bad_request (text "转发信封解析失败: " ++ e)), s)
      | ok envelope ↦ handle_envelope ctx envelope s
    ]
