-- ===== src/Service/Writes.antt =====
-- src/service.rs: how an administrator's request is authorised, executed or forwarded in Raft mode. The
-- lines of the audit log are not part of the model.
use nexus_auth.Prelude.{
  ℕ, Bool, true, false, Option, none, some, [], ◌++◌, Text, Bytes, text, Result, ok, err,
  if◌then◌else◌,
}
use nexus_auth.Order.{text_ord}
use nexus_auth.Names.{External}
use nexus_auth.Policy.Types.{PolicyCommand, PolicyResult, AdminOutcome, PolicyState}
use nexus_auth.Auth.Requests.{AdminRequestV2, AdminV2Error, VerifiedAdmin}
use nexus_auth.Auth.AdminV2.{verify}
use nexus_auth.Context.{
  SidecarError, sidecar_error, with_publish_error, AdminProposal, AdminRaft, System, Env,
  AuthContext,
}
use nexus_auth.Context.Task.{Task, resume}
use nexus_auth.Publisher.{PublishError}
use nexus_auth.Publisher.Rounds.{
  PublishOutcome, published, no_connections, not_leader, publish_once,
}
use nexus_auth.Service.{
  Json, null, flag, number, string, object, end, field, Wire, policy_command_for,
}
use nexus_auth.Service.Errors.{map_admin_apply_error, publish_error}

abbrev pub optional : {A : Type 0} → (A → Json) → Option A → Json
optional f none = null
optional f (some a) = f a

-- `unwrap_or_default()`
abbrev pub ok_or_default : Result SidecarError Text → Text
ok_or_default (ok t) = t
ok_or_default (err e) = []

abbrev pub encoded : (Json → Bytes) → Result SidecarError Json → Result SidecarError Bytes
encoded encode (ok json) = ok (encode json)
encoded encode (err e) = err e

unfoldable pub admin_not_ready : SidecarError
admin_not_ready = sidecar_error (text "raft_not_ready") (text "Raft 控制面尚未就绪，拒绝管理请求（fail-closed）")

unfoldable pub forbidden_role : SidecarError
forbidden_role = sidecar_error (text "forbidden_role") (text "viewer 管理员不能执行写操作")

unfoldable pub unknown_op : Text → SidecarError
unknown_op op = sidecar_error (text "unknown_op") (text "未知指令: " ++ op)

-- The answer to `publish_now`.
unfoldable pub publish_answer :
    Text → PolicyState → Option ℕ → Result PublishError PublishOutcome → Result SidecarError Json
publish_answer request_id state applied (err e) =
    err (publish_error (text "publish_failed") e.message state.policy_epoch)
publish_answer request_id state applied (ok not_leader) =
    err (sidecar_error (text "not_leader") (text "本节点已不是 leader，放弃 publish_now"))
publish_answer request_id state applied (ok no_connections) = ok (
    object (
      field (text "published") (flag false) (
        field (text "policy_epoch") (number state.policy_epoch) (
          field (text "raft_index") (optional number applied)
            (field (text "request_id") (string request_id) end)))))
publish_answer request_id state applied (ok (published epoch)) = ok (
    object (
      field (text "published") (flag true) (
        field (text "policy_epoch") (number state.policy_epoch) (
          field (text "raft_index") (optional number applied)
            (field (text "request_id") (string request_id) end)))))

-- The answer to a change that was applied.
unfoldable pub applied_reply : Text → Option Text → Option ℕ → Bool → ℕ → ℕ → Bool → Json
applied_reply request_id service version changed epoch index duplicate = object (
    field (text "request_id") (string request_id) (
      field (text "service") (optional string service) (
        field (text "version") (optional number version) (
          field (text "changed") (flag changed) (
            field (text "policy_epoch") (number epoch) (
              field (text "raft_index") (number index)
                (field (text "duplicate") (flag duplicate) end)))))))

-- The answer after the publication of a change.
unfoldable pub committed_answer :
    ℕ → Json → Result PublishError PublishOutcome → Result SidecarError Json
committed_answer epoch reply (ok not_leader) = err (
    with_publish_error
      (sidecar_error (text "committed_but_publish_failed") (text "状态已提交，但发布前已失去 leadership"))
      (text "not_leader"))
committed_answer epoch reply (ok no_connections) = ok reply
committed_answer epoch reply (ok (published e)) = ok reply
committed_answer epoch reply (err e) =
    err (publish_error (text "committed_but_publish_failed") e.message epoch)

-- The command that a request is brought into the log as.
unfoldable pub admin_command : AdminRequestV2 → VerifiedAdmin → PolicyCommand → PolicyCommand
admin_command r verified command =
    PolicyCommand.admin r.request_id r.kid verified.request_hash r.ts command

unfoldable pub unexpected_result : (PolicyResult → Text) → PolicyResult → SidecarError
unexpected_result debug result =
    sidecar_error (text "raft_unexpected_result") (text "非管理员 apply 结果: " ++ debug result)

-- `admin_raft(ctx)?`, and what follows.
unfoldable pub at_raft :
    {T W A : Type 0}
    → Option (AdminRaft W)
    → (AdminRaft W → Task T SidecarError A)
    → Task T SidecarError A
at_raft none f s = (err admin_not_ready, s)
at_raft (some raft) f s = f raft s

module _ {C W J V S : Type 0} (env : Env C W V) (wire : Wire J V S) ⦃x : External⦄ where
  -- `ctx.admin_keys.verify(req, now_unix())`
  unfoldable pub verify_admin : AdminRequestV2 → Task (System C W V) AdminV2Error VerifiedAdmin
  verify_admin r s =
      let (now, w) = env.now_unix s.world in
      let (result, keys) = verify wire.crypto wire.admin_cbor r now s.shared.admin_keys in
      (result, record s { world = w; shared = record s.shared { admin_keys = keys } })

  unfoldable pub publish_requested :
      Text → AdminRaft W → AuthContext W → Task (System C W V) SidecarError Bytes
  publish_requested request_id raft ctx s =
      let (outcome, s₁) = publish_once env wire.signing wire.toml ctx true s in
      let (state, w) = raft.policy_snapshot s₁.world in
      let s₂ = resume env w s₁ in
      let (applied, w') = raft.applied_index s₂.world in
      (encoded wire.encode (publish_answer request_id state applied outcome), resume env w' s₂)

  -- What becomes of a command that the log holds.
  unfoldable pub committed :
      AuthContext W → Text → ℕ → ℕ → Bool → AdminOutcome → Task (System C W V) SidecarError Bytes
  committed ctx request_id epoch index duplicate (AdminOutcome.rejected code message) s =
      (err (sidecar_error code message), s)
  committed ctx request_id epoch index duplicate (AdminOutcome.applied service version changed) s =
      let reply = applied_reply request_id service version changed epoch index duplicate in
      let (outcome, s') = publish_once env wire.signing wire.toml ctx false s in
      if changed
      then (encoded wire.encode (committed_answer epoch reply outcome), s')
      else (ok (wire.encode reply), s)

  -- A duplicate is answered with the index of the first time.
  unfoldable pub answer_proposal :
      AuthContext W → ℕ → PolicyResult → Task (System C W V) SidecarError Bytes
  answer_proposal ctx index (PolicyResult.admin request_id epoch first duplicate outcome) s =
      committed ctx request_id epoch (if duplicate then first else index) duplicate outcome s
  answer_proposal ctx index (PolicyResult.applied service version epoch changed) s =
      (err (unexpected_result wire.debug (PolicyResult.applied service version epoch changed)), s)
  answer_proposal ctx index (PolicyResult.rejected code message epoch) s =
      (err (unexpected_result wire.debug (PolicyResult.rejected code message epoch)), s)

  unfoldable pub proposed :
      AuthContext W → Result Text AdminProposal → Task (System C W V) SidecarError Bytes
  proposed ctx (err e) s = (err (map_admin_apply_error wire.to_lowercase e), s)
  proposed ctx (ok proposal) s = answer_proposal ctx proposal.raft_index proposal.result s

  unfoldable pub propose_write :
      AdminRequestV2
      → VerifiedAdmin
      → AdminRaft W
      → AuthContext W
      → Task (System C W V) SidecarError Bytes
  propose_write r verified raft ctx s = elim (policy_command_for r) [
    | err e ↦ (err e, s)
    | ok command ↦
        let (result, w) = raft.propose (admin_command r verified command) s.world in
        proposed ctx result (resume env w s)
  ]
