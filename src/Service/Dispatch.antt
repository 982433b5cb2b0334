-- ===== src/Service/Dispatch.antt =====
-- `handle_service_request` of src/service.rs: which handler a request reaches, in either mode.
use nexus_auth.Prelude.{Option, none, some, ◌++◌, Text, Bytes, text, ok, err, if◌then◌else◌}
use nexus_auth.Order.{text_ord, ◌≟◌}
use nexus_auth.Names.{External}
use nexus_auth.Auth.Admin.{ManagementRequest}
use nexus_auth.Auth.Replicate.{op_replicate, op_sync_request}
use nexus_auth.Auth.Requests.{AdminRequestV2, VerifiedAdmin}
use nexus_auth.Context.{SidecarError, sidecar_error, AdminForwarder, System, Env, AuthContext}
use nexus_auth.Context.Task.{Task}
use nexus_auth.Transport.{raft_rpc_op}
use nexus_auth.Service.{Wire, bad_request}
use nexus_auth.Service.Admin.{handle_admin_v2}
use nexus_auth.Service.Replicas.{handle_replicate, handle_sync_request}
use nexus_auth.Service.Management.{handle_management}

unfoldable pub raft_join_op : Text
raft_join_op = text "raft_join"

unfoldable pub seed_delivery_op : Text
seed_delivery_op = text "raft_seed_delivery"

unfoldable pub seed_drop_op : Text
seed_drop_op = text "raft_seed_drop"

-- `join::OP_REQUEST`
unfoldable pub op_request : Text
op_request = text "join_request"

-- The handlers of other parts.
pub record Handlers (C W J V : Type 0) : Type 0 where
  -- `RaftRuntime::handle_rpc`, where there is a node
  pub handle_rpc : Option (Bytes → Task (System C W V) SidecarError Bytes)
  pub handle_raft_join : J → Task (System C W V) SidecarError Bytes
  pub handle_seed_delivery : J → Task (System C W V) SidecarError Bytes
  pub handle_seed_drop : J → Task (System C W V) SidecarError Bytes
  pub handle_join : J → Task (System C W V) SidecarError Bytes
  pub execute_member_write : AdminRequestV2 → VerifiedAdmin → Task (System C W V) SidecarError Bytes
  pub handle_admin_read : AdminRequestV2 → Task (System C W V) SidecarError Bytes
  -- the answers to `status` and `export_authority_pubkey` of the older mode
  pub report : ManagementRequest → System C W V → Bytes

unfoldable pub join_disabled : SidecarError
join_disabled = sidecar_error (text "join_disabled") (text "Raft 模式下旧密码入网已禁用；请使用 join token")

unfoldable pub replicate_disabled : SidecarError
replicate_disabled = sidecar_error (text "replicate_disabled") (text "Raft 模式下禁用旧 replicate 写入")

unfoldable pub sync_disabled : SidecarError
sync_disabled = sidecar_error (text "sync_disabled") (text "Raft 模式下禁用旧 sync_request 反熵")

unfoldable pub raft_disabled : SidecarError
raft_disabled = sidecar_error (text "raft_disabled") (text "Raft 控制面未启用")

module _ {C W J V S : Type 0} (env : Env C W V) (wire : Wire J V S) ⦃x : External⦄
    (handlers : Handlers C W J V) where
  unfoldable pub handle_op :
      Text
      → Bytes
      → J
      → AuthContext W
      → Option (AdminForwarder W)
      → Task (System C W V) SidecarError Bytes
  handle_op op payload value ctx forwarder s =
      if op ≟ raft_rpc_op
      then elim handlers.handle_rpc [
        | none ↦ (err raft_disabled, s)
        | some handle_rpc ↦ handle_rpc payload s
      ]
      else if op ≟ raft_join_op
      then handlers.handle_raft_join value s
      else if op ≟ seed_delivery_op
      then handlers.handle_seed_delivery value s
      else if op ≟ seed_drop_op
      then handlers.handle_seed_drop value s
      else if op ≟ op_request
      then (if ctx.raft_required then (err join_disabled, s) else handlers.handle_join value s)
      else if op ≟ op_replicate
      then (if ctx.raft_required
          then (err replicate_disabled, s)
          else handle_replicate env wire value s)
      else if op ≟ op_sync_request
      then (if ctx.raft_required
          then (err sync_disabled, s)
          else handle_sync_request env wire ctx value s)
      else if ctx.raft_required
      then handle_admin_v2 env wire handlers.execute_member_write handlers.handle_admin_read payload
          value ctx forwarder s
      else handle_management env wire handlers.report value s

  unfoldable pub handle_service_request :
      Bytes → AuthContext W → Option (AdminForwarder W) → Task (System C W V) SidecarError Bytes
  handle_service_request payload ctx forwarder s = elim (wire.from_slice payload) [
    | err e ↦ (err (bad_request (text "请求解析失败: " ++ e)), s)
    | ok value ↦ elim (wire.get_op value) [
      | none ↦ (err (bad_request (text "缺少 'op' 字段")), s)
      | some op ↦ handle_op op payload value ctx forwarder s
    ]
  ]
