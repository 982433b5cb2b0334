-- ===== src/Service/Replicas.antt =====
-- src/service.rs: the messages between replicas of the older mode.
use nexus_auth.Prelude.{◌++◌, Bytes, text, Done, ok, err, if◌then◌else◌}
use nexus_auth.Names.{External}
use nexus_auth.Legacy.Types.{snapshot}
use nexus_auth.Legacy.Merge.{apply_replicated}
use nexus_auth.Auth.Replicate.{
  RepError, ReplicateMsg, SyncRequest, op_sync_response, verify_replicate, verify_sync_request,
  sign_sync_response,
}
use nexus_auth.Publisher.{notify_publish}
use nexus_auth.Context.{SidecarError, System, Env, AuthContext}
use nexus_auth.Context.Task.{Task}
use nexus_auth.Service.{flag, number, string, object, end, field, Wire, bad_request}
use nexus_auth.Service.Errors.{rep_error, store_error}

module _ {C W J V S : Type 0} (env : Env C W V) (wire : Wire J V S) ⦃x : External⦄ where
  -- `ctx.replicate.verify_replicate(&msg, now_unix())`
  unfoldable pub check_replicate : ReplicateMsg → Task (System C W V) RepError Done
  check_replicate m s =
      let (now, w) = env.now_unix s.world in
      let (result, replicate) = verify_replicate wire.crypto m now s.shared.replicate in
      (result, record s { world = w; shared = record s.shared { replicate = replicate } })

  unfoldable pub check_sync_request : SyncRequest → Task (System C W V) RepError Done
  check_sync_request r s =
      let (now, w) = env.now_unix s.world in
      let (result, replicate) = verify_sync_request wire.crypto r now s.shared.replicate in
      (result, record s { world = w; shared = record s.shared { replicate = replicate } })

  unfoldable pub merge_message : ReplicateMsg → Task (System C W V) SidecarError Bytes
  merge_message m s =
      let (faults, w) = env.disk_faults s.world in
      let (result, store) =
        apply_replicated wire.toml faults m.service m.version m.members m.index_version m.deleted
          s.shared.store in
      let shared = record s.shared { store = store } in
      elim result [
        | err e ↦ (err (store_error e), record s { world = w; shared = shared })
        | ok changed ↦ (
          ok (
              wire.encode (
                object (
                  field (text "applied") (flag changed) (
                    field (text "service") (string m.service)
                      (field (text "version") (number m.version) end))))),
          record s { world = w; shared = if changed then notify_publish shared else shared },
        )
      ]

  unfoldable pub handle_replicate : J → Task (System C W V) SidecarError Bytes
  handle_replicate value s = elim (wire.to_replicate value) [
    | err e ↦ (err (bad_request (text "复制请求解析失败: " ++ e)), s)
    | ok m ↦
        let (result, s') = check_replicate m s in
        elim result [ err e ↦ (err (rep_error e), s') | ok _ ↦ merge_message m s' ]
  ]

  unfoldable pub answer_sync : AuthContext W → SyncRequest → Task (System C W V) SidecarError Bytes
  answer_sync ctx r s =
      let content = snapshot s.shared.store.store in
      let (ts, w) = env.now_unix s.world in
      elim (sign_sync_response wire.crypto wire.snapshot_cbor s.shared.replicate ctx.network r.nonce
        content ts) [
          | err e ↦ (err (rep_error e), record s { world = w })
          | ok mac ↦ (
            ok (
                wire.sync_response_json (record {
                  op = op_sync_response;
                  nonce = r.nonce;
                  snapshot = content;
                  ts = ts;
                  mac = mac;
                })),
            record s { world = w },
          )
        ]

  unfoldable pub handle_sync_request : AuthContext W → J → Task (System C W V) SidecarError Bytes
  handle_sync_request ctx value s = elim (wire.to_sync_request value) [
    | err e ↦ (err (bad_request (text "同步请求解析失败: " ++ e)), s)
    | ok r ↦
        let (result, s') = check_sync_request r s in
        elim result [ err e ↦ (err (rep_error e), s') | ok _ ↦ answer_sync ctx r s' ]
  ]
