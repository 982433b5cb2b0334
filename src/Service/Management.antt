-- ===== src/Service/Management.antt =====
-- src/service.rs: a management request of the older mode. The broadcast of a change to other
-- replicas is a task of its own.
use nexus_auth.Prelude.{
  ℕ, Bool, true, ◌||◌, none, some, ◌++◌, Text, Bytes, text, Result, Done, ok, err, if◌then◌else◌,
  unwrap_or,
}
use nexus_auth.Order.{text_ord, ◌≟◌}
use nexus_auth.Names.{External}
use nexus_auth.Fsutil.{Faults}
use nexus_auth.Legacy.Types.{Store, Op}
use nexus_auth.Legacy.Changes.{
  service_names, version, members, member_count, create_service, delete_service, add_members,
  remove_members, set_members,
}
use nexus_auth.Auth.Admin.{AdminError, ManagementRequest, verify_management}
use nexus_auth.Publisher.{notify_publish}
use nexus_auth.Context.{SidecarError, sidecar_error, System, Env}
use nexus_auth.Context.Task.{Task}
use nexus_auth.Service.{
  Json, flag, number, string, strings, object, end, field, Wire, bad_request, require_service,
}
use nexus_auth.Service.Errors.{store_error, admin_error}
use nexus_auth.Service.Writes.{unknown_op}

unfoldable pub change_reply : Store → Text → ℕ → Json
change_reply store service v = object (
    field (text "service") (string service) (
      field (text "version") (number v) (
        field (text "members") (number (unwrap_or (member_count store service) 0))
          (field (text "index_version") (number store.index_version) end))))

unfoldable pub deletion_reply : Store → Text → ℕ → Json
deletion_reply store service v = object (
    field (text "service") (string service)
      (field (text "index_version") (number store.index_version) end))

unfoldable pub list_services : Store → Json
list_services store = object (field (text "services") (strings (service_names store)) end)

-- Both lookups of the source are of one entry.
unfoldable pub list_members : Store → Text → Result SidecarError Json
list_members store service = elim (version store service) [
  | none ↦ err (sidecar_error (text "not_found") (text "服务不存在: " ++ service))
  | some v ↦ elim (members store service) [
    | none ↦ err (sidecar_error (text "not_found") (text "服务不存在: " ++ service))
    | some peers ↦ ok (
        object (
          field (text "service") (string service)
            (field (text "version") (number v) (field (text "members") (strings peers) end))))
  ]
]

unfoldable pub needs_service : Text → Bool
needs_service op =
    (op ≟ text "list_members")
    || (op ≟ text "add_members")
    || (op ≟ text "remove_members")
    || (op ≟ text "set_members")
    || (op ≟ text "create_service")
    || (op ≟ text "delete_service")

module _ {C W J V S : Type 0} (env : Env C W V) (wire : Wire J V S) ⦃x : External⦄ where
  -- `ctx.admin.verify(&req, now_unix())`
  unfoldable pub check_management : ManagementRequest → Task (System C W V) AdminError Done
  check_management r s =
      let (now, w) = env.now_unix s.world in
      let (result, admin) = verify_management wire.crypto wire.mac_json r now s.shared.admin in
      (result, record s { world = w; shared = record s.shared { admin = admin } })

  -- An operation on the store; where it succeeds, a publication is asked for.
  unfoldable pub run_change :
      (Faults → Op ℕ) → (Store → Text → ℕ → Json) → Text → Task (System C W V) SidecarError Bytes
  run_change op reply service s =
      let (faults, w) = env.disk_faults s.world in
      let (result, store) = op faults s.shared.store in
      let shared = record s.shared { store = store } in
      elim result [
        | err e ↦ (err (store_error e), record s { world = w; shared = shared })
        | ok v ↦ (
          ok (wire.encode (reply store.store service v)),
          record s { world = w; shared = notify_publish shared },
        )
      ]

  -- The operations that need a service.
  unfoldable pub with_service : ManagementRequest → Text → Task (System C W V) SidecarError Bytes
  with_service r service s =
      if r.op ≟ text "list_members"
      then elim (list_members s.shared.store.store service) [
        | err e ↦ (err e, s)
        | ok json ↦ (ok (wire.encode json), s)
      ]
      else if r.op ≟ text "add_members"
      then run_change (λ f. add_members wire.toml f service r.peers) change_reply service s
      else if r.op ≟ text "remove_members"
      then run_change (λ f. remove_members wire.toml f service r.peers) change_reply service s
      else if r.op ≟ text "set_members"
      then run_change (λ f. set_members wire.toml f service r.peers) change_reply service s
      else if r.op ≟ text "create_service"
      then run_change (λ f. create_service wire.toml f service r.peers) change_reply service s
      else run_change (λ f. delete_service wire.toml f service) deletion_reply service s

  -- `status` and `export_authority_pubkey` only report; `report` is their answer.
  module _ (report : ManagementRequest → System C W V → Bytes) where
    unfoldable pub perform : ManagementRequest → Task (System C W V) SidecarError Bytes
    perform r s =
        if (r.op ≟ text "status") || (r.op ≟ text "export_authority_pubkey")
        then (ok (report r s), s)
        else if r.op ≟ text "list_services"
        then (ok (wire.encode (list_services s.shared.store.store)), s)
        else if needs_service r.op
        then elim (require_service r) [ err e ↦ (err e, s) | ok service ↦ with_service r service s ]
        else if r.op ≟ text "publish_now"
        then (
          ok (wire.encode (object (field (text "scheduled") (flag true) end))),
          record s { shared = notify_publish s.shared },
        )
        else (err (unknown_op r.op), s)

    unfoldable pub handle_management : J → Task (System C W V) SidecarError Bytes
    handle_management value s = elim (wire.to_management value) [
      | err e ↦ (err (bad_request (text "请求解析失败: " ++ e)), s)
      | ok r ↦
          let (result, s') = check_management r s in
          elim result [ err e ↦ (err (admin_error e), s') | ok _ ↦ perform r s' ]
    ]
