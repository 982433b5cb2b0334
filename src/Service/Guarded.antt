-- ===== src/Service/Guarded.antt =====
-- src/service.rs: an administrator's write on its way to the log, on this node or the leader.
use nexus_auth.Prelude.{
  ℕ, arith, ◌∙◌, ◌≡◌, refl, sym, subst, ◌⊎◌, inl, inr, true, false, not, ◌||◌, Option, none, some,
  [], Text, Bytes, text, Result, ok, err, Bool-cases, Result-cases, ◌==◌, unwrap_or,
}
use nexus_auth.Order.{text_ord, ◌≟◌}
use nexus_auth.Names.{External}
use nexus_auth.Auth.Requests.{
  AdminRole, viewer, root, is_root, AdminRequestV2, AdminV2Error, VerifiedAdmin,
}
use nexus_auth.Context.{SidecarError, AdminRaft, AdminForwarder, Shared, System, Env, AuthContext}
use nexus_auth.Context.Task.{Task, resume}
use nexus_auth.Service.{
  AdminOpClass, read, write, unknown, classify_admin_op, is_member_management_op,
  ForwardedAdminEnvelope, forwarded_admin_op, forwarded_admin_version, Wire,
}
use nexus_auth.Service.Writes.{verify_admin, at_raft}
use nexus_auth.Service.Routes.{
  execute_root_write, forward, send_on, deliver, write_at, envelope_at, handle_envelope,
  handle_root_write, execute_forwarded, open_envelope, execute_envelope, handle_forwarded_admin,
}
use nexus_auth.Service.Admin.{handle_verified, handle_admin_v2}
use nexus_auth.Service.Classes.{write-not_member}
use nexus_auth.BTree.{BTreeMap}
use nexus_auth.Replay.{ReplayGuard}
use nexus_auth.Auth.AdminV2.{verify}
use nexus_auth.Auth.Signature.{IsSignedBy}
use nexus_auth.Auth.Administrators.{verify_signed}
use nexus_auth.Service.Authorised.{
  IsForwardKept, Forwards, IsRooted, IsLogGuarded, publish_requested_kept, propose_write_kept,
}

is_root-role : (role : AdminRole) → is_root role ≡ true → role ≡ root
is_root-role root h = refl
is_root-role viewer h = absurd (ground arith)

class_cases : (c : AdminOpClass) → (c ≡ write) ⊎ ((c ≡ read) ⊎ (c ≡ unknown))
class_cases write = inl refl
class_cases read = inr (inl refl)
class_cases unknown = inr (inr refl)

module _ {C W J V S : Type 0} (env : Env C W V) (wire : Wire J V S) ⦃x : External⦄
    (raft : AdminRaft W) (ctx : AuthContext W) (map : BTreeMap Text (V × AdminRole))
    (P : W → Type 0) (guarded : IsLogGuarded env wire raft map P)
    (raft_required : ctx.raft_required ≡ true) (ready : ctx.admin_raft ≡ some raft)
    (keeps_keys : (w : W) (h : Shared C V)
      → (env.others w h).admin_keys.keys ≡ h.admin_keys.keys) where
  module _
      (member_write : AdminRequestV2 → VerifiedAdmin → Task (System C W V) SidecarError Bytes) where
    execute_root_write_kept :
        (r : AdminRequestV2) (verified : VerifiedAdmin) (s : System C W V)
        → IsRooted env wire raft map r verified
        → classify_admin_op r.op ≡ write
        → P s.world
        → P (execute_root_write env wire member_write r verified raft ctx s).1.world
    unfolding execute_root_write resume
    execute_root_write_kept r verified s rooted w p =
        let s' : System C W V = resume env (raft.leader_peer s.world).1 s in
        let p' : P s'.world = guarded.on_peer s.world p in
        let no : is_member_management_op r.op ≡ false = write-not_member r.op w in
        elim (Bool-cases (r.op ≟ text "publish_now")) [
          | inl e ↦
              rw (no, e)
                (publish_requested_kept env wire raft ctx map P guarded raft_required ready
                  r.request_id s' p')
          | inr e ↦
              rw (no, e)
                (propose_write_kept env wire raft ctx map P guarded raft_required ready r verified
                  s' rooted p')
        ]

    deliver_kept :
        (leader : Text) (f : AdminForwarder W) (payload : Result Text Bytes) (s : System C W V)
        → IsForwardKept P f
        → P s.world
        → P (deliver env wire leader raft f payload s).1.world
    unfolding deliver resume
    deliver_kept leader f (err e) s k p = p
    deliver_kept leader f (ok payload) s k p =
        k.on_forward raft.service_name leader payload s.world p

    forward_kept :
        (raw : Bytes) (leader : Text) (f : AdminForwarder W) (s : System C W V)
        → IsForwardKept P f
        → P s.world
        → P (forward env wire raw leader raft f s).1.world
    unfolding forward resume
    forward_kept raw leader f s k p =
        deliver_kept leader f _ (resume env (f.whoami s.world).1 s) k (k.on_whoami s.world p)

    send_on_kept :
        (raw : Bytes) (forwarder : Option (AdminForwarder W)) (peer : Option Text)
        (s : System C W V)
        → Forwards P forwarder
        → P s.world
        → P (send_on env wire raw raft forwarder peer s).1.world
    unfolding send_on
    send_on_kept raw forwarder none s k p = p
    send_on_kept raw none (some leader) s k p = p
    send_on_kept raw (some f) (some leader) s k p = forward_kept raw leader f s k p

    write_at_kept :
        (raw : Bytes) (r : AdminRequestV2) (verified : VerifiedAdmin)
        (forwarder : Option (AdminForwarder W)) (s : System C W V)
        → IsRooted env wire raft map r verified
        → classify_admin_op r.op ≡ write
        → Forwards P forwarder
        → P s.world
        → P (write_at env wire member_write raw r verified ctx forwarder raft s).1.world
    unfolding write_at resume
    write_at_kept raw r verified forwarder s rooted w k p =
        let s' : System C W V = resume env (raft.is_leader s.world).1 s in
        let p' : P s'.world = guarded.round.on_leader s.world p in
        elim (Bool-cases (raft.is_leader s.world).0) [
          | inl b ↦ rw b (execute_root_write_kept r verified s' rooted w p')
          | inr b ↦ rw b (send_on_kept raw forwarder _ _ k (guarded.on_peer _ p'))
        ]

    at_raft_kept :
        (f : AdminRaft W → Task (System C W V) SidecarError Bytes) (s : System C W V)
        → P (f raft s).1.world
        → P (at_raft ctx.admin_raft f s).1.world
    unfolding at_raft
    at_raft_kept f s p = subst (λ o. P (at_raft o f s).1.world) (sym ready) p

    execute_forwarded_kept :
        (r : AdminRequestV2) (result : Result AdminV2Error VerifiedAdmin) (s : System C W V)
        → ((verified : VerifiedAdmin)
            → result ≡ ok verified
            → is_root verified.role ≡ true
            → IsRooted env wire raft map r verified)
        → P s.world
        → P (execute_forwarded env wire member_write r raft ctx result s).1.world
    unfolding execute_forwarded
    execute_forwarded_kept r (err e) s rooted p = p
    execute_forwarded_kept r (ok verified) s rooted p = elim (Bool-cases (is_root verified.role)) [
      | inr b ↦ rw b p
      | inl b ↦ elim (class_cases (classify_admin_op r.op)) [
        | inl w ↦
            rw (b, w, execute_forwarded)
              (execute_root_write_kept r verified s (rooted verified refl b) w p)
        | inr (inl w) ↦ rw (b, w, execute_forwarded) p
        | inr (inr w) ↦ rw (b, w, execute_forwarded) p
      ]
    ]

    verified_IsRooted :
        (r : AdminRequestV2) (s : System C W V) (verified : VerifiedAdmin)
        → s.shared.admin_keys.keys ≡ map
        → (verify_admin env wire r s).0 ≡ ok verified
        → is_root verified.role ≡ true
        → IsRooted env wire raft map r verified
    unfolding verify_admin
    verified_IsRooted r s verified same h rooted =
        let now : ℕ = (env.now_unix s.world).0 in
        let guard : ReplayGuard = s.shared.admin_keys.guard in
        let accepted : (verify wire.crypto wire.admin_cbor r now
              (record { keys = map; guard = guard })).0
            ≡ ok verified =
          subst
            (λ keys.
              (verify wire.crypto wire.admin_cbor r now (record { keys = keys; guard = guard })).0
              ≡ ok verified)
            same h in
        let parts =
          verify_signed wire.crypto wire.admin_cbor r now (record { keys = map; guard = guard })
            verified accepted in
        record {
          guard = guard;
          asked_at = s.world;
          accepted = accepted;
          covers = parts.1;
          signed =
              subst (λ role. IsSignedBy wire.crypto map r.kid role verified.signed_bytes r.sig)
                (is_root-role verified.role rooted) parts.2;
        }

    verify_admin_kept :
        (r : AdminRequestV2) (s : System C W V) → P s.world → P (verify_admin env wire r s).1.world
    unfolding verify_admin
    verify_admin_kept r s p = guarded.round.on_clock s.world p

    execute_envelope_kept :
        (request : Result SidecarError AdminRequestV2) (s : System C W V)
        → s.shared.admin_keys.keys ≡ map
        → P s.world
        → P (execute_envelope env wire member_write raft ctx request s).1.world
    unfolding execute_envelope
    execute_envelope_kept (err e) s same p = p
    execute_envelope_kept (ok r) s same p =
        execute_forwarded_kept r _ _ (λ v. verified_IsRooted r s v same) (verify_admin_kept r s p)

    envelope_at_kept :
        (envelope : ForwardedAdminEnvelope) (s : System C W V)
        → s.shared.admin_keys.keys ≡ map
        → P s.world
        → P (envelope_at env wire member_write ctx envelope raft s).1.world
    unfolding envelope_at resume
    envelope_at_kept envelope s same p =
        let p' : P (raft.is_leader s.world).1 = guarded.round.on_leader s.world p in
        elim (Bool-cases (raft.is_leader s.world).0) [
          | inl b ↦ rw b (
              execute_envelope_kept (open_envelope env wire envelope)
                (resume env (raft.is_leader s.world).1 s)
                (keeps_keys (raft.is_leader s.world).1 s.shared ∙ same) p')
          | inr b ↦ rw b p'
        ]

    handle_envelope_kept :
        (envelope : ForwardedAdminEnvelope) (s : System C W V)
        → s.shared.admin_keys.keys ≡ map
        → P s.world
        → P (handle_envelope env wire member_write ctx envelope s).1.world
    unfolding handle_envelope
    handle_envelope_kept envelope s same p =
        elim (Bool-cases
          (not (envelope.op ≟ forwarded_admin_op) || not (envelope.v == forwarded_admin_version))) [
            | inl b ↦ rw b p
            | inr b ↦ rw b (
                at_raft_kept (envelope_at env wire member_write ctx envelope) s
                  (envelope_at_kept envelope s same p))
          ]

    handle_forwarded_admin_kept :
        (raw : Bytes) (s : System C W V)
        → s.shared.admin_keys.keys ≡ map
        → P s.world
        → P (handle_forwarded_admin env wire member_write raw ctx s).1.world
    unfolding handle_forwarded_admin
    handle_forwarded_admin_kept raw s same p = elim (Result-cases (wire.to_envelope raw)) [
      | inr (e, q) ↦ rw (q, handle_forwarded_admin) p
      | inl (envelope, q) ↦ rw (q, handle_forwarded_admin) (handle_envelope_kept envelope s same p)
    ]

    module _ (read_admin : AdminRequestV2 → Task (System C W V) SidecarError Bytes)
        (reads : (r : AdminRequestV2) (s : System C W V)
          → P s.world
          → P (read_admin r s).1.world) where
      handle_verified_kept :
          (raw : Bytes) (r : AdminRequestV2) (forwarder : Option (AdminForwarder W))
          (result : Result AdminV2Error VerifiedAdmin) (s : System C W V)
          → ((verified : VerifiedAdmin)
              → result ≡ ok verified
              → is_root verified.role ≡ true
              → IsRooted env wire raft map r verified)
          → Forwards P forwarder
          → P s.world
          → P
              (handle_verified env wire member_write read_admin raw r ctx forwarder result
                s).1.world
      unfolding handle_verified handle_root_write
      handle_verified_kept raw r forwarder (err e) s rooted k p = p
      handle_verified_kept raw r forwarder (ok verified) s rooted k p =
          elim (class_cases (classify_admin_op r.op)) [
            | inr (inl w) ↦ rw (w, handle_verified) (reads r s p)
            | inr (inr w) ↦ rw (w, handle_verified) p
            | inl w ↦ elim (Bool-cases (is_root verified.role)) [
              | inr b ↦ rw (w, b, handle_verified) p
              | inl b ↦
                  rw (w, b, handle_verified)
                    (at_raft_kept (write_at env wire member_write raw r verified ctx forwarder) s
                      (write_at_kept raw r verified forwarder s (rooted verified refl b) w k p))
            ]
          ]

      -- In Raft mode, with the node ready, let the node's keys stay as they are configured, which
      -- other tasks do not change. Let a predicate of the world be kept by the node's other calls,
      -- by those of a publication and of the forwarder, and by the handler of reads, and by the
      -- proposal of a command that an accepted request asks for: accepted under those keys at a
      -- time of the node's clock, with all its other fields signed by a key that has the root role
      -- among them. The handler of administrators' requests, whatever it is sent, forwarded or
      -- not, keeps it: what it brings into the log itself are such commands and renewals of the
      -- index.
      pub handle_admin_v2_kept :
          (raw : Bytes) (value : J) (forwarder : Option (AdminForwarder W)) (s : System C W V)
          → s.shared.admin_keys.keys ≡ map
          → Forwards P forwarder
          → P s.world
          → P (handle_admin_v2 env wire member_write read_admin raw value ctx forwarder s).1.world
      unfolding handle_admin_v2
      handle_admin_v2_kept raw value forwarder s same k p =
          elim (Bool-cases (unwrap_or (wire.get_op value) [] ≟ forwarded_admin_op)) [
            | inl b ↦ rw b (handle_forwarded_admin_kept raw s same p)
            | inr b ↦ elim (Result-cases (wire.to_admin_v2 value)) [
              | inr (e, q) ↦ rw (b, q, handle_admin_v2) p
              | inl (r, q) ↦
                  rw (b, q, handle_admin_v2)
                    (handle_verified_kept raw r forwarder (verify_admin env wire r s).0
                      (verify_admin env wire r s).1 (λ v. verified_IsRooted r s v same) k
                      (verify_admin_kept r s p))
            ]
          ]
