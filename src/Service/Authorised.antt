-- ===== src/Service/Authorised.antt =====
-- src/service.rs: what reaches the Raft log through the handler of administrators' requests.
use nexus_auth.Prelude.{
  ℕ, ◌≡◌, inl, inr, Bool, true, false, Option, none, some, Text, Bytes, Result, ok, err,
  Result-cases, if◌then◌else◌,
}
use nexus_auth.Order.{text_ord}
use nexus_auth.Names.{External}
use nexus_auth.Policy.Types.{PolicyCommand, PolicyResult, AdminOutcome}
use nexus_auth.BTree.{BTreeMap}
use nexus_auth.Replay.{ReplayGuard}
use nexus_auth.Auth.Requests.{AdminRole, root, AdminRequestV2, VerifiedAdmin}
use nexus_auth.Auth.Signature.{IsSignedBy, content}
use nexus_auth.Auth.AdminV2.{verify}
use nexus_auth.Context.{AdminProposal, AdminRaft, AdminForwarder, System, Env, AuthContext}
use nexus_auth.Context.Task.{resume}
use nexus_auth.Publisher.Kept.{IsRoundKept, publish_once_kept}
use nexus_auth.Service.{Wire, policy_command_for}
use nexus_auth.Service.Writes.{
  publish_requested, committed, answer_proposal, admin_command, proposed, propose_write,
}

-- The calls of a forwarder keep `P`.
pub record IsForwardKept {W : Type 0} (P : W → Type 0) (f : AdminForwarder W) : Type 0 where
  pub on_whoami : (w : W) → P w → P (f.whoami w).1
  pub on_forward :
      (service peer : Text) (payload : Bytes) (w : W)
      → P w
      → P (f.forward_admin service peer payload w).1

abbrev pub Forwards : {W : Type 0} → (W → Type 0) → Option (AdminForwarder W) → Type 0
Forwards P none = Unit
Forwards P (some f) = IsForwardKept P f

module _ {C W J V S : Type 0} (env : Env C W V) (wire : Wire J V S) ⦃x : External⦄
    (raft : AdminRaft W) where
  -- The request was accepted under the keys `map`, at a time that the clock gave, and its content is
  -- signed by a root key among them.
  pub record IsRooted (map : BTreeMap Text (V × AdminRole)) (r : AdminRequestV2)
      (verified : VerifiedAdmin) : Type 0 where
    pub guard : ReplayGuard
    pub asked_at : W
    pub accepted :
        (verify wire.crypto wire.admin_cbor r
          (env.now_unix asked_at).0
          (record { keys = map; guard = guard })).0
        ≡ ok verified
    pub covers :
        wire.admin_cbor.signed_bytes (content r r.member r.join_token) ≡ ok verified.signed_bytes
    pub signed : IsSignedBy wire.crypto map r.kid root verified.signed_bytes r.sig

  -- A request that a root key has signed asks for the command.
  pub record IsAuthorised (map : BTreeMap Text (V × AdminRole)) (r : AdminRequestV2)
      (verified : VerifiedAdmin) (command : PolicyCommand) : Type 0 where
    pub rooted : IsRooted map r verified
    pub asked : policy_command_for r ≡ ok command

  -- `P` holds as long as every command of an administrator that reaches the log is authorised.
  pub record IsLogGuarded (map : BTreeMap Text (V × AdminRole)) (P : W → Type 0) : Type 0 where
    pub round : IsRoundKept env raft P
    pub on_peer : (w : W) → P w → P (raft.leader_peer w).1
    pub on_applied : (w : W) → P w → P (raft.applied_index w).1
    pub on_admin :
        (r : AdminRequestV2) (verified : VerifiedAdmin) (command : PolicyCommand) (w : W)
        → IsAuthorised map r verified command
        → P w
        → P (raft.propose (admin_command r verified command) w).1

  module _ (ctx : AuthContext W) (map : BTreeMap Text (V × AdminRole)) (P : W → Type 0)
      (guarded : IsLogGuarded map P) (raft_required : ctx.raft_required ≡ true)
      (ready : ctx.admin_raft ≡ some raft) where
    pub publish_requested_kept :
        (request_id : Text) (s : System C W V)
        → P s.world
        → P (publish_requested env wire request_id raft ctx s).1.world
    unfolding publish_requested resume
    publish_requested_kept request_id s p = guarded.on_applied _ (
        guarded.round.on_snapshot _ (
          publish_once_kept env wire.signing ctx raft P guarded.round wire.toml true s raft_required
            ready p))

    committed_kept :
        (request_id : Text) (epoch index : ℕ) (duplicate : Bool) (outcome : AdminOutcome)
        (s : System C W V)
        → P s.world
        → P (committed env wire ctx request_id epoch index duplicate outcome s).1.world
    unfolding committed
    committed_kept request_id epoch index duplicate (AdminOutcome.rejected code message) s p = p
    committed_kept request_id epoch index duplicate (AdminOutcome.applied service v false) s p = p
    committed_kept request_id epoch index duplicate (AdminOutcome.applied service v true) s p =
        publish_once_kept env wire.signing ctx raft P guarded.round wire.toml false s raft_required
          ready p

    answered_kept :
        (index : ℕ) (result : PolicyResult) (s : System C W V)
        → P s.world
        → P (answer_proposal env wire ctx index result s).1.world
    unfolding answer_proposal
    answered_kept index (PolicyResult.admin request_id epoch first duplicate outcome) s p =
        committed_kept request_id epoch (if duplicate then first else index) duplicate outcome s p
    answered_kept index (PolicyResult.applied service version epoch changed) s p = p
    answered_kept index (PolicyResult.rejected code message epoch) s p = p

    proposed_kept :
        (result : Result Text AdminProposal) (s : System C W V)
        → P s.world
        → P (proposed env wire ctx result s).1.world
    unfolding proposed
    proposed_kept (err e) s p = p
    proposed_kept (ok proposal) s p = answered_kept proposal.raft_index proposal.result s p

    pub propose_write_kept :
        (r : AdminRequestV2) (verified : VerifiedAdmin) (s : System C W V)
        → IsRooted map r verified
        → P s.world
        → P (propose_write env wire r verified raft ctx s).1.world
    unfolding propose_write resume
    propose_write_kept r verified s rooted p = elim (Result-cases (policy_command_for r)) [
      | inr (e, q) ↦ rw (q, propose_write) p
      | inl (command, q) ↦
          rw (q, propose_write)
            (proposed_kept _ _ (
              guarded.on_admin r verified command s.world (record { rooted = rooted; asked = q })
                p))
    ]
