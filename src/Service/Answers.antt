-- ===== src/Service/Answers.antt =====
-- src/service.rs: what the answer to a write tells of the log and of the publication.
use nexus_auth.Prelude.{
  ℕ, ◌≡◌, refl, Bool, true, false, Text, Bytes, text, Result, ok, err, is_ok, if◌then◌else◌,
}
use nexus_auth.Names.{External}
use nexus_auth.Policy.Types.{PolicyCommand, PolicyResult, AdminOutcome}
use nexus_auth.Auth.Requests.{AdminRequestV2, VerifiedAdmin}
use nexus_auth.Context.{
  SidecarError, sidecar_error, with_publish_error, AdminProposal, AdminRaft, System, Env,
  AuthContext,
}
use nexus_auth.Context.Task.{resume}
use nexus_auth.Publisher.{PublishError}
use nexus_auth.Publisher.Rounds.{
  PublishOutcome, published, no_connections, not_leader, publish_once,
}
use nexus_auth.Service.{Wire, Json, policy_command_for}
use nexus_auth.Service.Errors.{publish_error}
use nexus_auth.Service.Writes.{
  encoded, committed_answer, committed, answer_proposal, admin_command, proposed, propose_write,
}

-- The records reached every connection, or there was none.
unfoldable pub went_out : Result PublishError PublishOutcome → Bool
went_out (ok (published epoch)) = true
went_out (ok no_connections) = true
went_out (ok not_leader) = false
went_out (err e) = false

-- Whether the log took the command, and changed something by it.
pub data Fate : Type 0 where
  lost unchanged changed_policy : Fate

unfoldable pub fate_of : Result Text AdminProposal → Fate
fate_of (err e) = lost
fate_of (ok proposal) = elim proposal.result [
  | PolicyResult.applied service version epoch changed ↦ lost
  | PolicyResult.rejected code message epoch ↦ lost
  | PolicyResult.admin request_id epoch index duplicate outcome ↦ elim outcome [
    | AdminOutcome.rejected code message ↦ lost
    | AdminOutcome.applied service version changed ↦ if changed then changed_policy else unchanged
  ]
]

-- Which answers are Ok, and which error tells that the command is in the log all the same.
abbrev pub Tells : Fate → Bool → Result SidecarError Bytes → Type 0
Tells lost out answer = is_ok answer ≡ false
Tells unchanged out answer = is_ok answer ≡ true
Tells changed_policy true answer = is_ok answer ≡ true
Tells changed_policy false (ok bytes) = ⊥
Tells changed_policy false (err e) = e.code ≡ text "committed_but_publish_failed"

committed_answer-Tells :
    (encode : Json → Bytes) (epoch : ℕ) (reply : Json)
    (outcome : Result PublishError PublishOutcome)
    → Tells changed_policy
        (went_out outcome)
        (encoded encode (committed_answer epoch reply outcome))
unfolding went_out committed_answer publish_error with_publish_error sidecar_error
committed_answer-Tells encode epoch reply (ok (published e)) = refl
committed_answer-Tells encode epoch reply (ok no_connections) = refl
committed_answer-Tells encode epoch reply (ok not_leader) = refl
committed_answer-Tells encode epoch reply (err e) = refl

module _ {C W J V S : Type 0} (env : Env C W V) (wire : Wire J V S) ⦃x : External⦄
    (ctx : AuthContext W) where
  -- The publication that follows a change.
  abbrev pub publication : System C W V → Result PublishError PublishOutcome
  publication s = (publish_once env wire.signing wire.toml ctx false s).0

  answer-Tells :
      (index : ℕ) (result : PolicyResult) (s : System C W V)
      → Tells
          (fate_of (ok (record { result = result; raft_index = index })))
          (went_out (publication s))
          (answer_proposal env wire ctx index result s).0
  unfolding fate_of answer_proposal committed
  answer-Tells index (PolicyResult.applied service version epoch changed) s = refl
  answer-Tells index (PolicyResult.rejected code message epoch) s = refl
  answer-Tells index (PolicyResult.admin id epoch first dup (AdminOutcome.rejected code m)) s = refl
  answer-Tells index (PolicyResult.admin id epoch first dup (AdminOutcome.applied sv v false)) s =
      refl
  answer-Tells index (PolicyResult.admin id epoch first dup (AdminOutcome.applied sv v true)) s =
      committed_answer-Tells wire.encode epoch _ (publication s)

  proposed-Tells :
      (result : Result Text AdminProposal) (s : System C W V)
      → Tells (fate_of result) (went_out (publication s)) (proposed env wire ctx result s).0
  unfolding proposed fate_of
  proposed-Tells (err e) s = refl
  proposed-Tells (ok proposal) s = answer-Tells proposal.raft_index proposal.result s

  -- Let a request ask for a command. Where the log does not take the command or the policy rejects
  -- it, the answer is an error; where it changed nothing, Ok; where it changed the policy, Ok if
  -- the publication after it reached the connections or there were none, and else the error that
  -- tells that the change is committed.
  pub propose_write-Tells :
      (r : AdminRequestV2) (verified : VerifiedAdmin) (raft : AdminRaft W) (s : System C W V)
      (command : PolicyCommand)
      → policy_command_for r ≡ ok command
      → let (result, w) = raft.propose (admin_command r verified command) s.world in
        Tells
          (fate_of result)
          (went_out (publication (resume env w s)))
          (propose_write env wire r verified raft ctx s).0
  unfolding propose_write
  propose_write-Tells r verified raft s command h =
      rw (h, propose_write)
        (proposed-Tells (raft.propose (admin_command r verified command) s.world).0
          (resume env (raft.propose (admin_command r verified command) s.world).1 s))
