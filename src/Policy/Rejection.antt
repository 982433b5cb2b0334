-- ===== src/Policy/Rejection.antt =====
-- A refused command changes nothing.
use nexus_auth.Prelude.{ℕ, ◌≡◌, refl, ap, Bool, true, false, List, [], Text, is_ok, arith}
use nexus_auth.BTree.{BTreeSet}
use nexus_auth.Names.{External}
use nexus_auth.Policy.Types.{
  PolicyState, PolicyCommand, PolicyResult, AdminOutcome, JoinToken, Step,
}
use nexus_auth.Policy.Services.{
  create_service, delete_service, change_members, add_members, remove_members, set_members,
}
use nexus_auth.Policy.Tokens.{issue_join_token, consume_join_token}
use nexus_auth.Policy.Apply.{Report, done, result_of, apply_inner, apply_admin, apply_command_at}

-- Whatever refuses, the state is then the one before.
abbrev pub Atomic {ℓ} : {A : Type ℓ} → Step A → Type 0
Atomic m = (s : PolicyState) → is_ok (m s).0 ≡ false → (m s).1 ≡ s

module _ ⦃x : External⦄ where
  create_service-Atomic :
      (service : Text) (members : List Text) → Atomic (create_service service members)
  unfolding create_service
  create_service-Atomic service members s h = ground arith

  delete_service-Atomic : (service : Text) → Atomic (delete_service service)
  unfolding delete_service
  delete_service-Atomic service s h = ground arith

  change_members-Atomic :
      (service : Text) (peers : List Text) (update : BTreeSet Text → Bool × BTreeSet Text)
      → Atomic (change_members service peers update)
  unfolding change_members
  change_members-Atomic service peers update s h = ground arith

  issue_join_token-Atomic : (token : JoinToken) → Atomic (issue_join_token token)
  unfolding issue_join_token
  issue_join_token-Atomic token s h = ground arith

  consume_join_token-Atomic :
      (jti peer_id : Text) (used_at : ℕ) → Atomic (consume_join_token jti peer_id used_at)
  unfolding consume_join_token
  consume_join_token-Atomic jti peer_id used_at s h = ground arith

  done-Atomic {ℓ} :
      {A : Type ℓ} (report : A → Report) (m : Step A) → Atomic m → Atomic (λ s. done report (m s))
  done-Atomic report m a s h = ground (arith, a s)

  pub apply_inner-Atomic : (c : PolicyCommand) → Atomic (apply_inner c)
  unfolding apply_inner add_members remove_members set_members
  apply_inner-Atomic (PolicyCommand.create_service service members) =
      done-Atomic _ _ (create_service-Atomic service members)
  apply_inner-Atomic (PolicyCommand.delete_service service) =
      done-Atomic _ _ (delete_service-Atomic service)
  apply_inner-Atomic (PolicyCommand.add_members service peers) =
      done-Atomic _ _ (change_members-Atomic service peers _)
  apply_inner-Atomic (PolicyCommand.remove_members service peers) =
      done-Atomic _ _ (change_members-Atomic service peers _)
  apply_inner-Atomic (PolicyCommand.set_members service peers) =
      done-Atomic _ _ (change_members-Atomic service peers _)
  apply_inner-Atomic (PolicyCommand.admin request_id kid request_hash request_ts command) =
      λ s h. refl
  apply_inner-Atomic (PolicyCommand.renew_index expires_at) = λ s h. cc
  apply_inner-Atomic (PolicyCommand.issue_join_token token) =
      done-Atomic _ _ (issue_join_token-Atomic token)
  apply_inner-Atomic (PolicyCommand.consume_join_token jti node_id peer_id used_at) =
      done-Atomic _ _ (consume_join_token-Atomic jti peer_id used_at)

-- The result says that the command was refused, directly or as an administrator's request.
abbrev pub is_rejected : PolicyResult → Bool
is_rejected (PolicyResult.applied service version epoch changed) = false
is_rejected (PolicyResult.rejected code message epoch) = true
is_rejected (PolicyResult.admin request_id epoch index duplicate (AdminOutcome.applied s v c)) =
    false
is_rejected (PolicyResult.admin request_id epoch index duplicate (AdminOutcome.rejected c m)) = true

-- The state but for the table of administrators' requests.
abbrev pub policy_part : PolicyState → PolicyState
policy_part s = record s { dedup = [] }

module _ ⦃x : External⦄ where
  result_of-Atomic :
      (m : Step Report)
      → Atomic m
      → (s : PolicyState) → is_rejected (result_of (m s)).0 ≡ true
      → (result_of (m s)).1 ≡ s
  result_of-Atomic m a s h = ground (arith, a s)

  apply_admin-Atomic :
      (request_id request_hash : Text) (request_ts : ℕ) (c : PolicyCommand) (i : ℕ)
      (s : PolicyState)
      → is_rejected (apply_admin request_id request_hash request_ts c i s).0 ≡ true
      → policy_part (apply_admin request_id request_hash request_ts c i s).1 ≡ policy_part s
  unfolding apply_admin
  apply_admin-Atomic request_id request_hash request_ts c i s h =
      ground (arith, apply_inner-Atomic c s)

  -- A command that is refused, an administrator's or not, leaves the network, epoch, index expiry,
  -- services, tombstones and join tokens as they were.
  pub rejected_keeps :
      (c : PolicyCommand) (i : ℕ) (s : PolicyState)
      → is_rejected (apply_command_at c i s).0 ≡ true
      → policy_part (apply_command_at c i s).1 ≡ policy_part s
  unfolding apply_command_at
  rejected_keeps (PolicyCommand.admin request_id kid request_hash request_ts command) i s h =
      apply_admin-Atomic request_id request_hash request_ts command i s h
  rejected_keeps (PolicyCommand.create_service service members) i s h =
      ap policy_part (result_of-Atomic _ (apply_inner-Atomic _) s h)
  rejected_keeps c i s h =
      ap policy_part (result_of-Atomic (apply_inner c) (apply_inner-Atomic c) s h)
