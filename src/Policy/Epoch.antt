-- ===== src/Policy/Epoch.antt =====
-- The global policy epoch moves by one with every change of the policy, and never otherwise.
use nexus_auth.Prelude.{
  ℕ, ◌+◌, ◌<◌, ◌≡◌, Bool, true, false, Text, Result, ok, err, arith, u64_max, if◌then◌else◌,
  saturating_add_lt,
}
use nexus_auth.Names.{External}
use nexus_auth.Policy.Types.{PolicyState, PolicyCommand, PolicyResult, AdminOutcome, Rejection}
use nexus_auth.Policy.Services.{
  create_service, delete_service, add_members, remove_members, set_members,
}
use nexus_auth.Policy.Tokens.{issue_join_token, consume_join_token}
use nexus_auth.Policy.Apply.{Report, result_of, apply_inner, apply_admin, apply_command_at}

-- A command on tokens reports a change of the tokens, not of the policy that is published.
abbrev pub is_token_command : PolicyCommand → Bool
is_token_command (PolicyCommand.issue_join_token token) = true
is_token_command (PolicyCommand.consume_join_token jti node_id peer_id used_at) = true
is_token_command (PolicyCommand.create_service service members) = false
is_token_command _ = false

-- What the result of a command lets expect of the epoch.
abbrev pub epoch_steps : PolicyCommand → Result Rejection Report → ℕ
epoch_steps c (err e) = 0
epoch_steps c (ok r) = if is_token_command c then 0 else if r.changed then 1 else 0

module _ ⦃x : External⦄ where
  apply_inner-epoch :
      (c : PolicyCommand) (s : PolicyState)
      → s.policy_epoch < u64_max
      → (apply_inner c s).1.policy_epoch ≡ s.policy_epoch + epoch_steps c (apply_inner c s).0
  unfolding apply_inner create_service delete_service add_members remove_members set_members
      issue_join_token consume_join_token
  apply_inner-epoch (PolicyCommand.create_service service members) s h =
      ground (arith, saturating_add_lt s.policy_epoch h)
  apply_inner-epoch c s h = ground (arith, saturating_add_lt s.policy_epoch h)

-- The same, read off the result of a command that stands in the log.
abbrev pub result_steps : PolicyCommand → PolicyResult → ℕ
result_steps c (PolicyResult.applied service version epoch changed) =
    if is_token_command c then 0 else if changed then 1 else 0
result_steps c (PolicyResult.rejected code message epoch) = 0
result_steps c
      (PolicyResult.admin request_id epoch index duplicate (AdminOutcome.rejected code m)) =
    0
result_steps c
      (PolicyResult.admin request_id epoch index duplicate (AdminOutcome.applied s v changed)) =
    if duplicate then 0 else if is_token_command c then 0 else if changed then 1 else 0

-- The command that an administrator's request carries.
abbrev pub carried : PolicyCommand → PolicyCommand
carried (PolicyCommand.admin request_id kid request_hash request_ts command) = command
carried (PolicyCommand.delete_service service) = PolicyCommand.delete_service service
carried c = c

module _ ⦃x : External⦄ where
  result_of-epoch :
      (c : PolicyCommand) (s : PolicyState)
      → s.policy_epoch < u64_max
      → let (result, s') = result_of (apply_inner c s) in
        s'.policy_epoch ≡ s.policy_epoch + result_steps c result
  result_of-epoch c s h = ground (arith, apply_inner-epoch c s h)

  apply_admin-epoch :
      (request_id request_hash : Text) (request_ts : ℕ) (c : PolicyCommand) (i : ℕ)
      (s : PolicyState)
      → s.policy_epoch < u64_max
      → let (result, s') = apply_admin request_id request_hash request_ts c i s in
        s'.policy_epoch ≡ s.policy_epoch + result_steps c result
  unfolding apply_admin
  apply_admin-epoch request_id request_hash request_ts c i s h =
      ground (arith, apply_inner-epoch c s h)

  -- Below the saturation of u64, an applied command moves the policy epoch by one where its result
  -- reports a change of the policy for the first time, and by nothing where it is refused, changes
  -- nothing, is a duplicate or is about join tokens.
  pub apply-epoch :
      (c : PolicyCommand) (i : ℕ) (s : PolicyState)
      → s.policy_epoch < u64_max
      → (apply_command_at c i s).1.policy_epoch
        ≡ s.policy_epoch + result_steps (carried c) (apply_command_at c i s).0
  unfolding apply_command_at
  apply-epoch (PolicyCommand.admin request_id kid request_hash request_ts command) i s h =
      apply_admin-epoch request_id request_hash request_ts command i s h
  apply-epoch (PolicyCommand.delete_service service) i s h = result_of-epoch _ s h
  apply-epoch c i s h = result_of-epoch c s h
