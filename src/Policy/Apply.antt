-- ===== src/Policy/Apply.antt =====
-- `apply_command_at`: one committed command, with the table of administrators' requests that makes
-- a repeated request idempotent (src/raft/state_machine.rs).
use nexus_auth.Prelude.{
  ℕ, zero, suc, ◌-◌, Bool, true, false, Option, none, some, [], ◌∷◌, ◌++◌, Text, text, length,
  Result, ok, err, if◌then◌else◌, ltb, leb,
}
use nexus_auth.Order.{text_ord, ◌≟◌}
use nexus_auth.BTree.{BTreeMap, get, insert, remove, retain}
use nexus_auth.Names.{External}
use nexus_auth.Policy.Types.{
  PolicyState, PolicyCommand, PolicyResult, AdminOutcome, AdminRecord, Rejection, Step, reject,
}
use nexus_auth.Policy.Services.{
  create_service, delete_service, add_members, remove_members, set_members, bump_epoch,
}
use nexus_auth.Policy.Tokens.{issue_join_token, consume_join_token}

abbrev pub dedup_max_entries : ℕ
dedup_max_entries = 10000

abbrev pub dedup_ttl_secs : ℕ
dedup_ttl_secs = 86400

-- What a command reports: the service or token, a version, and whether anything changed.
pub record Report : Type 0 where
  pub service : Option Text
  pub version : Option ℕ
  pub changed : Bool

abbrev pub done {ℓ} :
    {A : Type ℓ}
    → (A → Report)
    → Result Rejection A × PolicyState
    → Result Rejection Report × PolicyState
done report (ok a, s) = (ok (report a), s)
done report (err e, s) = (err e, s)

abbrev member_report : Text → ℕ × Bool → Report
member_report service (version, changed) = record {
  service = some service;
  version = some version;
  changed = changed;
}

module _ ⦃x : External⦄ where
  unfoldable pub apply_inner : PolicyCommand → Step Report
  unfolding bump_epoch
  apply_inner (PolicyCommand.create_service service members) s =
      done (λ v. record { service = some service; version = some v; changed = true })
        (create_service service members s)
  apply_inner (PolicyCommand.delete_service service) s =
      done (λ v. record { service = some service; version = some v; changed = true })
        (delete_service service s)
  apply_inner (PolicyCommand.add_members service peers) s =
      done (member_report service) (add_members service peers s)
  apply_inner (PolicyCommand.remove_members service peers) s =
      done (member_report service) (remove_members service peers s)
  apply_inner (PolicyCommand.set_members service peers) s =
      done (member_report service) (set_members service peers s)
  apply_inner (PolicyCommand.admin request_id kid request_hash request_ts command) s =
      reject (text "bad_command") (text "nested Admin command is not allowed") s
  apply_inner (PolicyCommand.renew_index expires_at) s = (
    ok (record { service = none; version = none; changed = true }),
    record (bump_epoch s) { index_expires_at = expires_at },
  )
  apply_inner (PolicyCommand.issue_join_token token) s =
      done
        (λ _. record { service = some token.jti; version = some token.expires_at; changed = true })
        (issue_join_token token s)
  apply_inner (PolicyCommand.consume_join_token jti node_id peer_id used_at) s =
      done (λ _. record { service = some jti; version = none; changed = true })
        (consume_join_token jti peer_id used_at s)

-- `iter().min_by_key(|(_, r)| r.raft_index)`: the first of the entries with the least index.
unfoldable pub oldest_from : Text → ℕ → BTreeMap Text AdminRecord → Text
oldest_from best least [] = best
oldest_from best least ((k, r) ∷ m) =
    oldest_from (if ltb r.raft_index least then k else best)
      (if ltb r.raft_index least then r.raft_index else least) m

unfoldable pub oldest : BTreeMap Text AdminRecord → Option Text
unfolding oldest_from
oldest [] = none
oldest ((k, r) ∷ m) = some (oldest_from k r.raft_index m)

-- `while self.dedup.len() > DEDUP_MAX_ENTRIES`, a round for each entry at most.
unfoldable pub evict_oldest : ℕ → BTreeMap Text AdminRecord → BTreeMap Text AdminRecord
evict_oldest zero m = m
evict_oldest (suc fuel) m = elim (ltb dedup_max_entries (length m)) [
  | false ↦ m
  | true ↦ elim (oldest m) [ none ↦ m | some k ↦ evict_oldest fuel (remove k m) ]
]

-- `now.saturating_sub(record.request_ts) <= DEDUP_TTL_SECS`
unfoldable pub is_live : ℕ → AdminRecord → Bool
is_live now r = leb (now - r.request_ts) dedup_ttl_secs

unfoldable pub prune_dedup : ℕ → BTreeMap Text AdminRecord → BTreeMap Text AdminRecord
unfolding evict_oldest is_live
prune_dedup now m = let live = retain (is_live now) m in evict_oldest (length live) live

abbrev pub outcome_of : Result Rejection Report → AdminOutcome
outcome_of (ok r) = AdminOutcome.applied r.service r.version r.changed
outcome_of (err e) = AdminOutcome.rejected e.code e.message

-- The answer to a request id that is recorded.
unfoldable pub duplicate_result : Text → Text → ℕ → PolicyState → AdminRecord → PolicyResult
duplicate_result request_id request_hash raft_index s r =
    if r.request_hash ≟ request_hash
    then PolicyResult.admin request_id r.policy_epoch r.raft_index true r.outcome
    else PolicyResult.admin request_id s.policy_epoch raft_index true (
        AdminOutcome.rejected (text "request_id_conflict")
          (text "request_id " ++ request_id ++ text " reused with different request content"))

abbrev pub result_of : Result Rejection Report × PolicyState → PolicyResult × PolicyState
result_of (ok r, s) = (PolicyResult.applied r.service r.version s.policy_epoch r.changed, s)
result_of (err e, s) = (PolicyResult.rejected e.code e.message s.policy_epoch, s)

module _ ⦃x : External⦄ where
  unfoldable pub apply_admin :
      Text → Text → ℕ → PolicyCommand → ℕ → PolicyState → PolicyResult × PolicyState
  unfolding duplicate_result
  apply_admin request_id request_hash request_ts command raft_index s =
      elim (get request_id s.dedup) [
        | some r ↦ (duplicate_result request_id request_hash raft_index s r, s)
        | none ↦
            let (result, s') = apply_inner command s in
            let entry : AdminRecord = record {
              request_hash = request_hash;
              outcome = outcome_of result;
              policy_epoch = s'.policy_epoch;
              raft_index = raft_index;
              request_ts = request_ts;
            } in
            (
              PolicyResult.admin request_id s'.policy_epoch raft_index false (outcome_of result),
              record s' { dedup = prune_dedup request_ts (insert request_id entry s'.dedup) },
            )
      ]

  unfoldable pub apply_command_at : PolicyCommand → ℕ → PolicyState → PolicyResult × PolicyState
  apply_command_at (PolicyCommand.admin request_id kid request_hash request_ts command) raft_index
        s =
      apply_admin request_id request_hash request_ts command raft_index s
  apply_command_at command raft_index s = result_of (apply_inner command s)

  -- `apply_command`
  abbrev pub apply_command : PolicyCommand → PolicyState → PolicyResult × PolicyState
  apply_command command = apply_command_at command 0
