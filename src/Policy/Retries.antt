-- ===== src/Policy/Retries.antt =====
-- An administrator's request that is sent again, under the same request id, has its first answer.
use nexus_auth.Prelude.{
  ℕ, suc, ◌+◌, ◌≤◌, ◌<◌, ◌≡◌, refl, sym, ap, subst, ◌∙◌, Result, ok, err, false, none, some, List,
  [], ◌∷◌, Text, arith, length, if◌then◌else◌, Option-cases, inl, inr,
}
use nexus_auth.Order.{◌≟◌, ≟_iff, text_ord}
use nexus_auth.BTree.{BTreeMap, get}
use nexus_auth.BTree.Sorted.{IsSorted}
use nexus_auth.Names.{External}
use nexus_auth.Policy.Types.{PolicyState, PolicyCommand, AdminRecord, Rejection}
use nexus_auth.Policy.Apply.{
  dedup_max_entries, Report, result_of, apply_inner, apply_admin, apply_command_at, outcome_of,
  duplicate_result,
}
use nexus_auth.Policy.Dedup.{Indexed}
use nexus_auth.Policy.Idempotence.{apply_inner-dedup, mark_duplicate, conflict}
use nexus_auth.Policy.Remembered.{InTime, AllInTime, Keeps, recorded-Keeps, more-Keeps, first-Keeps}

result_of-state : (p : Result Rejection Report × PolicyState) → (result_of p).1 ≡ p.1
result_of-state (ok r, s) = refl
result_of-state (err e, s) = refl

other_id :
    (k j : Text) (r : AdminRecord) (m : BTreeMap Text AdminRecord)
    → get k m ≡ some r
    → get j m ≡ none
    → (k ≟ j) ≡ false
other_id k j r m h e = ground (arith, h, e, ≟_iff k j)

module _ ⦃x : External⦄ where
  -- The state after a log: commands with their indices.
  unfoldable pub apply_log : List (PolicyCommand × ℕ) → PolicyState → PolicyState
  apply_log [] s = s
  apply_log ((c, i) ∷ log) s = apply_log log (apply_command_at c i s).1

  step-Keeps :
      (c : PolicyCommand) (i : ℕ) (k : Text) (r : AdminRecord) (n : ℕ) (s : PolicyState)
      → suc n ≤ dedup_max_entries
      → InTime r.request_ts c
      → Keeps k r n s.dedup
      → Keeps k r (suc n) (apply_command_at c i s).1.dedup
  unfolding apply_command_at apply_admin
  step-Keeps (PolicyCommand.admin request_id kid hash ts c) i k r n s h live a =
      elim (Option-cases (get request_id s.dedup)) [
        | inr (q, e) ↦ rw (e, apply_admin) (more-Keeps k r n s.dedup a)
        | inl e ↦
            rw (e, apply_admin, apply_inner-dedup c s)
              (recorded-Keeps k request_id r _ n s.dedup h live
                (other_id k request_id r s.dedup a.remembered.there e) a)
      ]
  step-Keeps c i k r n s h live a =
      subst (Keeps k r (suc n))
        (sym (ap (λ t. t.dedup) (result_of-state (apply_inner c s)) ∙ apply_inner-dedup c s))
        (more-Keeps k r n s.dedup a)

  log-Keeps :
      (log : List (PolicyCommand × ℕ)) (k : Text) (r : AdminRecord) (n : ℕ) (s : PolicyState)
      → n + length log ≤ dedup_max_entries
      → AllInTime r.request_ts log
      → Keeps k r n s.dedup
      → Keeps k r (n + length log) (apply_log log s).dedup
  unfolding apply_log
  log-Keeps [] k r n s h live a = subst (λ m. Keeps k r m s.dedup) (omega arith) a
  log-Keeps ((c, i) ∷ log) k r n s h live a =
      subst (λ m. Keeps k r m (apply_log log (apply_command_at c i s).1).dedup) (omega arith)
        (log-Keeps log k r (suc n) (apply_command_at c i s).1 (omega (arith, h)) live.1
          (step-Keeps c i k r n s (omega (arith, h)) live.0 a))

  -- Let a fresh administrator's request be applied at an index above those of all records, the
  -- records in the order of their keys, and let fewer than ten thousand commands follow, of any
  -- kind and at any indices, those of administrators dated no later than a day after the request.
  -- If the id of the request comes then, with any time stamp, at any index and whatever the
  -- command, the state stays as it is. With the same request hash the answer is the first one,
  -- marked as a duplicate; with another hash it is a conflict at the epoch of that time.
  pub retry_idempotent :
      (request_id kid kid' hash hash' : Text) (ts ts' i j : ℕ) (c c' : PolicyCommand)
      (log : List (PolicyCommand × ℕ)) (s : PolicyState)
      → get request_id s.dedup ≡ none
      → IsSorted s.dedup
      → Indexed i s.dedup
      → length log < dedup_max_entries
      → AllInTime ts log
      → let (first, s₁) = apply_command_at (PolicyCommand.admin request_id kid hash ts c) i s in
        let s' = apply_log log s₁ in
        apply_command_at (PolicyCommand.admin request_id kid' hash' ts' c') j s' ≡ (
          (if hash ≟ hash' then mark_duplicate first else conflict request_id s'.policy_epoch j),
          s',
        )
  unfolding apply_command_at apply_admin duplicate_result
  retry_idempotent request_id kid kid' hash hash' ts ts' i j c c' log s fresh sorted indexed few
        live =
      let r : AdminRecord = record {
        request_hash = hash;
        outcome = outcome_of (apply_inner c s).0;
        policy_epoch = (apply_inner c s).1.policy_epoch;
        raft_index = i;
        request_ts = ts;
      } in
      let s₁ : PolicyState =
        (apply_command_at (PolicyCommand.admin request_id kid hash ts c) i s).1 in
      let made : Keeps request_id r 1 s₁.dedup =
        rw (fresh, apply_admin, apply_inner-dedup c s)
          (first-Keeps request_id r s.dedup sorted indexed fresh) in
      let kept = log-Keeps log request_id r 1 s₁ (omega (arith, few)) live made in
      ground (arith, fresh, kept.remembered.there)
