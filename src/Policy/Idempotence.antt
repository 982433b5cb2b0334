-- ===== src/Policy/Idempotence.antt =====
-- The table of administrators' requests: which commands touch it, and the answers to an id that is
-- in it.
use nexus_auth.Prelude.{
  ℕ, suc, zero, ◌≤◌, ◌<◌, ◌≡◌, refl, Bool, true, false, List, [], ◌∷◌, ◌++◌, Text, text, arith,
  Option-cases, inl, inr,
}
use nexus_auth.Order.{text_ord}
use nexus_auth.BTree.{BTreeMap, BTreeSet, get, insert, remove, retain}
use nexus_auth.Names.{External}
use nexus_auth.Snapshot.{ServiceState}
use nexus_auth.Policy.Types.{PolicyState, PolicyCommand, PolicyResult, AdminOutcome, AdminRecord}
use nexus_auth.Policy.Services.{
  create_service, delete_service, change_members, finish_change, add_members, remove_members,
  set_members,
}
use nexus_auth.Policy.Tokens.{issue_join_token, consume_join_token}
use nexus_auth.Policy.Apply.{
  apply_inner, apply_admin, apply_command_at, prune_dedup, evict_oldest, oldest, oldest_from,
}
use nexus_auth.Policy.Dedup.{Indexed}

finish_change-dedup :
    (service : Text) (st : ServiceState) (changed : Bool) (s : PolicyState)
    → (finish_change service st changed s).1.dedup ≡ s.dedup
unfolding finish_change
finish_change-dedup service st true s = refl
finish_change-dedup service st false s = refl

module _ ⦃x : External⦄ where
  change_members-dedup :
      (service : Text) (peers : List Text) (update : BTreeSet Text → Bool × BTreeSet Text)
      (s : PolicyState)
      → (change_members service peers update s).1.dedup ≡ s.dedup
  unfolding change_members finish_change
  change_members-dedup service peers update s = ground arith

  -- The inner command never touches the table of requests.
  pub apply_inner-dedup :
      (c : PolicyCommand) (s : PolicyState) → (apply_inner c s).1.dedup ≡ s.dedup
  unfolding apply_inner create_service delete_service add_members remove_members set_members
      issue_join_token consume_join_token
  apply_inner-dedup (PolicyCommand.create_service service members) s = ground arith
  apply_inner-dedup c s = ground arith

-- The same answer, marked as a duplicate.
abbrev pub mark_duplicate : PolicyResult → PolicyResult
mark_duplicate (PolicyResult.admin request_id epoch index duplicate outcome) =
    PolicyResult.admin request_id epoch index true outcome
mark_duplicate (PolicyResult.applied service version epoch changed) =
    PolicyResult.applied service version epoch changed
mark_duplicate r = r

-- The answer to a request id that was used with another content.
abbrev pub conflict : Text → ℕ → ℕ → PolicyResult
conflict request_id epoch index = PolicyResult.admin request_id epoch index true (
    AdminOutcome.rejected (text "request_id_conflict")
      (text "request_id " ++ request_id ++ text " reused with different request content"))

-- One more record under the index `i` leaves every index below `i + 1`.
Indexed-mono : (i j : ℕ) (m : BTreeMap Text AdminRecord) → i ≤ j → Indexed i m → Indexed j m
Indexed-mono i j [] h x = tt
Indexed-mono i j ((k, r) ∷ m) h x = (omega (arith, x.0), Indexed-mono i j m h x.1)

insert-Indexed :
    (i : ℕ) (k : Text) (r : AdminRecord) (m : BTreeMap Text AdminRecord)
    → r.raft_index < i
    → Indexed i m
    → Indexed i (insert k r m)
unfolding insert
insert-Indexed i k r [] h x = (h, tt)
insert-Indexed i k r ((j, w) ∷ m) h x = ground (arith, insert-Indexed i k r m h x.1)

remove-Indexed :
    (i : ℕ) (k : Text) (m : BTreeMap Text AdminRecord) → Indexed i m → Indexed i (remove k m)
unfolding remove
remove-Indexed i k [] x = tt
remove-Indexed i k ((j, w) ∷ m) x = ground (arith, remove-Indexed i k m x.1)

retain-Indexed :
    (i : ℕ) (p : AdminRecord → Bool) (m : BTreeMap Text AdminRecord)
    → Indexed i m
    → Indexed i (retain p m)
unfolding retain
retain-Indexed i p [] x = tt
retain-Indexed i p ((j, w) ∷ m) x = ground (arith, retain-Indexed i p m x.1)

evict_oldest-Indexed :
    (fuel i : ℕ) (m : BTreeMap Text AdminRecord) → Indexed i m → Indexed i (evict_oldest fuel m)
unfolding evict_oldest oldest
evict_oldest-Indexed zero i m x = x
evict_oldest-Indexed (suc fuel) i [] x = ground arith
evict_oldest-Indexed (suc fuel) i (e ∷ m) x =
    let k = oldest_from e.0 e.1.raft_index m in
    ground (arith, x, evict_oldest-Indexed fuel i (remove k (e ∷ m)) (remove-Indexed i k (e ∷ m) x))

module _ ⦃x : External⦄ where
  -- Along a log whose indices rise, every record's index stays below the next one.
  pub apply-Indexed :
      (c : PolicyCommand) (i j : ℕ) (s : PolicyState)
      → Indexed i s.dedup
      → i < j
      → Indexed j (apply_command_at c i s).1.dedup
  unfolding apply_command_at apply_admin prune_dedup
  apply-Indexed (PolicyCommand.admin request_id kid hash ts c) i j s indexed h =
      elim (Option-cases (get request_id s.dedup)) [
        | inr (r, e) ↦ rw (e, apply_admin) (Indexed-mono i j s.dedup (omega arith) indexed)
        | inl e ↦
            rw (e, apply_admin)
              (evict_oldest-Indexed _ j _ (
                retain-Indexed j _ _ (
                  insert-Indexed j request_id _ _ h
                    (rw (apply_inner-dedup c s) (Indexed-mono i j s.dedup (omega arith) indexed)))))
      ]
  apply-Indexed (PolicyCommand.delete_service service) i j s indexed h =
      ground (
        arith,
        apply_inner-dedup (PolicyCommand.delete_service service) s,
        Indexed-mono i j s.dedup,
      )
  apply-Indexed c i j s indexed h = ground (arith, apply_inner-dedup c s, Indexed-mono i j s.dedup)
