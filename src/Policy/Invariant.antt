-- ===== src/Policy/Invariant.antt =====
-- Every command of the log keeps the state well formed, and the indices of its records in order.
use nexus_auth.Prelude.{
  ℕ, suc, zero, false, [], ◌∷◌, Text, Result, ok, err, arith, Option-cases, inl, inr,
}
use nexus_auth.Order.{text_ord}
use nexus_auth.BTree.{BTreeMap, get, remove, collect}
use nexus_auth.BTree.Sorted.{IsSorted, insert-IsSorted, remove-IsSorted, retain-IsSorted}
use nexus_auth.BTree.Sets.{collect-IsSorted}
use nexus_auth.Names.{External}
use nexus_auth.Policy.Types.{PolicyState, PolicyCommand, AdminRecord, Rejection, new}
use nexus_auth.Policy.Services.{add_members, remove_members, set_members}
use nexus_auth.Policy.Apply.{
  Report, done, result_of, evict_oldest, prune_dedup, is_live, oldest, oldest_from, apply_inner,
  apply_admin, apply_command_at,
}
use nexus_auth.Policy.Dedup.{prune_dedup-bounded}
use nexus_auth.Policy.WellFormed.{
  IsWellFormed, insert_all-KeepsOrder, remove_all-KeepsOrder, replace-KeepsOrder,
  create_service-IsWellFormed, delete_service-IsWellFormed, change_members-IsWellFormed,
  issue_join_token-IsWellFormed, consume_join_token-IsWellFormed,
}

module _ ⦃x : External⦄ where
  done-IsWellFormed {ℓ} :
      {A : Type ℓ} (report : A → Report) (r : Result Rejection A × PolicyState)
      → IsWellFormed r.1
      → IsWellFormed (done report r).1
  done-IsWellFormed report (ok a, s) w = w
  done-IsWellFormed report (err e, s) w = w

  apply_inner-IsWellFormed :
      (c : PolicyCommand) (s : PolicyState) → IsWellFormed s → IsWellFormed (apply_inner c s).1
  unfolding apply_inner add_members remove_members set_members
  apply_inner-IsWellFormed (PolicyCommand.create_service service members) s w =
      done-IsWellFormed _ _ (create_service-IsWellFormed service members s w)
  apply_inner-IsWellFormed (PolicyCommand.delete_service service) s w =
      done-IsWellFormed _ _ (delete_service-IsWellFormed service s w)
  apply_inner-IsWellFormed (PolicyCommand.add_members service peers) s w =
      done-IsWellFormed _ _
        (change_members-IsWellFormed service peers _ s (insert_all-KeepsOrder peers false) w)
  apply_inner-IsWellFormed (PolicyCommand.remove_members service peers) s w =
      done-IsWellFormed _ _
        (change_members-IsWellFormed service peers _ s (remove_all-KeepsOrder peers false) w)
  apply_inner-IsWellFormed (PolicyCommand.set_members service peers) s w = done-IsWellFormed _ _ (
      change_members-IsWellFormed service peers _ s
        (replace-KeepsOrder (collect peers) (collect-IsSorted peers)) w)
  apply_inner-IsWellFormed (PolicyCommand.admin request_id kid request_hash request_ts command) s
        w =
      w
  apply_inner-IsWellFormed (PolicyCommand.renew_index expires_at) s w = record {
    services = w.services;
    tombstones = w.tombstones;
    tokens = w.tokens;
    dedup = w.dedup;
    bounded = w.bounded;
  }
  apply_inner-IsWellFormed (PolicyCommand.issue_join_token token) s w =
      done-IsWellFormed _ _ (issue_join_token-IsWellFormed token s w)
  apply_inner-IsWellFormed (PolicyCommand.consume_join_token jti node_id peer_id used_at) s w =
      done-IsWellFormed _ _ (consume_join_token-IsWellFormed jti peer_id used_at s w)

pub evict_oldest-IsSorted :
    (fuel : ℕ) (m : BTreeMap Text AdminRecord) → IsSorted m → IsSorted (evict_oldest fuel m)
unfolding evict_oldest oldest
evict_oldest-IsSorted zero m h = h
evict_oldest-IsSorted (suc fuel) [] h = ground arith
evict_oldest-IsSorted (suc fuel) (e ∷ m) h =
    let k = oldest_from e.0 e.1.raft_index m in
    ground (arith, h, evict_oldest-IsSorted fuel (remove k (e ∷ m)) (remove-IsSorted k (e ∷ m) h))

pub prune_dedup-IsSorted :
    (now : ℕ) (m : BTreeMap Text AdminRecord) → IsSorted m → IsSorted (prune_dedup now m)
unfolding prune_dedup
prune_dedup-IsSorted now m h = evict_oldest-IsSorted _ _ (retain-IsSorted (is_live now) m h)

module _ ⦃x : External⦄ where
  apply_admin-IsWellFormed :
      (request_id request_hash : Text) (request_ts : ℕ) (c : PolicyCommand) (i : ℕ)
      (s : PolicyState)
      → IsWellFormed s
      → IsWellFormed (apply_admin request_id request_hash request_ts c i s).1
  unfolding apply_admin
  apply_admin-IsWellFormed request_id request_hash request_ts c i s w =
      elim (Option-cases (get request_id s.dedup)) [
        | inr (r, e) ↦ rw (e, apply_admin) w
        | inl e ↦
            let w' = apply_inner-IsWellFormed c s w in
            rw (e, apply_admin)
              (record {
                services = w'.services;
                tombstones = w'.tombstones;
                tokens = w'.tokens;
                dedup = prune_dedup-IsSorted _ _ (insert-IsSorted request_id _ _ w'.dedup);
                bounded = prune_dedup-bounded request_ts _;
              })
      ]

  result_of-IsWellFormed :
      (r : Result Rejection Report × PolicyState) → IsWellFormed r.1 → IsWellFormed (result_of r).1
  result_of-IsWellFormed (ok a, s) w = w
  result_of-IsWellFormed (err e, s) w = w

  -- Any command, at any index of the log, keeps a state well formed: its maps and member sets in
  -- order, and at most ten thousand records of administrators' requests.
  pub apply-IsWellFormed :
      (c : PolicyCommand) (i : ℕ) (s : PolicyState)
      → IsWellFormed s
      → IsWellFormed (apply_command_at c i s).1
  unfolding apply_command_at
  apply-IsWellFormed (PolicyCommand.admin request_id kid request_hash request_ts command) i s w =
      apply_admin-IsWellFormed request_id request_hash request_ts command i s w
  apply-IsWellFormed (PolicyCommand.delete_service service) i s w =
      result_of-IsWellFormed _ (apply_inner-IsWellFormed _ s w)
  apply-IsWellFormed c i s w = result_of-IsWellFormed _ (apply_inner-IsWellFormed c s w)

pub new-IsWellFormed : (network : Text) → IsWellFormed (new network)
unfolding new get
new-IsWellFormed network = record {
  services = record { by_name = tt; by_member = λ k st e. cc };
  tombstones = tt;
  tokens = tt;
  dedup = tt;
  bounded = omega arith;
}
