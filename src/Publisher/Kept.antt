-- ===== src/Publisher/Kept.antt =====
-- src/publisher.rs: what every call of a round in Raft mode keeps, the round keeps.
use nexus_auth.Prelude.{
  ℕ, ◌≡◌, inl, inr, Bool, true, some, List, Text, Bytes, Result, Done, ok, err, Bool-cases, ◌||◌,
  leb, ◌==◌,
}
use nexus_auth.Names.{External}
use nexus_auth.Policy.Types.{PolicyCommand, PolicyState}
use nexus_auth.Legacy.Types.{Toml}
use nexus_auth.Authority.{ServiceEntry, Signing}
use nexus_auth.Context.{AdminProposal, AdminRaft, System, Env, AuthContext}
use nexus_auth.Context.Task.{resume, await, attempt}
use nexus_auth.Publisher.{PublishError, record_success, record_failure}
use nexus_auth.Publisher.Calls.{IsKept, allowed_any, publish_whitelists-Kept, publish_index-Kept}
use nexus_auth.Publisher.Rounds.{
  recorded, publish_state, renew_index, renewed, publish_once, publish_once_ind, publish_renewed,
  publish_as_leader, index_written, whitelists_written, publish_entries, listed, lost_leadership,
  no_expiry, is_stale, renew_failed,
}
use nexus_auth.Publisher.Status.{publish_once_raft-publish_as_leader}

-- The calls of a round keep `P`.
pub record IsRoundKept {C W V : Type 0} (env : Env C W V) (raft : AdminRaft W) (P : W → Type 0)
    : Type 0 where
  pub on_write :
      (c : C) (key : Text) (value : Bytes) (w : W) → P w → P (env.add_key c key value w).1
  pub on_sleep : (ms : ℕ) (w : W) → P w → P (env.sleep ms w)
  pub on_clock : (w : W) → P w → P (env.now_unix w).1
  pub on_leader : (w : W) → P w → P (raft.is_leader w).1
  pub on_snapshot : (w : W) → P w → P (raft.policy_snapshot w).1
  pub on_renew :
      (expires_at : ℕ) (w : W) → P w → P (raft.propose (PolicyCommand.renew_index expires_at) w).1

module _ {C W V S : Type 0} (env : Env C W V) (l : Signing V S) ⦃x : External⦄ (ctx : AuthContext W)
    (raft : AdminRaft W) (P : W → Type 0) (kept : IsRoundKept env raft P) where
  abbrev Good : System C W V → Type 0
  Good s = P s.world

  writes_kept : IsKept env (λ _ _. Unit {0}) Good
  unfolding resume
  writes_kept = record {
    on_write = λ c key value s _ h. kept.on_write c key value s.world h;
    on_sleep = λ ms s h. kept.on_sleep ms s.world h;
  }

  recorded_kept :
      (epoch : ℕ) (e : PublishError) (s : System C W V) → Good s → Good (recorded env epoch e s)
  unfolding recorded record_failure
  recorded_kept epoch e s h = kept.on_clock s.world h

  index_written_kept :
      (epoch : ℕ) (result : Result PublishError Done) (s : System C W V)
      → Good s
      → Good (index_written env epoch result s).1
  unfolding index_written record_success
  index_written_kept epoch (ok _) s h = kept.on_clock s.world h
  index_written_kept epoch (err e) s h = recorded_kept epoch e s h

  whitelists_written_kept :
      (state : PolicyState) (result : Result PublishError (List ServiceEntry)) (s : System C W V)
      → Good s
      → Good (whitelists_written env l ctx raft state result s).1
  unfolding whitelists_written publish_entries resume
  whitelists_written_kept state (err e) s h = recorded_kept state.policy_epoch e s h
  whitelists_written_kept state (ok entries) s h =
      let s' : System C W V = resume env (raft.is_leader s.world).1 s in
      let h' : Good s' = kept.on_leader s.world h in
      elim (Bool-cases (raft.is_leader s.world).0) [
        | inr b ↦ rw b (recorded_kept state.policy_epoch lost_leadership s' h')
        | inl b ↦ rw b (
            index_written_kept state.policy_epoch _ _ (
              publish_index-Kept env l writes_kept ctx state.policy_epoch state.index_expires_at
                entries s' (λ a value e q. tt) h'))
      ]

  publish_state_kept :
      (state : PolicyState) (s : System C W V)
      → Good s
      → Good (publish_state env l ctx raft state s).1
  unfolding publish_state
  publish_state_kept state s h =
      elim (Bool-cases (is_stale state.policy_epoch s.status.last_publish_epoch)) [
        | inl e ↦ rw e (recorded_kept state.policy_epoch _ s h)
        | inr e ↦ elim (Bool-cases (state.index_expires_at == 0)) [
          | inl q ↦ rw (e, q) (recorded_kept state.policy_epoch no_expiry s h)
          | inr q ↦
              rw (e, q)
                (whitelists_written_kept state _ _ (
                  publish_whitelists-Kept env l writes_kept ctx (listed state.services) s
                    (λ a entries pending e q. allowed_any pending) h))
        ]
      ]

  renewed_kept :
      (epoch : ℕ) (result : Result Text AdminProposal) (s : System C W V)
      → Good s
      → Good (renewed env raft epoch result s).1
  unfolding renewed await resume
  renewed_kept epoch (ok _) s h = kept.on_snapshot s.world h
  renewed_kept epoch (err e) s h = recorded_kept epoch (renew_failed e) s h

  renew_index_kept :
      (renew : Bool) (state : PolicyState) (s : System C W V)
      → Good s
      → Good (renew_index env ctx raft renew state s).1
  unfolding renew_index attempt resume
  renew_index_kept renew state s h =
      elim (Bool-cases (renew || leb state.index_expires_at (env.now_unix s.world).0)) [
        | inl b ↦
            rw b (renewed_kept state.policy_epoch _ _ (kept.on_renew _ _ (kept.on_clock s.world h)))
        | inr b ↦ rw b (kept.on_clock s.world h)
      ]

  publish_renewed_kept :
      (result : Result PublishError PolicyState) (s : System C W V)
      → Good s
      → Good (publish_renewed env l ctx raft result s).1
  unfolding publish_renewed resume
  publish_renewed_kept (err e) s h = h
  publish_renewed_kept (ok state) s h =
      let h' : P (raft.is_leader s.world).1 = kept.on_leader s.world h in
      elim (Bool-cases (raft.is_leader s.world).0) [
        | inl b ↦ rw b (publish_state_kept state (resume env (raft.is_leader s.world).1 s) h')
        | inr b ↦ rw b h'
      ]

  publish_as_leader_kept :
      (renew : Bool) (s : System C W V) → Good s → Good (publish_as_leader env l ctx raft renew s).1
  unfolding publish_as_leader resume
  publish_as_leader_kept renew s h =
      let h' : P (raft.is_leader s.world).1 = kept.on_leader s.world h in
      elim (Bool-cases (raft.is_leader s.world).0) [
        | inr b ↦ rw b h'
        | inl b ↦ rw b (
            publish_renewed_kept _ _
              (renew_index_kept renew _ _ (kept.on_snapshot (raft.is_leader s.world).1 h')))
      ]

  pub publish_once_kept :
      (toml : Toml) (renew : Bool) (s : System C W V)
      → ctx.raft_required ≡ true
      → ctx.admin_raft ≡ some raft
      → P s.world
      → P (publish_once env l toml ctx renew s).1.world
  publish_once_kept toml renew s q h p =
      publish_once_ind env l toml (λ o. P o.1.world) ctx renew s (λ _. p)
        (λ _.
          rw (publish_once_raft-publish_as_leader env l ctx raft renew s h)
            (publish_as_leader_kept renew s p))
        (λ e. cc (q, e))
