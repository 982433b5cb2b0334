-- ===== src/Publisher/Status.antt =====
-- src/publisher.rs: the status that a round leaves tells how it ended, and the epoch in it never falls.
use nexus_auth.Prelude.{
  ℕ, ◌≤◌, ◌≡◌, refl, ◌∙◌, subst, Bool, true, false, ◌||◌, Option, none, some, List, Text, Result,
  ok, err, arith, Done, Bool-cases, inl, inr, leb, ◌==◌,
}
use nexus_auth.Names.{External}
use nexus_auth.Authority.{Signing, ServiceEntry}
use nexus_auth.Policy.Types.{PolicyState}
use nexus_auth.Legacy.Types.{Toml}
use nexus_auth.Context.{AdminProposal, AdminRaft, PublishStatus, System, Env, AuthContext}
use nexus_auth.Context.Task.{await, attempt, resume}
use nexus_auth.Publisher.{
  PublishError, record_success, record_failure, raised, publish_whitelists, publish_index,
}
use nexus_auth.Publisher.Calls.{IsKept, allowed_any, publish_whitelists-Kept, publish_index-Kept}
use nexus_auth.Publisher.Rounds.{
  PublishOutcome, published, no_connections, not_leader, recorded, publish_state, renew_index,
  publish_once_raft, publish_once, publish_once_ind, publish_renewed, publish_as_leader, renewed,
  index_written, whitelists_written, publish_entries, listed, lost_leadership, no_expiry, is_stale,
  renew_failed,
}

-- An epoch that has been recorded only rises.
abbrev pub Rises : Option ℕ → Option ℕ → Type 0
Rises none after = Unit
Rises (some before) none = ⊥
Rises (some before) (some after) = before ≤ after

-- What the status shows after a round.
abbrev pub Shows : Result PublishError PublishOutcome → PublishStatus → PublishStatus → Type 0
Shows (ok (published epoch)) before after =
    (after.last_publish_epoch ≡ some epoch)
    × (after.last_publish_ok ≡ true)
    × (after.last_publish_error ≡ none)
Shows (ok no_connections) before after = after ≡ before
Shows (ok not_leader) before after = after ≡ before
Shows (err e) before after =
    (after.last_publish_ok ≡ false) × (after.last_publish_error ≡ some e.message)

pub record Reports {C W V : Type 0} (before : PublishStatus)
    (p : Result PublishError PublishOutcome × System C W V) : Type 0 where
  pub shows : Shows p.0 before p.1.status
  pub rises : Rises before.last_publish_epoch p.1.status.last_publish_epoch

pub Rises-refl : (o : Option ℕ) → Rises o o
Rises-refl none = tt
Rises-refl (some n) = omega arith

pub Rises-trans : (a b c : Option ℕ) → Rises a b → Rises b c → Rises a c
Rises-trans none b c p q = tt
Rises-trans (some a) none c p q = absurd p
Rises-trans (some a) (some b) none p q = absurd q
Rises-trans (some a) (some b) (some c) p q = omega (arith, p, q)

Rises-raised : (e : ℕ) (o : Option ℕ) → Rises o (raised (some e) o)
Rises-raised e none = tt
Rises-raised e (some n) = omega arith

Rises-fresh : (e : ℕ) (o : Option ℕ) → is_stale e o ≡ false → Rises o (some e)
unfolding is_stale
Rises-fresh e none h = tt
Rises-fresh e (some n) h = ground (arith, h)

-- After the renewal: the status as before, or the failure.
abbrev pub Renews :
    {C W V : Type 0} → PublishStatus → Result PublishError PolicyState → System C W V → Type 0
Renews before (ok state) s = s.status ≡ before
Renews before (err e) s = Reports before (err e, s)

module _ {C W V S : Type 0} (env : Env C W V) (l : Signing V S) ⦃x : External⦄ where
  status_kept : (st : PublishStatus) → IsKept env (λ _ _. Unit {0}) (λ s. s.status ≡ st)
  unfolding resume
  status_kept st = record { on_write = λ c key value s a h. h; on_sleep = λ ms s h. h }

  publish_whitelists-status :
      (ctx : AuthContext W) (services : List (Text × ℕ × List Text)) (s : System C W V)
      → (publish_whitelists env l ctx services s).1.status ≡ s.status
  publish_whitelists-status ctx services s =
      publish_whitelists-Kept env l (status_kept s.status) ctx services s
        (λ a entries pending e q. allowed_any pending) refl

  publish_index-status :
      (ctx : AuthContext W) (version expires_at : ℕ) (entries : List ServiceEntry)
      (s : System C W V)
      → (publish_index env l ctx version expires_at entries s).1.status ≡ s.status
  publish_index-status ctx version expires_at entries s =
      publish_index-Kept env l (status_kept s.status) ctx version expires_at entries s
        (λ a value e q. tt) refl

  -- A failure that is recorded shows, whatever the round has done before it.
  recorded-Reports :
      (before : PublishStatus) (epoch : ℕ) (e : PublishError) (s : System C W V)
      → s.status ≡ before
      → Reports before (err e, recorded env epoch e s)
  unfolding recorded record_failure
  recorded-Reports before epoch e s h = record {
    shows = (refl, refl);
    rises = rw h (Rises-raised epoch before.last_publish_epoch);
  }

  renewed-Renews :
      (before : PublishStatus) (raft : AdminRaft W) (epoch : ℕ) (result : Result Text AdminProposal)
      (s : System C W V)
      → s.status ≡ before
      → Renews before (renewed env raft epoch result s).0 (renewed env raft epoch result s).1
  unfolding renewed await resume
  renewed-Renews before raft epoch (ok _) s h = h
  renewed-Renews before raft epoch (err e) s h = recorded-Reports before epoch (renew_failed e) s h

  renew_index-Renews :
      (before : PublishStatus) (ctx : AuthContext W) (raft : AdminRaft W) (renew : Bool)
      (state : PolicyState) (s : System C W V)
      → s.status ≡ before
      → Renews before
          (renew_index env ctx raft renew state s).0
          (renew_index env ctx raft renew state s).1
  unfolding renew_index attempt resume
  renew_index-Renews before ctx raft renew state s h =
      elim (Bool-cases (renew || leb state.index_expires_at (env.now_unix s.world).0)) [
        | inl b ↦ rw b (renewed-Renews before raft state.policy_epoch _ _ h)
        | inr b ↦ rw b h
      ]

  success-Reports :
      (before : PublishStatus) (epoch : ℕ) (s : System C W V)
      → is_stale epoch before.last_publish_epoch ≡ false
      → Reports before (ok (published epoch), record_success env epoch s)
  unfolding record_success
  success-Reports before epoch s h = record {
    shows = (refl, refl, refl);
    rises = Rises-fresh epoch before.last_publish_epoch h;
  }

  index_written-Reports :
      (before : PublishStatus) (epoch : ℕ) (result : Result PublishError Done) (s : System C W V)
      → s.status ≡ before
      → is_stale epoch before.last_publish_epoch ≡ false
      → Reports before (index_written env epoch result s)
  unfolding index_written
  index_written-Reports before epoch (ok _) s h e = success-Reports before epoch s e
  index_written-Reports before epoch (err f) s h e = recorded-Reports before epoch f s h

  whitelists_written-Reports :
      (before : PublishStatus) (ctx : AuthContext W) (raft : AdminRaft W) (state : PolicyState)
      (result : Result PublishError (List ServiceEntry)) (s : System C W V)
      → s.status ≡ before
      → is_stale state.policy_epoch before.last_publish_epoch ≡ false
      → Reports before (whitelists_written env l ctx raft state result s)
  unfolding whitelists_written publish_entries resume
  whitelists_written-Reports before ctx raft state (err f) s h e =
      recorded-Reports before state.policy_epoch f s h
  whitelists_written-Reports before ctx raft state (ok entries) s h e =
      let v : System C W V = resume env (raft.is_leader s.world).1 s in
      elim (Bool-cases (raft.is_leader s.world).0) [
        | inr b ↦ rw b (recorded-Reports before state.policy_epoch lost_leadership v h)
        | inl b ↦ rw b (
            index_written-Reports before state.policy_epoch _ _
              (publish_index-status ctx state.policy_epoch state.index_expires_at entries v ∙ h) e)
      ]

  publish_state-Reports :
      (ctx : AuthContext W) (raft : AdminRaft W) (state : PolicyState) (s : System C W V)
      → Reports s.status (publish_state env l ctx raft state s)
  unfolding publish_state
  publish_state-Reports ctx raft state s =
      let epoch : ℕ = state.policy_epoch in
      elim (Bool-cases (is_stale epoch s.status.last_publish_epoch)) [
        | inl e ↦ rw e (recorded-Reports s.status epoch _ s refl)
        | inr e ↦ elim (Bool-cases (state.index_expires_at == 0)) [
          | inl q ↦ rw (e, q) (recorded-Reports s.status epoch no_expiry s refl)
          | inr q ↦
              rw (e, q)
                (whitelists_written-Reports s.status ctx raft state _ _
                  (publish_whitelists-status ctx (listed state.services) s) e)
        ]
      ]

  publish_renewed-Reports :
      (before : PublishStatus) (ctx : AuthContext W) (raft : AdminRaft W)
      (result : Result PublishError PolicyState) (s : System C W V)
      → Renews before result s
      → Reports before (publish_renewed env l ctx raft result s)
  unfolding publish_renewed resume
  publish_renewed-Reports before ctx raft (err e) s h = h
  publish_renewed-Reports before ctx raft (ok state) s h =
      let s' : System C W V = resume env (raft.is_leader s.world).1 s in
      elim (Bool-cases (raft.is_leader s.world).0) [
        | inl b ↦ rw b (
            subst (λ t. Reports t (publish_state env l ctx raft state s')) h
              (publish_state-Reports ctx raft state s'))
        | inr b ↦ rw b (record { shows = h; rises = rw h (Rises-refl before.last_publish_epoch) })
      ]

  publish_as_leader-Reports :
      (ctx : AuthContext W) (raft : AdminRaft W) (renew : Bool) (s : System C W V)
      → Reports s.status (publish_as_leader env l ctx raft renew s)
  unfolding publish_as_leader resume
  publish_as_leader-Reports ctx raft renew s =
      let s' : System C W V = resume env (raft.is_leader s.world).1 s in
      let s'' : System C W V = resume env (raft.policy_snapshot s'.world).1 s' in
      let state : PolicyState = (raft.policy_snapshot s'.world).0 in
      elim (Bool-cases (raft.is_leader s.world).0) [
        | inl b ↦ rw b (
            publish_renewed-Reports s.status ctx raft (renew_index env ctx raft renew state s'').0
              (renew_index env ctx raft renew state s'').1
              (renew_index-Renews s.status ctx raft renew state s'' refl))
        | inr b ↦ rw b (record { shows = refl; rises = Rises-refl s.status.last_publish_epoch })
      ]

  pub publish_once_raft-publish_as_leader :
      (ctx : AuthContext W) (raft : AdminRaft W) (renew : Bool) (s : System C W V)
      → ctx.admin_raft ≡ some raft
      → publish_once_raft env l ctx renew s ≡ publish_as_leader env l ctx raft renew s
  unfolding publish_once_raft
  publish_once_raft-publish_as_leader ctx raft renew s h = ground (arith, h)

  -- In Raft mode with the node ready, the status after a round shows it: the epoch and no error
  -- after a publication, the error after a failure, and what it showed before where there is no
  -- connection or this node does not lead. The epoch that it shows does not fall.
  pub publish_once-Reports :
      (toml : Toml) (ctx : AuthContext W) (raft : AdminRaft W) (renew : Bool) (s : System C W V)
      → ctx.raft_required ≡ true
      → ctx.admin_raft ≡ some raft
      → Reports s.status (publish_once env l toml ctx renew s)
  publish_once-Reports toml ctx raft renew s q h =
      publish_once_ind env l toml (Reports s.status) ctx renew s
        (λ _. record { shows = refl; rises = Rises-refl s.status.last_publish_epoch })
        (λ _.
          rw (publish_once_raft-publish_as_leader ctx raft renew s h)
            (publish_as_leader-Reports ctx raft renew s))
        (λ e. cc (q, e))
