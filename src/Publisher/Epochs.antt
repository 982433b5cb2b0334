-- ===== src/Publisher/Epochs.antt =====
-- src/publisher.rs: the epoch that the status shows never falls, over any rounds in Raft mode.
use nexus_auth.Prelude.{
  ℕ, zero, suc, ◌*◌, ◌≡◌, Bool, true, false, Option, none, List, [], ◌∷◌, Option-cases, inl, inr,
}
use nexus_auth.Names.{External}
use nexus_auth.Authority.{Signing}
use nexus_auth.Legacy.Types.{Toml}
use nexus_auth.Context.{System, Env, AuthContext}
use nexus_auth.Context.Task.{or_else_ind, sleep, resume}
use nexus_auth.Publisher.{publish_backoff}
use nexus_auth.Publisher.Rounds.{publish_once, publish_once_raft, publish_once_ind}
use nexus_auth.Publisher.Loop.{
  Wake, notified, renew_notified, tick, shutdown, publish_round_attempts,
}
use nexus_auth.Publisher.Loop.{
  publish_from, other_rounds, publish_after, publish_with_retry, run_publish_round, run,
}
use nexus_auth.Publisher.Status.{Rises, Rises-refl, Rises-trans, publish_once-Reports}

-- The epoch of the last publication.
abbrev pub epoch_of : {C W V : Type 0} → System C W V → Option ℕ
epoch_of s = s.status.last_publish_epoch

module _ {C W V S : Type 0} (env : Env C W V) (l : Signing V S) ⦃x : External⦄ (toml : Toml)
    (ctx : AuthContext W) (raft_required : ctx.raft_required ≡ true) where
  unready-Rises :
      (renew : Bool) (s : System C W V)
      → ctx.admin_raft ≡ none
      → Rises (epoch_of s) (epoch_of (publish_once env l toml ctx renew s).1)
  unfolding publish_once_raft
  unready-Rises renew s h =
      publish_once_ind env l toml (λ p. Rises (epoch_of s) (epoch_of p.1)) ctx renew s
        (λ _. Rises-refl (epoch_of s)) (λ _. rw h (Rises-refl (epoch_of s)))
        (λ e. cc (raft_required, e))

  publish_once-Rises :
      (renew : Bool) (s : System C W V)
      → Rises (epoch_of s) (epoch_of (publish_once env l toml ctx renew s).1)
  publish_once-Rises renew s = elim (Option-cases ctx.admin_raft) [
    | inl h ↦ unready-Rises renew s h
    | inr (raft, h) ↦ (publish_once-Reports env l toml ctx raft renew s raft_required h).rises
  ]

  other_rounds-Rises :
      (rounds : List Bool) (s : System C W V)
      → Rises (epoch_of s) (epoch_of (other_rounds env l toml ctx rounds s))
  unfolding other_rounds
  other_rounds-Rises [] s = Rises-refl (epoch_of s)
  other_rounds-Rises (renew ∷ rounds) s =
      Rises-trans (epoch_of s) _ _ (publish_once-Rises renew s)
        (other_rounds-Rises rounds (publish_once env l toml ctx renew s).1)

  publish_after-Rises :
      (renew : Bool) (s : System C W V)
      → Rises (epoch_of s) (epoch_of (publish_after env l toml ctx renew s).1)
  unfolding publish_after
  publish_after-Rises renew s =
      let s' : System C W V = other_rounds env l toml ctx (env.rounds s.world) s in
      Rises-trans (epoch_of s) (epoch_of s') _ (other_rounds-Rises (env.rounds s.world) s)
        (publish_once-Rises renew s')

  publish_from-Rises :
      (attempts backoff : ℕ) (renew : Bool) (s : System C W V)
      → Rises (epoch_of s) (epoch_of (publish_from env l toml attempts backoff ctx renew s).1)
  unfolding publish_from sleep resume
  publish_from-Rises zero backoff renew s = publish_after-Rises renew s
  publish_from-Rises (suc zero) backoff renew s = publish_after-Rises renew s
  publish_from-Rises (suc (suc left)) backoff renew s =
      let s₁ : System C W V = (publish_after env l toml ctx renew s).1 in
      let first : Rises (epoch_of s) (epoch_of s₁) = publish_after-Rises renew s in
      or_else_ind (λ p. Rises (epoch_of s) (epoch_of p.1))
        (λ e s'. publish_from env l toml (suc left) (backoff * 2) ctx renew (sleep env backoff s'))
        (publish_after env l toml ctx renew s) (λ _ _. first)
        (λ _ _.
          Rises-trans (epoch_of s) (epoch_of s₁) _ first
            (publish_from-Rises (suc left) (backoff * 2) renew (sleep env backoff s₁)))

  pub run_publish_round-Rises :
      (renew : Bool) (s : System C W V)
      → Rises (epoch_of s) (epoch_of (run_publish_round env l toml ctx renew s))
  unfolding run_publish_round publish_with_retry
  run_publish_round-Rises renew s =
      publish_from-Rises publish_round_attempts publish_backoff renew s

  -- In Raft mode, the epoch that the status shows never falls while the publisher runs, whatever
  -- wakes it and however its rounds end.
  pub run-Rises :
      (wakes : List Wake) (s : System C W V)
      → Rises (epoch_of s) (epoch_of (run env l toml ctx wakes s))
  unfolding run
  run-Rises [] s = Rises-refl (epoch_of s)
  run-Rises (shutdown ∷ wakes) s = Rises-refl (epoch_of s)
  run-Rises (tick ∷ wakes) s =
      Rises-trans (epoch_of s) _ _ (run_publish_round-Rises true s)
        (run-Rises wakes (run_publish_round env l toml ctx true s))
  run-Rises (notified ∷ wakes) s =
      let s' : System C W V = record s { shared = record s.shared { publish_notify = false } } in
      Rises-trans (epoch_of s) _ _ (run_publish_round-Rises false s')
        (run-Rises wakes (run_publish_round env l toml ctx false s'))
  run-Rises (renew_notified ∷ wakes) s =
      let s' : System C W V = record s { shared = record s.shared { renew_notify = false } } in
      Rises-trans (epoch_of s) _ _ (run_publish_round-Rises true s')
        (run-Rises wakes (run_publish_round env l toml ctx true s'))
