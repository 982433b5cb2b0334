-- ===== src/Publisher/Loop.antt =====
-- `run` of src/publisher.rs: the rounds that are tried again, and what the publisher wakes for.
use nexus_auth.Prelude.{ℕ, zero, suc, ◌*◌, Bool, true, false, List, [], ◌∷◌}
use nexus_auth.Names.{External}
use nexus_auth.Legacy.Types.{Toml}
use nexus_auth.Authority.{Signing}
use nexus_auth.Context.{System, Env, AuthContext}
use nexus_auth.Context.Task.{Task, or_else, sleep}
use nexus_auth.Publisher.{PublishError, publish_backoff}
use nexus_auth.Publisher.Rounds.{PublishOutcome, publish_once}

-- Why the loop of rounds wakes: a permit of either `Notify`, the timer, or the end.
pub data Wake : Type 0 where
  notified renew_notified tick shutdown : Wake

abbrev pub publish_round_attempts : ℕ
publish_round_attempts = 3

module _ {C W V S : Type 0} (env : Env C W V) (l : Signing V S) ⦃x : External⦄ where
  module _ (toml : Toml) where
    -- `publish_now`
    abbrev pub publish_now : AuthContext W → Bool → Task (System C W V) PublishError PublishOutcome
    publish_now = publish_once env l toml

    -- The rounds of others, one after another.
    unfoldable pub other_rounds : AuthContext W → List Bool → System C W V → System C W V
    other_rounds ctx [] s = s
    other_rounds ctx (renew ∷ rounds) s = other_rounds ctx rounds (publish_now ctx renew s).1

    -- A round, once the lock is free.
    unfoldable pub publish_after :
        AuthContext W → Bool → Task (System C W V) PublishError PublishOutcome
    publish_after ctx renew s =
        publish_once env l toml ctx renew (other_rounds ctx (env.rounds s.world) s)

    -- The attempts that are left and the back-off before the next; a last one always takes place.
    unfoldable pub publish_from :
        ℕ → ℕ → AuthContext W → Bool → Task (System C W V) PublishError PublishOutcome
    unfolding publish_after
    publish_from zero backoff ctx renew s = publish_after ctx renew s
    publish_from (suc zero) backoff ctx renew s = publish_after ctx renew s
    publish_from (suc (suc left)) backoff ctx renew s =
        or_else (λ e s'. publish_from (suc left) (backoff * 2) ctx renew (sleep env backoff s'))
          (publish_after ctx renew s)

    unfoldable pub publish_with_retry :
        ℕ → AuthContext W → Bool → Task (System C W V) PublishError PublishOutcome
    publish_with_retry attempts = publish_from attempts publish_backoff

    unfoldable pub run_publish_round : AuthContext W → Bool → System C W V → System C W V
    run_publish_round ctx renew s = (publish_with_retry publish_round_attempts ctx renew s).1

    -- `run`, over the causes it wakes for until the end.
    unfoldable pub run : AuthContext W → List Wake → System C W V → System C W V
    run ctx [] s = s
    run ctx (shutdown ∷ wakes) s = s
    run ctx (tick ∷ wakes) s = run ctx wakes (run_publish_round ctx true s)
    run ctx (notified ∷ wakes) s = run ctx wakes (
        run_publish_round ctx false
          (record s { shared = record s.shared { publish_notify = false } }))
    run ctx (renew_notified ∷ wakes) s = run ctx wakes (
        run_publish_round ctx true (record s { shared = record s.shared { renew_notify = false } }))
