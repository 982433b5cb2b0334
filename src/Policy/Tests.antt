-- ===== src/Policy/Tests.antt =====
-- The policy state machine on small inputs.
use nexus_auth.Prelude.{List, ℕ, ◌+◌, ◌≡◌, refl, true, none, [], ◌∷◌, Text, arith, if◌then◌else◌}
use nexus_auth.Order.{◌≟◌, text_ord}
use nexus_auth.BTree.{get}
use nexus_auth.Lab.{lab}
use nexus_auth.Policy.Types.{PolicyState, PolicyCommand}
use nexus_auth.Policy.Apply.{apply_command_at}
use nexus_auth.Policy.Epoch.{carried, result_steps, apply-epoch}
use nexus_auth.Policy.View.{is_member, view_after, took_effect, apply-view}
use nexus_auth.Policy.Rejection.{is_rejected, policy_part, rejected_keeps}
use nexus_auth.Policy.Idempotence.{mark_duplicate, conflict}
use nexus_auth.Policy.Remembered.{AllInTime}
use nexus_auth.Policy.Retries.{apply_log, retry_idempotent}

abbrev pub alice : Text
alice = 65 ∷ []

abbrev pub web : Text
web = 119 ∷ []

abbrev pub create_web : PolicyCommand
create_web = PolicyCommand.create_service web (alice ∷ [])

abbrev pub asked : PolicyCommand
asked = PolicyCommand.admin (49 ∷ []) (107 ∷ []) (104 ∷ []) 1000 create_web

abbrev pub start : PolicyState
start = record {
  network = 110 ∷ [];
  policy_epoch = 1;
  index_expires_at = 0;
  services = [];
  tombstones = [];
  dedup = [];
  join_tokens = [];
}

apply-epoch_example :
    (apply_command_at asked 7 start).1.policy_epoch
    ≡ start.policy_epoch + result_steps (carried asked) (apply_command_at asked 7 start).0
apply-epoch_example = apply-epoch asked 7 start (omega arith)

apply-view_example : is_member (apply_command_at asked 7 start).1 web alice ≡ (
    if took_effect (apply_command_at asked 7 start).0
    then view_after (carried asked) (is_member start) web alice
    else is_member start web alice)
apply-view_example = apply-view asked 7 start web alice

delete_web_rejected :
    is_rejected (apply_command_at (PolicyCommand.delete_service web) 3 start).0 ≡ true
unfolding apply_command_at nexus_auth.Policy.Apply.apply_inner
    nexus_auth.Policy.Services.delete_service get
delete_web_rejected = refl

rejected_keeps_example :
    policy_part (apply_command_at (PolicyCommand.delete_service web) 3 start).1 ≡ policy_part start
rejected_keeps_example =
    rejected_keeps (PolicyCommand.delete_service web) 3 start delete_web_rejected

not_asked : get (49 ∷ []) start.dedup ≡ none
unfolding get
not_asked = refl

abbrev hash_one : Text
hash_one = 104 ∷ []

-- Another request and a renewal, before the first comes again.
abbrev between : List (PolicyCommand × ℕ)
between =
    (PolicyCommand.admin (50 ∷ []) (107 ∷ []) (105 ∷ []) 1030 (PolicyCommand.delete_service web), 8)
    ∷ (PolicyCommand.renew_index 9000, 9)
    ∷ []

between-AllInTime : AllInTime 1000 between
between-AllInTime = (omega arith, (tt, tt))

retry_idempotent_example :
    let (first, s₁) =
      apply_command_at
        (PolicyCommand.admin (49 ∷ []) (107 ∷ []) hash_one 1000 create_web)
        7
        start in
    let s' = apply_log between s₁ in
    apply_command_at (PolicyCommand.admin (49 ∷ []) (107 ∷ []) hash_one 1060 create_web) 10 s' ≡ (
      (if hash_one ≟ hash_one then mark_duplicate first else conflict (49 ∷ []) s'.policy_epoch 10),
      s',
    )
retry_idempotent_example =
    retry_idempotent (49 ∷ []) (107 ∷ []) (107 ∷ []) hash_one hash_one 1000 1060 7 10 create_web
      create_web between start not_asked tt tt (omega arith) between-AllInTime
