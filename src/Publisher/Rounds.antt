-- ===== src/Publisher/Rounds.antt =====
-- src/publisher.rs: a round of publication, in either mode, as one task. The
-- `publish_lock` makes the rounds follow one another, so the status is a round's own.
use nexus_auth.Prelude.{
  ◌≡◌, refl, Bool-cases, inl, inr, ℕ, Bool, true, false, ◌||◌, Option, none, some, List, [], ◌∷◌,
  ◌++◌, Text, text, decimal, Result, Done, ok, err, if◌then◌else◌, ◌==◌, leb, ltb, unwrap_or,
  saturating_add,
}
use nexus_auth.BTree.{BTreeMap, keys}
use nexus_auth.Names.{External}
use nexus_auth.Snapshot.{ServiceState}
use nexus_auth.Policy.Types.{PolicyCommand, PolicyState}
use nexus_auth.Legacy.Types.{Toml, Store}
use nexus_auth.Legacy.Changes.{service_names, version, members, bump_index_version}
use nexus_auth.Authority.{ServiceEntry, Signing}
use nexus_auth.Context.{AdminProposal, AdminRaft, System, Env, AuthContext}
use nexus_auth.Context.Task.{Task, feed, await, attempt, now_unix, resume}
use nexus_auth.Publisher.{
  PublishError, record_success, record_failure, publish_whitelists, publish_index,
}

pub data PublishOutcome : Type 0 where
  published : ℕ → PublishOutcome
  no_connections not_leader : PublishOutcome

-- The name, version and members of each service.
unfoldable pub listed : BTreeMap Text ServiceState → List (Text × ℕ × List Text)
listed [] = []
listed ((name, state) ∷ services) = (name, state.version, keys state.members) ∷ listed services

unfoldable pub legacy_listed : Store → List Text → List (Text × ℕ × List Text)
legacy_listed store [] = []
legacy_listed store (name ∷ names) =
    (name, unwrap_or (version store name) 1, unwrap_or (members store name) [])
    ∷ legacy_listed store names

unfoldable pub renew_failed : Text → PublishError
renew_failed e = record { message = text "renew_index failed: " ++ e }

unfoldable pub lost_leadership : PublishError
lost_leadership = record { message = text "lost leadership before publishing index" }

unfoldable pub no_expiry : PublishError
no_expiry = record { message = text "state machine has no index expires_at" }

unfoldable pub stale_epoch : ℕ → ℕ → PublishError
stale_epoch epoch last = record {
  message =
      text "stale policy_epoch "
      ++ (decimal epoch ++ (text " < last_publish_epoch " ++ decimal last));
}

unfoldable pub raft_not_ready : PublishError
raft_not_ready = record { message = text "raft_not_ready: Raft 控制面尚未就绪" }

unfoldable pub is_stale : ℕ → Option ℕ → Bool
is_stale epoch none = false
is_stale epoch (some last) = ltb epoch last

module _ {C W V : Type 0} (env : Env C W V) where
  -- A failure of the round for `epoch`, which is recorded.
  unfoldable pub recorded : ℕ → PublishError → System C W V → System C W V
  recorded epoch e = record_failure env (some epoch) e.message

  -- What becomes of the index.
  unfoldable pub index_written :
      ℕ → Result PublishError Done → Task (System C W V) PublishError PublishOutcome
  index_written epoch (ok _) s = (ok (published epoch), record_success env epoch s)
  index_written epoch (err e) s = (err e, recorded epoch e s)

  -- What becomes of the proposal to renew.
  unfoldable pub renewed :
      AdminRaft W → ℕ → Result Text AdminProposal → Task (System C W V) PublishError PolicyState
  renewed raft epoch (ok _) s = await env raft.policy_snapshot s
  renewed raft epoch (err e) s = (err (renew_failed e), recorded epoch (renew_failed e) s)

  -- The renewal of the index, where it is asked for or has expired, and the state after it.
  unfoldable pub renew_index :
      AuthContext W
      → AdminRaft W
      → Bool
      → PolicyState
      → Task (System C W V) PublishError PolicyState
  renew_index ctx raft renew state s =
      let (now, w) = env.now_unix s.world in
      let s₁ = record s { world = w } in
      let (result, s₂) =
        attempt env (raft.propose (PolicyCommand.renew_index (saturating_add now ctx.expires_secs)))
          s₁ in
      if renew || leb state.index_expires_at now
      then renewed raft state.policy_epoch result s₂
      else (ok state, s₁)

module _ {C W V S : Type 0} (env : Env C W V) (l : Signing V S) ⦃x : External⦄ where
  -- The last check that this node leads, and the index.
  unfoldable pub publish_entries :
      AuthContext W
      → AdminRaft W
      → PolicyState
      → List ServiceEntry
      → Task (System C W V) PublishError PublishOutcome
  publish_entries ctx raft state entries s =
      let epoch = state.policy_epoch in
      let (leader, w) = raft.is_leader s.world in
      let s' = resume env w s in
      let (result, s'') = publish_index env l ctx epoch state.index_expires_at entries s' in
      if leader
      then index_written env epoch result s''
      else (err lost_leadership, recorded env epoch lost_leadership s')

  -- What becomes of the whitelists.
  unfoldable pub whitelists_written :
      AuthContext W
      → AdminRaft W
      → PolicyState
      → Result PublishError (List ServiceEntry)
      → Task (System C W V) PublishError PublishOutcome
  whitelists_written ctx raft state (ok entries) s = publish_entries ctx raft state entries s
  whitelists_written ctx raft state (err e) s = (err e, recorded env state.policy_epoch e s)

  -- From the check of the epoch on.
  unfoldable pub publish_state :
      AuthContext W → AdminRaft W → PolicyState → Task (System C W V) PublishError PublishOutcome
  publish_state ctx raft state s =
      let epoch = state.policy_epoch in
      let e = stale_epoch epoch (unwrap_or s.status.last_publish_epoch 0) in
      let (result, s') = publish_whitelists env l ctx (listed state.services) s in
      if is_stale epoch s.status.last_publish_epoch
      then (err e, recorded env epoch e s)
      else if state.index_expires_at == 0
      then (err no_expiry, recorded env epoch no_expiry s)
      else whitelists_written ctx raft state result s'

  -- What becomes of the renewal: the second check that this node leads.
  unfoldable pub publish_renewed :
      AuthContext W
      → AdminRaft W
      → Result PublishError PolicyState
      → Task (System C W V) PublishError PublishOutcome
  publish_renewed ctx raft (err e) s = (err e, s)
  publish_renewed ctx raft (ok state) s =
      let (leader, w) = raft.is_leader s.world in
      let s' = resume env w s in
      if leader then publish_state ctx raft state s' else (ok not_leader, s')

  -- From the first check that this node leads on.
  unfoldable pub publish_as_leader :
      AuthContext W → AdminRaft W → Bool → Task (System C W V) PublishError PublishOutcome
  publish_as_leader ctx raft renew s =
      let (leader, w) = raft.is_leader s.world in
      let s' = resume env w s in
      let (state, w') = raft.policy_snapshot s'.world in
      let (result, s'') = renew_index env ctx raft renew state (resume env w' s') in
      if leader then publish_renewed ctx raft result s'' else (ok not_leader, s')

  unfoldable pub publish_once_raft :
      AuthContext W → Bool → Task (System C W V) PublishError PublishOutcome
  publish_once_raft ctx renew s = elim ctx.admin_raft [
    | none ↦ (err raft_not_ready, s)
    | some raft ↦ publish_as_leader ctx raft renew s
  ]

  module _ (toml : Toml) where
    unfoldable pub bump : Bool → System C W V → System C W V
    bump false s = s
    bump true s =
        let (faults, w) = env.disk_faults s.world in
        let (bumped, store) = bump_index_version toml faults s.shared.store in
        record s { shared = record s.shared { store = store }; world = w }

    unfoldable pub publish_once_legacy :
        AuthContext W → Bool → Task (System C W V) PublishError PublishOutcome
    publish_once_legacy ctx renew s =
        let s₁ = bump renew s in
        let store = s₁.shared.store.store in
        feed
          (λ now s₂.
            feed
              (λ entries s₃.
                feed
                  (λ _ s₄.
                    (ok (published store.index_version), record_success env store.index_version s₄))
                  (publish_index env l ctx store.index_version (saturating_add now ctx.expires_secs)
                    entries s₃))
              (publish_whitelists env l ctx (legacy_listed store (service_names store)) s₂))
          (now_unix env s₁)

    unfoldable pub publish_once :
        AuthContext W → Bool → Task (System C W V) PublishError PublishOutcome
    publish_once ctx renew s = elim s.shared.clients [
      | [] ↦ (ok no_connections, s)
      | _ ∷ _ ↦ elim ctx.raft_required [
        | true ↦ publish_once_raft ctx renew s
        | false ↦ publish_once_legacy ctx renew s
      ]
    ]

    -- A proof rule: the ways that a round may go.
    pub publish_once_ind :
        (P : Result PublishError PublishOutcome × System C W V → Type 0) (ctx : AuthContext W)
        (renew : Bool) (s : System C W V)
        → (s.shared.clients ≡ [] → P (ok no_connections, s))
        → (ctx.raft_required ≡ true → P (publish_once_raft ctx renew s))
        → (ctx.raft_required ≡ false → P (publish_once_legacy ctx renew s))
        → P (publish_once ctx renew s)
    unfolding publish_once
    publish_once_ind P ctx renew s none_yet raft legacy =
        elim s.shared.clients
            as (λ clients.
              s.shared.clients ≡ clients
              → P (elim clients [
                | [] ↦ (ok no_connections, s)
                | _ ∷ _ ↦ elim ctx.raft_required [
                  | true ↦ publish_once_raft ctx renew s
                  | false ↦ publish_once_legacy ctx renew s
                ]
              ])) [
                | [] ↦ none_yet
                | _ ∷ _ ↦ λ _. elim (Bool-cases ctx.raft_required) [
                  | inl e ↦ rw e (raft e)
                  | inr e ↦ rw e (legacy e)
                ]
              ]
          refl
