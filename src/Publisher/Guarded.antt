-- ===== src/Publisher/Guarded.antt =====
-- src/publisher.rs: no connection is given an index before the whitelists that it lists.
use nexus_auth.Prelude.{
  ℕ, ◌≡◌, refl, inl, inr, Bool, true, some, List, Text, Bytes, Result, Done, ok, err, Bool-cases,
  ◌||◌, leb, ◌==◌,
}
use nexus_auth.Order.{text_ord}
use nexus_auth.BTree.Sorted.{IsSorted}
use nexus_auth.Names.{External}
use nexus_auth.Policy.Types.{PolicyState}
use nexus_auth.Legacy.Types.{Toml}
use nexus_auth.Authority.{ServiceEntry, Signing, net_hash}
use nexus_auth.Context.{AdminProposal, AdminRaft, System, Env, AuthContext}
use nexus_auth.Context.Task.{resume, await, attempt}
use nexus_auth.Publisher.{PublishError, record_success, record_failure}
use nexus_auth.Publisher.Rounds.{
  recorded, publish_state, renew_index, renewed, publish_once, publish_once_ind, publish_renewed,
  publish_as_leader, index_written, whitelists_written, publish_entries, lost_leadership, no_expiry,
  is_stale, renew_failed,
}
use nexus_auth.Publisher.Status.{publish_once_raft-publish_as_leader}
use nexus_auth.Publisher.Delivery.{Registered, IsStorage}
use nexus_auth.Publisher.Listing.{Complete, Complete-kept, publish_whitelists-Complete}
use nexus_auth.Publisher.Waits.{IsPolicySource, IsGuarded, whitelists-Sound, index-Listed}

module _ {C W V S : Type 0} (env : Env C W V) (l : Signing V S) ⦃x : External⦄ (id : ℕ) (c : C)
    (Stored : Text → Bytes → W → Type 0) (ctx : AuthContext W) (raft : AdminRaft W)
    (storage : IsStorage env id c Stored) (source : IsPolicySource raft Stored) (P : W → Type 0)
    (guarded : IsGuarded env l id c Stored ctx raft P) where
  abbrev Good : System C W V → Type 0
  Good s = Registered id c s.shared.clients × P s.world

  recorded-Good :
      (epoch : ℕ) (e : PublishError) (s : System C W V) → Good s → Good (recorded env epoch e s)
  unfolding recorded record_failure
  recorded-Good epoch e s h = (h.0, guarded.on_clock s.world h.1)

  leader-Good : (s : System C W V) → Good s → Good (resume env (raft.is_leader s.world).1 s)
  unfolding resume
  leader-Good s h = (storage.stays _ s.shared h.0, guarded.on_leader s.world h.1)

  still_Complete :
      (entries : List ServiceEntry) (s : System C W V)
      → Complete Stored (net_hash l ctx.network) entries s.world
      → Complete Stored
          (net_hash l ctx.network)
          entries
          (resume env (raft.is_leader s.world).1 s).world
  unfolding resume
  still_Complete entries s =
      Complete-kept Stored (net_hash l ctx.network) entries s.world _
        (λ name value valid. source.outlives_leader _ value s.world)

  index_written-Good :
      (epoch : ℕ) (result : Result PublishError Done) (s : System C W V)
      → Good s
      → Good (index_written env epoch result s).1
  unfolding index_written record_success
  index_written-Good epoch (ok _) s h = (h.0, guarded.on_clock s.world h.1)
  index_written-Good epoch (err e) s h = recorded-Good epoch e s h

  publish_entries-Good :
      (state : PolicyState) (entries : List ServiceEntry) (s : System C W V)
      → Complete Stored (net_hash l ctx.network) entries s.world
      → Good s
      → Good (publish_entries env l ctx raft state entries s).1
  unfolding publish_entries
  publish_entries-Good state entries s k h =
      let s' : System C W V = resume env (raft.is_leader s.world).1 s in
      let h' : Good s' = leader-Good s h in
      let k' : Complete Stored (net_hash l ctx.network) entries s'.world =
        still_Complete entries s k in
      elim (Bool-cases (raft.is_leader s.world).0) [
        | inr b ↦ rw b (recorded-Good state.policy_epoch lost_leadership s' h')
        | inl b ↦ rw b (
            index_written-Good state.policy_epoch _ _
              (index-Listed env l id c Stored ctx raft storage source P guarded state.policy_epoch
                state.index_expires_at entries s' (k', h')).1)
      ]

  whitelists_written-Good :
      (state : PolicyState) (result : Result PublishError (List ServiceEntry)) (s : System C W V)
      → ((entries : List ServiceEntry)
          → result ≡ ok entries
          → Complete Stored (net_hash l ctx.network) entries s.world)
      → Good s
      → Good (whitelists_written env l ctx raft state result s).1
  unfolding whitelists_written
  whitelists_written-Good state (ok entries) s k h =
      publish_entries-Good state entries s (k entries refl) h
  whitelists_written-Good state (err e) s k h = recorded-Good state.policy_epoch e s h

  publish_state-Good :
      (state : PolicyState) (s : System C W V)
      → IsSorted state.services
      → Good s
      → Good (publish_state env l ctx raft state s).1
  unfolding publish_state
  publish_state-Good state s o h =
      elim (Bool-cases (is_stale state.policy_epoch s.status.last_publish_epoch)) [
        | inl e ↦ rw e (recorded-Good state.policy_epoch _ s h)
        | inr e ↦ elim (Bool-cases (state.index_expires_at == 0)) [
          | inl q ↦ rw (e, q) (recorded-Good state.policy_epoch no_expiry s h)
          | inr q ↦
              rw (e, q)
                (whitelists_written-Good state _ _
                  (λ entries t.
                    publish_whitelists-Complete env l id c Stored storage ctx state.services entries
                      s o h.0 t)
                  (whitelists-Sound env l id c Stored ctx raft storage source P guarded state s h))
        ]
      ]

  -- After the renewal, the state that is published is one that the Raft node gave.
  abbrev Given : Result PublishError PolicyState × System C W V → Type 0
  Given (ok state, s) = IsSorted state.services × Good s
  Given (err e, s) = Good s

  renewed-Given :
      (epoch : ℕ) (result : Result Text AdminProposal) (s : System C W V)
      → Good s
      → Given (renewed env raft epoch result s)
  unfolding renewed await resume
  renewed-Given epoch (ok _) s h =
      (source.sorted s.world, (storage.stays _ s.shared h.0, guarded.on_snapshot s.world h.1))
  renewed-Given epoch (err e) s h = recorded-Good epoch (renew_failed e) s h

  renew_index-Given :
      (renew : Bool) (state : PolicyState) (s : System C W V)
      → IsSorted state.services
      → Good s
      → Given (renew_index env ctx raft renew state s)
  unfolding renew_index attempt resume
  renew_index-Given renew state s o h =
      elim (Bool-cases (renew || leb state.index_expires_at (env.now_unix s.world).0)) [
        | inl b ↦ rw b (
            renewed-Given state.policy_epoch _ _
              (storage.stays _ s.shared h.0, guarded.on_propose _ _ (guarded.on_clock s.world h.1)))
        | inr b ↦ rw b (o, (h.0, guarded.on_clock s.world h.1))
      ]

  publish_renewed-Good :
      (p : Result PublishError PolicyState × System C W V)
      → Given p
      → Good (publish_renewed env l ctx raft p.0 p.1).1
  unfolding publish_renewed
  publish_renewed-Good (err e, s) h = h
  publish_renewed-Good (ok state, s) (o, h) =
      let s' : System C W V = resume env (raft.is_leader s.world).1 s in
      elim (Bool-cases (raft.is_leader s.world).0) [
        | inl b ↦ rw b (publish_state-Good state s' o (leader-Good s h))
        | inr b ↦ rw b (leader-Good s h)
      ]

  publish_as_leader-Good :
      (renew : Bool) (s : System C W V) → Good s → Good (publish_as_leader env l ctx raft renew s).1
  unfolding publish_as_leader resume
  publish_as_leader-Good renew s h =
      let s' : System C W V = resume env (raft.is_leader s.world).1 s in
      let h' : Good s' = leader-Good s h in
      let s'' : System C W V = resume env (raft.policy_snapshot s'.world).1 s' in
      elim (Bool-cases (raft.is_leader s.world).0) [
        | inl b ↦ rw b (
            publish_renewed-Good
              (renew_index env ctx raft renew (raft.policy_snapshot s'.world).0 s'')
              (renew_index-Given renew (raft.policy_snapshot s'.world).0 s''
                (source.sorted s'.world)
                (storage.stays _ s'.shared h'.0, guarded.on_snapshot s'.world h'.1)))
        | inr b ↦ rw b h'
      ]

  -- In Raft mode, let the policies of the node have their services in order, and let a connection
  -- be registered, stay registered, and its node keep what it has acknowledged until the key is
  -- written with another value. Let a predicate of the world be kept by the clock, the timer and
  -- the node's calls, by writes to other keys than the index's, and by a write of a signed index
  -- whose whitelists that node all has, with the hash and length that the index gives. A round
  -- keeps it: no connection is given an index before the whitelists that it lists.
  pub publish_once-Guarded :
      (toml : Toml) (renew : Bool) (s : System C W V)
      → ctx.raft_required ≡ true
      → ctx.admin_raft ≡ some raft
      → Registered id c s.shared.clients
      → P s.world
      → P (publish_once env l toml ctx renew s).1.world
  publish_once-Guarded toml renew s q h r p =
      publish_once_ind env l toml (λ o. P o.1.world) ctx renew s (λ _. p)
        (λ _.
          rw (publish_once_raft-publish_as_leader env l ctx raft renew s h)
            (publish_as_leader-Good renew s (r, p)).1)
        (λ e. cc (q, e))
