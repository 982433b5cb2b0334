-- ===== src/Legacy/Synchronise.antt =====
-- Anti-entropy: what a store knows after it has merged the snapshot of another.
use nexus_auth.Prelude.{◌≡◌, sym, ap, ◌∙◌, true, false, Text, arith, Result-cases, inl, inr}
use nexus_auth.Order.{text_ord}
use nexus_auth.Order.Max.{max_of, max_of_comm}
use nexus_auth.BTree.{get}
use nexus_auth.Names.{External}
use nexus_auth.Fsutil.{Faults}
use nexus_auth.Legacy.Types.{Store, Toml, World, snapshot, save_then}
use nexus_auth.Legacy.Merge.{merge_services, merge_tombstones, merge_snapshot}
use nexus_auth.Legacy.Keys.{key_ord, key_at, IsClean}
use nexus_auth.Legacy.Converge.{receive_all, tell_all, receive_all-key, receive_all-IsClean}
use nexus_auth.Legacy.Messages.{
  IsSound, lives, gones, merge_services-lives, merge_tombstones-gones, lives-key, gones-key,
  absorb_both,
}

save_then-store :
    {A : Type 0} (toml : Toml) (f : Faults) (a : A) (w : World)
    → (save_then toml f a w).1.store ≡ w.store
unfolding save_then
save_then-store toml f a w = ground arith

module _ ⦃x : External⦄ where
  merge_snapshot-store :
      (toml : Toml) (f : Faults) (t : Store) (w : World)
      → IsSound t
      → (merge_snapshot toml f (snapshot t) w).1.store
        ≡ receive_all
            (gones t.index_version t.tombstones)
            (receive_all (lives t.index_version t.services) w.store)
  unfolding merge_snapshot snapshot
  merge_snapshot-store toml f t w h =
      let first = merge_services-lives t.index_version t.services false w.store h.entries in
      let step = merge_services t.index_version t.services false w.store in
      elim (Result-cases step.0) [
        | inr (e, q) ↦ absurd (ground (arith, q, first.0))
        | inl (c, q) ↦
            let second = merge_tombstones-gones t.index_version t.tombstones c step.1 h.names in
            ground (
              arith,
              q,
              first.1,
              second,
              save_then-store toml f true
                  (record w { store = (merge_tombstones t.index_version t.tombstones c step.1).1 }),
            )
      ]

  -- Merging the snapshot of a sound store takes, for every service, the greater of what the two stores
  -- know of it, whether or not the result can be saved.
  merge_snapshot-key :
      (toml : Toml) (f : Faults) (t : Store) (w : World) (q : Text)
      → IsClean w.store
      → IsSound t
      → key_at (merge_snapshot toml f (snapshot t) w).1.store q
        ≡ max_of (key_at w.store q) (key_at t q)
  unfolding key_at
  merge_snapshot-key toml f t w q c h =
      let middle = receive_all (lives t.index_version t.services) w.store in
      ap (λ s. key_at s q) (merge_snapshot-store toml f t w h)
      ∙ receive_all-key (gones t.index_version t.tombstones) middle q
          (receive_all-IsClean (lives t.index_version t.services) w.store c)
      ∙ ap (tell_all (gones t.index_version t.tombstones) q) (
          receive_all-key (lives t.index_version t.services) w.store q c
          ∙ lives-key t.index_version t.services q (key_at w.store q) h.entries h.services_sorted)
      ∙ gones-key t.index_version t.tombstones q _ h.names h.tombstones_sorted
      ∙ absorb_both (get q t.services) (get q t.tombstones) (key_at w.store q) (h.clean.at_each q)

  -- Anti-entropy converges. Let two stores have their maps in order, valid names, no version 0 and
  -- no live service that has a tombstone. If they merge each other's snapshots, they know the same
  -- of every service afterwards, by version, deletion and member hash, and it is the greater of
  -- what they knew before, whether or not either can save it.
  pub exchange :
      (toml : Toml) (f g : Faults) (v w : World) (q : Text)
      → IsSound v.store
      → IsSound w.store
      → let v' = (merge_snapshot toml f (snapshot w.store) v).1 in
        let w' = (merge_snapshot toml g (snapshot v.store) w).1 in
        (key_at v'.store q ≡ key_at w'.store q)
        × (key_at v'.store q ≡ max_of (key_at v.store q) (key_at w.store q))
  exchange toml f g v w q a b =
      let left = merge_snapshot-key toml f w.store v q a.clean b in
      let right = merge_snapshot-key toml g v.store w q b.clean a in
      (left ∙ max_of_comm (key_at v.store q) (key_at w.store q) ∙ sym right, left)
