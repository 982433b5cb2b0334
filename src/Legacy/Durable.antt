-- ===== src/Legacy/Durable.antt =====
-- The state file: what is saved opens again, and which answers promise that it is saved.
use nexus_auth.Prelude.{
  ℕ, ◌≡◌, refl, Bool, true, false, ◌||◌, some, List, [], ◌∷◌, Text, Bytes, arith, ok, is_ok,
  wrapping_suc, Option-cases, Result-cases, inl, inr,
}
use nexus_auth.Order.{≟_self, text_ord}
use nexus_auth.BTree.{BTreeMap, get, insert, remove, collect, keys}
use nexus_auth.Names.{External}
use nexus_auth.Snapshot.{ServiceState, StoreSnapshot}
use nexus_auth.Fsutil.{Disk, Faults, atomic_write-whole}
use nexus_auth.Legacy.Types.{Store, World, Toml, IsFaithfulToml, snapshot, save_to, save_then}
use nexus_auth.Legacy.Changes.{
  content, load_or_create, create_service, delete_service, set_index_version,
}
use nexus_auth.Legacy.Merge.{
  merge_service, merge_deletion, merge_members, merge_services, merge_tombstones, merge_entry,
  apply_replicated, merge_snapshot,
}

-- The file at the path holds the store.
pub record IsSaved (toml : Toml) (w : World) : Type 0 where
  pub bytes : Bytes
  pub stored : w.disk.target ≡ some bytes
  pub encoded : toml.to_string (snapshot w.store) ≡ ok bytes

save_to-IsSaved :
    (toml : Toml) (f : Faults) (s : Store) (d : Disk)
    → (save_to toml f s d).0 ≡ ok tt
    → IsSaved toml (record { store = s; disk = (save_to toml f s d).1 })
unfolding save_to
save_to-IsSaved toml f s d h = elim (Result-cases (toml.to_string (snapshot s))) [
  | inr (e, q) ↦ absurd (ground (arith, q, h))
  | inl (b, q) ↦ record {
    bytes = b;
    stored = ground (arith, q, h, atomic_write-whole f b d);
    encoded = q;
  }
]

save_then-IsSaved :
    {A : Type 0} (toml : Toml) (f : Faults) (a b : A) (w : World)
    → (save_then toml f a w).0 ≡ ok b
    → IsSaved toml (save_then toml f a w).1
unfolding save_then
save_then-IsSaved toml f a b w h = elim (Result-cases (save_to toml f w.store w.disk).0) [
  | inr (e, q) ↦ absurd (ground (arith, q, h))
  | inl (u, q) ↦ ground (arith, q, save_to-IsSaved toml f w.store w.disk q)
]

module _ ⦃x : External⦄ where
  -- A store that was saved is what the next start finds, whatever the configuration seeds, if what
  -- TOML writes reads back.
  pub restart :
      (toml : Toml) (f g : Faults) (initial : BTreeMap Text (List Text)) (s : Store) (d : Disk)
      → IsFaithfulToml toml
      → (save_to toml f s d).0 ≡ ok tt
      → let d' = (save_to toml f s d).1 in
        (b : Bytes) × (d'.target ≡ some b)
        × (load_or_create toml g s.network initial (content b) d' ≡ (ok s, d'))
  unfolding load_or_create snapshot
  restart toml f g initial s d t h =
      let saved = save_to-IsSaved toml f s d h in
      (
        saved.bytes,
        saved.stored,
        ground (
          arith,
          saved.encoded,
          t.reads_back (snapshot s) saved.bytes saved.encoded,
          ≟_self s.network,
        ),
      )

-- The operations that save with `?`.
pub data Request : Type 0 where
  create : Text → List Text → Request
  delete : Text → Request
  set_index : ℕ → Request
  replicated : Text → ℕ → List Text → ℕ → Bool → Request
  synchronised : StoreSnapshot → Request

module _ ⦃x : External⦄ where
  -- Whether the request is answered with `Ok`, and the world after it.
  unfoldable pub handle : Toml → Faults → Request → World → Bool × World
  handle toml f (create service peers) w =
      let (result, w') = create_service toml f service peers w in (is_ok result, w')
  handle toml f (delete service) w =
      let (result, w') = delete_service toml f service w in (is_ok result, w')
  handle toml f (set_index version) w =
      let (result, w') = set_index_version toml f version w in (is_ok result, w')
  handle toml f (replicated service version members index deleted) w =
      let (result, w') = apply_replicated toml f service version members index deleted w in
      (is_ok result, w')
  handle toml f (synchronised snapshot) w =
      let (result, w') = merge_snapshot toml f snapshot w in (is_ok result, w')

  merge_service-false :
      (service : Text) (version : ℕ) (members : List Text) (deleted : Bool) (s : Store)
      → (merge_service service version members deleted s).0 ≡ ok false
      → (merge_service service version members deleted s).1 ≡ s
  unfolding merge_service merge_deletion merge_members
  merge_service-false service version members deleted s h = ground arith

  merge_entry-false :
      (service : Text) (version : ℕ) (members : List Text) (index : ℕ) (deleted : Bool) (s : Store)
      → (merge_entry service version members index deleted s).0 ≡ ok false
      → (merge_entry service version members index deleted s).1 ≡ s
  unfolding merge_entry
  merge_entry-false service version members index deleted s h =
      ground (arith, merge_service-false service version members deleted s)

  merge_services-false :
      (index : ℕ) (m : BTreeMap Text ServiceState) (changed : Bool) (s : Store)
      → (merge_services index m changed s).0 ≡ ok false
      → (changed ≡ false) × ((merge_services index m changed s).1 ≡ s)
  unfolding merge_services
  merge_services-false index [] changed s h = (ground arith, refl)
  merge_services-false index ((name, st) ∷ m) changed s h =
      let step = merge_entry name st.version (keys st.members) index false s in
      elim (Result-cases step.0) [
        | inr (e, q) ↦ absurd (ground (arith, q, h))
        | inl (c, q) ↦ ground (
          arith,
          q,
          h,
          merge_services-false index m (changed || c) step.1,
          merge_entry-false name st.version (keys st.members) index false s,
        )
      ]

  merge_tombstones-false :
      (index : ℕ) (m : BTreeMap Text ℕ) (changed : Bool) (s : Store)
      → (merge_tombstones index m changed s).0 ≡ ok false
      → (changed ≡ false) × ((merge_tombstones index m changed s).1 ≡ s)
  unfolding merge_tombstones
  merge_tombstones-false index [] changed s h = (ground arith, refl)
  merge_tombstones-false index ((name, v) ∷ m) changed s h =
      let step = merge_entry name v [] index true s in
      elim (Result-cases step.0) [
        | inr (e, q) ↦ absurd (ground (arith, q, h))
        | inl (c, q) ↦ ground (
          arith,
          q,
          h,
          merge_tombstones-false index m (changed || c) step.1,
          merge_entry-false name v [] index true s,
        )
      ]

  abbrev created : Text → List Text → World → World
  created service peers w = record w {
    store = record w.store {
      services = insert service (record { version = 1; members = collect peers }) w.store.services;
      index_version = wrapping_suc w.store.index_version;
    };
  }

  abbrev struck : Text → ServiceState → World → World
  struck service st w = record w {
    store = record w.store {
      services = remove service w.store.services;
      tombstones = insert service (wrapping_suc st.version) w.store.tombstones;
      index_version = wrapping_suc w.store.index_version;
    };
  }

  save_then-kept :
      {A : Type 0} (toml : Toml) (f : Faults) (a : A) (w : World)
      → is_ok (save_then toml f a w).0 ≡ true
      → IsSaved toml (save_then toml f a w).1
  save_then-kept toml f a w h = elim (Result-cases (save_then toml f a w).0) [
    | inr (e, q) ↦ absurd (ground (arith, q, h))
    | inl (b, q) ↦ save_then-IsSaved toml f a b w q
  ]

  -- The state that create_service, delete_service, set_index_version and the merges answer Ok in
  -- is in the file, if the state before was.
  pub answered-IsSaved :
      (toml : Toml) (f : Faults) (r : Request) (w : World)
      → IsSaved toml w
      → (handle toml f r w).0 ≡ true
      → IsSaved toml (handle toml f r w).1
  unfolding handle create_service delete_service set_index_version apply_replicated merge_snapshot
  answered-IsSaved toml f (create service peers) w saved h =
      ground (arith, save_then-kept {A = ℕ} toml f 1 (created service peers w))
  answered-IsSaved toml f (delete service) w saved h =
      elim (Option-cases (get service w.store.services)) [
        | inl e ↦ absurd (ground (arith, e, h))
        | inr (st, e) ↦
            ground (arith, e, save_then-kept toml f (wrapping_suc st.version) (struck service st w))
      ]
  answered-IsSaved toml f (set_index version) w saved h = ground (
    arith,
    saved,
    save_then-kept toml f tt (record w { store = record w.store { index_version = version } }),
  )
  answered-IsSaved toml f (replicated service version members index deleted) w saved h =
      let step = merge_entry service version members index deleted w.store in
      ground (
        arith,
        saved,
        save_then-kept toml f true (record w { store = step.1 }),
        merge_entry-false service version members index deleted w.store,
      )
  answered-IsSaved toml f (synchronised snap) w saved h =
      let first = merge_services snap.index_version snap.services false w.store in
      elim (Result-cases first.0) [
        | inr (e, q) ↦ absurd (ground (arith, q, h))
        | inl (c, q) ↦
            let second = merge_tombstones snap.index_version snap.tombstones c first.1 in
            ground (
              arith,
              q,
              saved,
              save_then-kept toml f true (record w { store = second.1 }),
              merge_services-false snap.index_version snap.services false w.store,
              merge_tombstones-false snap.index_version snap.tombstones c first.1,
            )
      ]
