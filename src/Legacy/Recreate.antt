-- ===== src/Legacy/Recreate.antt =====
-- A service that is deleted and created again.
use nexus_auth.Prelude.{
  ℕ, ◌+◌, ◌≤◌, ◌<◌, ◌≡◌, refl, true, false, none, some, List, [], Text, arith, is_ok, u64_max,
  wrapping_suc, wrapping_suc_lt,
}
use nexus_auth.Order.{≟_self, text_ord}
use nexus_auth.BTree.{get, remove, collect}
use nexus_auth.BTree.Lookup.{get-insert, get-remove}
use nexus_auth.Names.{External, is_valid_service_name}
use nexus_auth.Snapshot.{ServiceState}
use nexus_auth.Fsutil.{Faults}
use nexus_auth.Legacy.Types.{Store, World, Toml, save_then}
use nexus_auth.Legacy.Changes.{create_service, delete_service}
use nexus_auth.Legacy.Merge.{
  merge_service, merge_deletion, merge_members, merge_entry, current_version, tombstone_version,
}
use nexus_auth.Legacy.Converge.{Message, receive}

module _ ⦃x : External⦄ where
  -- A replica that has a tombstone of the service keeps it out: the message of the new service bears
  -- version 1, which is never above a tombstone.
  kept_out :
      (m : Message) (r : Store) (t : ℕ)
      → m.version ≡ 1
      → m.deleted ≡ false
      → get m.service r.tombstones ≡ some t
      → 0 < t
      → (receive m r).1.services ≡ r.services
  unfolding receive merge_entry merge_service merge_members tombstone_version current_version
  kept_out m r t v d h p = ground arith

  recreated :
      (toml : Toml) (f g : Faults) (service : Text) (peers : List Text) (w : World)
      (st : ServiceState)
      → get service w.store.services ≡ some st
      → st.version < u64_max
      → let w' = (create_service toml g service peers (delete_service toml f service w).1).1 in
        is_ok (create_service toml g service peers (delete_service toml f service w).1).0 ≡ true
        → (get service w'.store.services ≡ some (record { version = 1; members = collect peers }))
          × (get service w'.store.tombstones ≡ some (st.version + 1))
  unfolding create_service delete_service save_then
  recreated toml f g service peers w st h lt created = ground (
    arith,
    h,
    wrapping_suc_lt st.version lt,
    get-remove service service w.store.services,
    get-insert service service (record { version = 1; members = collect peers })
        (remove service w.store.services),
    get-insert service service (wrapping_suc st.version) w.store.tombstones,
    ≟_self service,
  )

  created_valid :
      (toml : Toml) (g : Faults) (service : Text) (peers : List Text) (w : World)
      → is_ok (create_service toml g service peers w).0 ≡ true
      → is_valid_service_name service ≡ true
  unfolding create_service
  created_valid toml g service peers w h = ground arith

  struck :
      (service : Text) (v i : ℕ) (s : Store) (st : ServiceState)
      → is_valid_service_name service ≡ true
      → get service s.services ≡ some st
      → get service s.tombstones ≡ some v
      → st.version ≤ v
      → get service
          (receive
            (record {
              service = service;
              version = v;
              members = [];
              index_version = i;
              deleted = true;
            })
            s).1.services
        ≡ none
  unfolding receive merge_entry merge_service merge_deletion tombstone_version current_version
  struck service v i s st valid h t le =
      ground (arith, valid, h, t, get-remove service service s.services, ≟_self service)

  -- Let a service be deleted and then created again with an answer of Ok, its version before below
  -- the last u64. The new service has version 1, and the tombstone of the deletion, with one more
  -- than the version before, is still there. A replica that has a tombstone of the service above 0
  -- does not take the new service, and the deletion, when it comes back, strikes it where it was
  -- created.
  pub recreation_lost :
      (toml : Toml) (f g : Faults) (service : Text) (peers : List Text) (i j : ℕ) (w : World)
      (st : ServiceState) (r : Store) (t : ℕ)
      → get service w.store.services ≡ some st
      → st.version < u64_max
      → get service r.tombstones ≡ some t
      → 0 < t
      → let (result, w') =
          create_service toml g service peers (delete_service toml f service w).1 in
        is_ok result ≡ true
        → ((receive
              (record {
                service = service;
                version = 1;
                members = peers;
                index_version = i;
                deleted = false;
              })
              r).1.services
            ≡ r.services)
          × (get service w'.store.services ≡ some (record { version = 1; members = collect peers }))
          × (get service w'.store.tombstones ≡ some (st.version + 1))
          × (get service
                (receive
                  (record {
                    service = service;
                    version = st.version + 1;
                    members = [];
                    index_version = j;
                    deleted = true;
                  })
                  w'.store).1.services
              ≡ none)
  recreation_lost toml f g service peers i j w st r t h lt there pos created =
      let now = recreated toml f g service peers w st h lt created in
      let w' = (create_service toml g service peers (delete_service toml f service w).1).1 in
      (
        kept_out
            (record {
              service = service;
              version = 1;
              members = peers;
              index_version = i;
              deleted = false;
            })
            r t refl refl there pos,
        now.0,
        now.1,
        struck service (st.version + 1) j w'.store _ (created_valid toml g service peers _ created)
            now.0 now.1 (omega arith),
      )
