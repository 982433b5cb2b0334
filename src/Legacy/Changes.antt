-- ===== src/Legacy/Changes.antt =====
-- The local operations of src/store.rs.
use nexus_auth.Prelude.{
  ℕ, Bool, true, false, not, Option, none, some, List, [], ◌∷◌, Text, Bytes, Result, Done, ok, err,
  ◌>>◌, if◌then◌else◌, wrapping_suc, length, ◌==◌,
}
use nexus_auth.Order.{text_ord, ◌≟◌}
use nexus_auth.BTree.{BTreeMap, BTreeSet, get, insert, remove, contains_key, collect, keys}
use nexus_auth.Names.{External, is_valid_service_name, is_valid_peer_id}
use nexus_auth.Snapshot.{ServiceState, StoreSnapshot}
use nexus_auth.Fsutil.{Disk, Faults, IoError}
use nexus_auth.Policy.Services.{insert_all, remove_all, replace}
use nexus_auth.Legacy.Types.{
  Store, StoreError, io, parse, network_mismatch, invalid_service, invalid_peer, not_found,
  already_exists, Toml, World, Op, save_to, save_then, save_anyway,
}

unfoldable pub service_names : Store → List Text
service_names s = keys s.services

unfoldable pub version : Store → Text → Option ℕ
version s service = elim (get service s.services) [ none ↦ none | some state ↦ some state.version ]

unfoldable pub members : Store → Text → Option (List Text)
members s service = elim (get service s.services) [
  | none ↦ none
  | some state ↦ some (keys state.members)
]

unfoldable pub member_count : Store → Text → Option ℕ
member_count s service = elim (get service s.services) [
  | none ↦ none
  | some state ↦ some (length state.members)
]

-- What `fs::read_to_string` of the path gives: no file, a file, or another error.
pub data Reading : Type 0 where
  missing : Reading
  content : Bytes → Reading
  failed : IoError → Reading

module _ (toml : Toml) where
  -- `state` is the entry of `service` with its members replaced. The save may fail, and the
  -- version is answered all the same.
  unfoldable pub finish_change : Faults → Text → ServiceState → Bool → World → ℕ × World
  unfolding save_anyway
  finish_change faults service state false w = (
    state.version,
    record w { store = record w.store { services = insert service state w.store.services } },
  )
  finish_change faults service state true w =
      let version = wrapping_suc state.version in
      (
        version,
        save_anyway toml faults (record w {
          store = record w.store {
            services = insert service (record state { version = version }) w.store.services;
            index_version = wrapping_suc w.store.index_version;
          };
        }),
      )

  unfoldable pub bump_index_version : Faults → World → ℕ × World
  unfolding save_anyway
  bump_index_version faults w =
      let version = wrapping_suc w.store.index_version in
      (
        version,
        save_anyway toml faults (record w { store = record w.store { index_version = version } }),
      )

  unfoldable pub set_index_version : Faults → ℕ → Op Done
  unfolding save_then
  set_index_version faults version w =
      if not (w.store.index_version == version)
      then save_then toml faults tt
          (record w { store = record w.store { index_version = version } })
      else (ok tt, w)

  unfoldable pub delete_service : Faults → Text → Op ℕ
  unfolding save_then
  delete_service faults service w = elim (get service w.store.services) [
    | none ↦ (err (not_found service), w)
    | some removed ↦
        let tombstone = wrapping_suc removed.version in
        save_then toml faults tombstone (record w {
          store = record w.store {
            services = remove service w.store.services;
            tombstones = insert service tombstone w.store.tombstones;
            index_version = wrapping_suc w.store.index_version;
          };
        })
  ]

  unfoldable pub from_snapshot :
      Faults → Text → StoreSnapshot → Disk → Result StoreError Store × Disk
  unfolding save_to
  from_snapshot faults network snapshot disk =
      let store : Store = record {
        network = network;
        index_version = snapshot.index_version;
        services = snapshot.services;
        tombstones = snapshot.tombstones;
      } in
      if not (snapshot.network ≟ network)
      then (err (network_mismatch network snapshot.network), disk)
      else ((save_to toml faults store disk).0 >> ok store, (save_to toml faults store disk).1)

module _ ⦃x : External⦄ where
  unfoldable pub validate_peers : List Text → Result StoreError Done
  validate_peers [] = ok tt
  validate_peers (peer ∷ peers) =
      let rest = validate_peers peers in
      if is_valid_peer_id peer then rest else err (invalid_peer peer)

  -- The services of the configuration, that the first start begins with.
  unfoldable pub seed_services :
      BTreeMap Text (List Text)
      → BTreeMap Text ServiceState
      → Result StoreError (BTreeMap Text ServiceState)
  unfolding validate_peers
  seed_services [] services = ok services
  seed_services ((name, members) ∷ initial) services =
      let rest =
        seed_services initial
          (insert name (record { version = 1; members = collect members }) services) in
      if not (is_valid_service_name name)
      then err (invalid_service name)
      else validate_peers members >> rest

  unfoldable pub load_or_create :
      Toml
      → Faults
      → Text
      → BTreeMap Text (List Text)
      → Reading
      → Disk
      → Result StoreError Store × Disk
  unfolding save_to seed_services
  load_or_create toml faults network initial (content bytes) disk = elim (toml.from_str bytes) [
    | err e ↦ (err (parse e), disk)
    | ok file ↦
        if not (file.network ≟ network)
        then (err (network_mismatch network file.network), disk)
        else (
          ok (record {
            network = network;
            index_version = file.index_version;
            services = file.services;
            tombstones = file.tombstones;
          }),
          disk,
        )
  ]
  load_or_create toml faults network initial (failed e) disk = (err (io e), disk)
  load_or_create toml faults network initial missing disk = elim (seed_services initial []) [
    | err e ↦ (err e, disk)
    | ok services ↦
        let store : Store = record {
          network = network;
          index_version = 1;
          services = services;
          tombstones = [];
        } in
        ((save_to toml faults store disk).0 >> ok store, (save_to toml faults store disk).1)
  ]

  unfoldable pub create_service : Toml → Faults → Text → List Text → Op ℕ
  unfolding save_then validate_peers
  create_service toml faults service peers w =
      if not (is_valid_service_name service)
      then (err (invalid_service service), w)
      else elim (validate_peers peers) [
        | err e ↦ (err e, w)
        | ok _ ↦
            if contains_key service w.store.services
            then (err (already_exists service), w)
            else save_then toml faults 1 (record w {
              store = record w.store {
                services =
                    insert service (record { version = 1; members = collect peers })
                      w.store.services;
                index_version = wrapping_suc w.store.index_version;
              };
            })
      ]

  -- What the three operations on members share.
  unfoldable pub change_members :
      Toml → Faults → Text → List Text → (BTreeSet Text → Bool × BTreeSet Text) → Op ℕ
  unfolding finish_change validate_peers
  change_members toml faults service peers update w = elim (validate_peers peers) [
    | err e ↦ (err e, w)
    | ok _ ↦ elim (get service w.store.services) [
      | none ↦ (err (not_found service), w)
      | some state ↦
          let (changed, members) = update state.members in
          let (version, w') =
            finish_change toml faults service (record state { members = members }) changed w in
          (ok version, w')
    ]
  ]

  unfoldable pub add_members : Toml → Faults → Text → List Text → Op ℕ
  unfolding change_members
  add_members toml faults service peers =
      change_members toml faults service peers (insert_all peers false)

  unfoldable pub remove_members : Toml → Faults → Text → List Text → Op ℕ
  unfolding change_members
  remove_members toml faults service peers =
      change_members toml faults service peers (remove_all peers false)

  unfoldable pub set_members : Toml → Faults → Text → List Text → Op ℕ
  unfolding change_members replace
  set_members toml faults service peers =
      change_members toml faults service peers (replace (collect peers))
