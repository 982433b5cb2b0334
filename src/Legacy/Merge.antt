-- ===== src/Legacy/Merge.antt =====
-- Replication in src/store.rs: the merge of one service, of one message and of a whole snapshot.
use nexus_auth.Prelude.{
  ℕ, Bool, true, false, ◌||◌, ◌&&◌, not, none, some, List, [], ◌∷◌, ◌++◌, Text, Bytes, Result, ok,
  err, if◌then◌else◌, ltb, leb, ◌==◌, unwrap_or,
}
use Prim.Native.Nat.Ordering.{lt, eq, gt}
use nexus_auth.Order.{text_ord, cmp_text}
use nexus_auth.BTree.{BTreeMap, BTreeSet, get, insert, remove, contains_key, collect, set_eq, keys}
use nexus_auth.Names.{External, is_valid_service_name, content_hash}
use nexus_auth.Snapshot.{ServiceState, StoreSnapshot}
use nexus_auth.Fsutil.{Faults}
use nexus_auth.Legacy.Types.{Store, StoreError, invalid_service, Toml, Op, save_then}
use nexus_auth.Legacy.Changes.{validate_peers}

-- The members in order, each followed by a zero byte.
unfoldable pub members_buffer : List Text → Bytes
members_buffer [] = []
members_buffer (m ∷ ms) = m ++ (0 ∷ members_buffer ms)

-- `a >= b` of two byte strings
abbrev pub bytes_ge : Bytes → Bytes → Bool
bytes_ge a b = elim (cmp_text a b) [ lt ↦ false | eq ↦ true | gt ↦ true ]

-- The version that a service has, or 0.
unfoldable pub current_version : Text → Store → ℕ
current_version service s = elim (get service s.services) [ none ↦ 0 | some state ↦ state.version ]

unfoldable pub tombstone_version : Text → Store → ℕ
tombstone_version service s = unwrap_or (get service s.tombstones) 0

abbrev pub deletion : Text → ℕ → Store → Result StoreError Bool × Store
deletion service version s = (
  ok true,
  record s {
    services = remove service s.services;
    tombstones = insert service version s.tombstones;
  },
)

abbrev pub replacement : Text → ℕ → BTreeSet Text → Store → Result StoreError Bool × Store
replacement service version incoming s = (
  ok true,
  record s {
    services = insert service (record { version = version; members = incoming }) s.services;
    tombstones = remove service s.tombstones;
  },
)

-- The branch of `merge_service` on a deletion.
unfoldable pub merge_deletion : Text → ℕ → Store → Result StoreError Bool × Store
unfolding current_version tombstone_version
merge_deletion service version s =
    if ltb version (current_version service s) || ltb version (tombstone_version service s)
    then (ok false, s)
    else if not (contains_key service s.services) && leb version (tombstone_version service s)
    then (ok false, s)
    else deletion service version s

module _ ⦃x : External⦄ where
  unfoldable pub members_hash : BTreeSet Text → Bytes
  unfolding members_buffer
  members_hash ms = content_hash (members_buffer (keys ms))

  -- The branch on members, once they are valid. At a version that is equal, the service is there:
  -- version 0 is never above the tombstone.
  unfoldable pub merge_members : Text → ℕ → BTreeSet Text → Store → Result StoreError Bool × Store
  unfolding current_version tombstone_version members_hash
  merge_members service version incoming s =
      if leb version (tombstone_version service s) || ltb version (current_version service s)
      then (ok false, s)
      else if version == current_version service s
      then elim (get service s.services) [
        | none ↦ replacement service version incoming s
        | some existing ↦
            if set_eq existing.members incoming
            then (ok false, s)
            else if bytes_ge (members_hash existing.members) (members_hash incoming)
            then (ok false, s)
            else replacement service version incoming s
      ]
      else replacement service version incoming s

  unfoldable pub merge_service :
      Text → ℕ → List Text → Bool → Store → Result StoreError Bool × Store
  unfolding merge_deletion merge_members
  merge_service service version members deleted s =
      if not (is_valid_service_name service)
      then (err (invalid_service service), s)
      else if deleted
      then merge_deletion service version s
      else elim (validate_peers members) [
        | err e ↦ (err e, s)
        | ok _ ↦ merge_members service version (collect members) s
      ]

  unfoldable pub merge_entry :
      Text → ℕ → List Text → ℕ → Bool → Store → Result StoreError Bool × Store
  unfolding merge_service
  merge_entry service version members index_version deleted s =
      let (result, s') = merge_service service version members deleted s in
      elim result [
        | err e ↦ (err e, s')
        | ok entry_changed ↦
            if ltb s'.index_version index_version
            then (ok true, record s' { index_version = index_version })
            else (ok entry_changed, s')
      ]

  unfoldable pub apply_replicated : Toml → Faults → Text → ℕ → List Text → ℕ → Bool → Op Bool
  unfolding merge_entry save_then
  apply_replicated toml faults service version members index_version deleted w =
      let (result, store) = merge_entry service version members index_version deleted w.store in
      elim result [
        | err e ↦ (err e, record w { store = store })
        | ok false ↦ (ok false, record w { store = store })
        | ok true ↦ save_then toml faults true (record w { store = store })
      ]

  -- The loops of `merge_snapshot`; an error ends both, with what has been merged left in memory.
  unfoldable pub merge_services :
      ℕ → BTreeMap Text ServiceState → Bool → Store → Result StoreError Bool × Store
  unfolding merge_entry
  merge_services index [] changed s = (ok changed, s)
  merge_services index ((name, state) ∷ rest) changed s =
      let (result, s') = merge_entry name state.version (keys state.members) index false s in
      elim result [ err e ↦ (err e, s') | ok c ↦ merge_services index rest (changed || c) s' ]

  unfoldable pub merge_tombstones :
      ℕ → BTreeMap Text ℕ → Bool → Store → Result StoreError Bool × Store
  unfolding merge_entry
  merge_tombstones index [] changed s = (ok changed, s)
  merge_tombstones index ((name, version) ∷ rest) changed s =
      let (result, s') = merge_entry name version [] index true s in
      elim result [ err e ↦ (err e, s') | ok c ↦ merge_tombstones index rest (changed || c) s' ]

  unfoldable pub merge_snapshot : Toml → Faults → StoreSnapshot → Op Bool
  unfolding merge_services merge_tombstones save_then
  merge_snapshot toml faults snapshot w =
      let (first, s') = merge_services snapshot.index_version snapshot.services false w.store in
      elim first [
        | err e ↦ (err e, record w { store = s' })
        | ok changed ↦
            let (second, s'') =
              merge_tombstones snapshot.index_version snapshot.tombstones changed s' in
            elim second [
              | err e ↦ (err e, record w { store = s'' })
              | ok false ↦ (ok false, record w { store = s'' })
              | ok true ↦ save_then toml faults true (record w { store = s'' })
            ]
      ]
