-- ===== src/Policy/Services.antt =====
-- The commands on services and their members (src/raft/state_machine.rs).
use nexus_auth.Prelude.{
  ℕ, Bool, true, false, ◌||◌, not, Option, none, some, List, [], ◌∷◌, ◌++◌, Text, text, Result,
  Done, ok, err, if◌then◌else◌, saturating_add,
}
use nexus_auth.Order.{text_ord}
use nexus_auth.BTree.{BTreeSet, get, insert, remove, contains_key, contains, add, collect, set_eq}
use nexus_auth.Names.{External, is_valid_service_name, is_valid_peer_id}
use nexus_auth.Snapshot.{ServiceState}
use nexus_auth.Policy.Types.{PolicyState, Rejection, Step, reject}

unfoldable pub not_found : Text → Rejection
not_found service = record { code = text "not_found"; message = text "服务不存在: " ++ service }

unfoldable pub bump_epoch : PolicyState → PolicyState
bump_epoch s = record s { policy_epoch = saturating_add s.policy_epoch 1 }

-- `for peer in peers { changed |= state.members.insert(peer) }`
unfoldable pub insert_all : List Text → Bool → BTreeSet Text → Bool × BTreeSet Text
insert_all [] changed members = (changed, members)
insert_all (peer ∷ peers) changed members =
    insert_all peers (changed || not (contains peer members)) (add peer members)

-- `for peer in peers { changed |= state.members.remove(peer) }`
unfoldable pub remove_all : List Text → Bool → BTreeSet Text → Bool × BTreeSet Text
remove_all [] changed members = (changed, members)
remove_all (peer ∷ peers) changed members =
    remove_all peers (changed || contains peer members) (remove peer members)

-- `state` is the entry of `service`, with its members already replaced; the lookup of the source
-- finds that very entry. A real change moves the entry's version and the epoch by one.
unfoldable pub finish_change : Text → ServiceState → Bool → PolicyState → (ℕ × Bool) × PolicyState
unfolding bump_epoch
finish_change service state false s =
    ((state.version, false), record s { services = insert service state s.services })
finish_change service state true s =
    let version = saturating_add state.version 1 in
    (
      (version, true),
      bump_epoch
          (record s { services = insert service (record state { version = version }) s.services }),
    )

unfoldable pub delete_service : Text → Step ℕ
unfolding bump_epoch not_found
delete_service service s = elim (get service s.services) [
  | none ↦ (err (not_found service), s)
  | some removed ↦
      let tombstone = saturating_add removed.version 1 in
      (
        ok tombstone,
        bump_epoch (record s {
          services = remove service s.services;
          tombstones = insert service tombstone s.tombstones;
        }),
      )
]

-- `state.members != incoming`
unfoldable pub replace : BTreeSet Text → BTreeSet Text → Bool × BTreeSet Text
replace incoming members = if set_eq members incoming then (false, members) else (true, incoming)

module _ ⦃x : External⦄ where
  unfoldable pub validate_peers : List Text → Result Rejection Done
  validate_peers [] = ok tt
  validate_peers (peer ∷ peers) =
      let rest = validate_peers peers in
      if is_valid_peer_id peer
      then rest
      else err (record { code = text "invalid_peer"; message = text "非法 PeerId: " ++ peer })

  unfoldable pub create_service : Text → List Text → Step ℕ
  unfolding bump_epoch
  create_service service members s =
      if not (is_valid_service_name service)
      then reject (text "invalid_service") (text "非法服务名: " ++ service) s
      else elim (validate_peers members) [
        | err e ↦ (err e, s)
        | ok _ ↦
            if contains_key service s.services
            then reject (text "already_exists") (text "服务已存在: " ++ service) s
            else (
              ok 1,
              bump_epoch (record s {
                services =
                    insert service (record { version = 1; members = collect members }) s.services;
              }),
            )
      ]

  -- What the three commands on members share: the peers are checked, the service is looked up, and
  -- `update` gives whether its members change and what they are then.
  unfoldable pub change_members :
      Text → List Text → (BTreeSet Text → Bool × BTreeSet Text) → Step (ℕ × Bool)
  unfolding finish_change not_found
  change_members service peers update s = elim (validate_peers peers) [
    | err e ↦ (err e, s)
    | ok _ ↦ elim (get service s.services) [
      | none ↦ (err (not_found service), s)
      | some state ↦
          let (changed, members) = update state.members in
          let (result, s') = finish_change service (record state { members = members }) changed s in
          (ok result, s')
    ]
  ]

  unfoldable pub add_members : Text → List Text → Step (ℕ × Bool)
  unfolding change_members
  add_members service peers = change_members service peers (insert_all peers false)

  unfoldable pub remove_members : Text → List Text → Step (ℕ × Bool)
  unfolding change_members
  remove_members service peers = change_members service peers (remove_all peers false)

  unfoldable pub set_members : Text → List Text → Step (ℕ × Bool)
  unfolding change_members replace
  set_members service peers = change_members service peers (replace (collect peers))

unfoldable pub service_version : PolicyState → Text → Option ℕ
service_version s service = elim (get service s.services) [
  | none ↦ none
  | some state ↦ some state.version
]

-- The members as a set; the source lists them in order.
unfoldable pub service_members : PolicyState → Text → Option (BTreeSet Text)
service_members s service = elim (get service s.services) [
  | none ↦ none
  | some state ↦ some state.members
]
