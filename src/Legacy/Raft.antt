-- ===== src/Legacy/Raft.antt =====
-- The local operations against the Raft state machine: on the same state both make the same change.
use nexus_auth.Prelude.{
  ◌<◌, ◌≡◌, refl, Bool, none, some, List, [], ◌∷◌, Text, arith, is_ok, u64_max, wrapping_suc_lt,
  saturating_add_lt, Option-cases, inl, inr,
}
use nexus_auth.Order.{text_ord}
use nexus_auth.BTree.{BTreeSet, get}
use nexus_auth.Names.{External}
use nexus_auth.Fsutil.{Faults}
use nexus_auth.Policy.Types.{PolicyState}
use nexus_auth.Policy.Services
use nexus_auth.Legacy.Types.{Store, World, Toml, save_then, save_anyway}
use nexus_auth.Legacy.Changes

-- A store and a policy hold the same services, tombstones and index version.
pub record Same (s : Store) (p : PolicyState) : Type 0 where
  pub services : s.services ≡ p.services
  pub tombstones : s.tombstones ≡ p.tombstones
  pub index : s.index_version ≡ p.policy_epoch

-- The version of a service, were it there, is below the last `u64`.
abbrev pub HasRoom : Text → Store → Type 0
HasRoom service s = elim (get service s.services) [
  | none ↦ Unit {0}
  | some st ↦ st.version < u64_max
]

-- What may happen to a store in one local operation.
pub data Change : Type 0 where
  create add_all remove_all set_all : Text → List Text → Change
  delete : Text → Change

module _ ⦃x : External⦄ where
  unfoldable pub locally : Toml → Faults → Change → World → World
  locally toml f (create service peers) w = (Changes.create_service toml f service peers w).1
  locally toml f (add_all service peers) w = (Changes.add_members toml f service peers w).1
  locally toml f (remove_all service peers) w = (Changes.remove_members toml f service peers w).1
  locally toml f (set_all service peers) w = (Changes.set_members toml f service peers w).1
  locally toml f (delete service) w = (Changes.delete_service toml f service w).1

  unfoldable pub in_raft : Change → PolicyState → PolicyState
  in_raft (create service peers) s = (Services.create_service service peers s).1
  in_raft (add_all service peers) s = (Services.add_members service peers s).1
  in_raft (remove_all service peers) s = (Services.remove_members service peers s).1
  in_raft (set_all service peers) s = (Services.set_members service peers s).1
  in_raft (delete service) s = (Services.delete_service service s).1

  same_validation :
      (peers : List Text)
      → is_ok (Changes.validate_peers peers) ≡ is_ok (Services.validate_peers peers)
  unfolding Changes.validate_peers Services.validate_peers
  same_validation [] = refl
  same_validation (p ∷ ps) = ground (arith, same_validation ps)

  create-Same :
      (toml : Toml) (f : Faults) (service : Text) (peers : List Text) (w : World) (p : PolicyState)
      → Same w.store p
      → w.store.index_version < u64_max
      → Same
          (Changes.create_service toml f service peers w).1.store
          (Services.create_service service peers p).1
  unfolding Changes.create_service Services.create_service save_then Services.bump_epoch
  create-Same toml f service peers w p same lt = record {
    services = ground (arith, same.services, same_validation peers);
    tombstones = ground (arith, same.services, same.tombstones, same_validation peers);
    index = ground (
      arith,
      same.services,
      same.index,
      same_validation peers,
      wrapping_suc_lt w.store.index_version lt,
      saturating_add_lt w.store.index_version lt,
    );
  }

  delete-Same :
      (toml : Toml) (f : Faults) (service : Text) (w : World) (p : PolicyState)
      → Same w.store p
      → w.store.index_version < u64_max
      → HasRoom service w.store
      → Same (Changes.delete_service toml f service w).1.store (Services.delete_service service p).1
  unfolding Changes.delete_service Services.delete_service save_then Services.bump_epoch
  delete-Same toml f service w p same lt room = elim (Option-cases (get service w.store.services)) [
    | inl e ↦ record {
      services = ground (arith, same.services, e);
      tombstones = ground (arith, same.services, same.tombstones, e);
      index = ground (arith, same.services, same.index, e);
    }
    | inr (st, e) ↦
        let below : st.version < u64_max = ground (arith, e, room) in
        record {
          services = ground (arith, same.services, e);
          tombstones = ground (
            arith,
            same.services,
            same.tombstones,
            e,
            wrapping_suc_lt st.version below,
            saturating_add_lt st.version below,
          );
          index = ground (
            arith,
            same.services,
            same.index,
            e,
            wrapping_suc_lt w.store.index_version lt,
            saturating_add_lt w.store.index_version lt,
          );
        }
  ]

  members-Same :
      (toml : Toml) (f : Faults) (service : Text) (peers : List Text)
      (update : BTreeSet Text → Bool × BTreeSet Text) (w : World) (p : PolicyState)
      → Same w.store p
      → w.store.index_version < u64_max
      → HasRoom service w.store
      → Same
          (Changes.change_members toml f service peers update w).1.store
          (Services.change_members service peers update p).1
  unfolding Changes.change_members Services.change_members Changes.finish_change
      Services.finish_change save_anyway Services.bump_epoch
  members-Same toml f service peers update w p same lt room =
      elim (Option-cases (get service w.store.services)) [
        | inl e ↦ record {
          services = ground (arith, same.services, e);
          tombstones = ground (arith, same.services, same.tombstones, e);
          index = ground (arith, same.services, same.index, e);
        }
        | inr (st, e) ↦
            let below : st.version < u64_max = ground (arith, e, room) in
            record {
              services = ground (
                arith,
                same.services,
                e,
                same_validation peers,
                wrapping_suc_lt st.version below,
                saturating_add_lt st.version below,
              );
              tombstones = ground (arith, same.services, same.tombstones, e, same_validation peers);
              index = ground (
                arith,
                same.services,
                same.index,
                e,
                same_validation peers,
                wrapping_suc_lt w.store.index_version lt,
                saturating_add_lt w.store.index_version lt,
              );
            }
      ]

  abbrev pub of_change : Change → Text
  of_change (create service peers) = service
  of_change (add_all service peers) = service
  of_change (remove_all service peers) = service
  of_change (set_all service peers) = service
  of_change (delete service) = service

  -- Let a store and a Raft policy hold the same services, tombstones and index version, with the
  -- index version and the version of the service below the last u64. A local operation of the
  -- store, accepted or refused and saved or not, leaves in memory the services, tombstones and
  -- index version that the command of that name leaves in the policy.
  pub locally-Same :
      (toml : Toml) (f : Faults) (c : Change) (w : World) (p : PolicyState)
      → Same w.store p
      → w.store.index_version < u64_max
      → HasRoom (of_change c) w.store
      → Same (locally toml f c w).store (in_raft c p)
  unfolding locally in_raft Changes.add_members Changes.remove_members Changes.set_members
      Services.add_members Services.remove_members Services.set_members
  locally-Same toml f (create service peers) w p same lt room =
      create-Same toml f service peers w p same lt
  locally-Same toml f (delete service) w p same lt room =
      delete-Same toml f service w p same lt room
  locally-Same toml f (add_all service peers) w p same lt room =
      members-Same toml f service peers _ w p same lt room
  locally-Same toml f (remove_all service peers) w p same lt room =
      members-Same toml f service peers _ w p same lt room
  locally-Same toml f (set_all service peers) w p same lt room =
      members-Same toml f service peers _ w p same lt room
