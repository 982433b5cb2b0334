-- ===== src/Legacy/Tests.antt =====
-- The store of the mode with several writers on small inputs.
use nexus_auth.Prelude.{
  ℕ, ◌+◌, ◌≤◌, ◌<◌, ◌≡◌, refl, Bool, true, false, Option, none, some, List, [], ◌∷◌, Text, Bytes,
  text, Result, ok, err, is_ok, arith, wrapping_suc,
}
use mathlib.Core.List.{Permᴰ}
use nexus_auth.Order.{text_ord, cmp_text}
use nexus_auth.BTree.{get, remove, collect}
use nexus_auth.Names.{is_valid_service_name, is_valid_peer_id}
use nexus_auth.Legacy.Merge.{
  merge_service, merge_members, merge_entry, apply_replicated, current_version, tombstone_version,
}
use nexus_auth.Snapshot.{ServiceState}
use nexus_auth.Lab
use nexus_auth.Lab.{lab, lab_toml, terse_toml}
use nexus_auth.Fsutil.{Disk, Faults, atomic_write, atomic_write-whole}
use nexus_auth.Policy.Tests.{start, web, alice}
use nexus_auth.Legacy.Types.{Store, World, save_to, save_then}
use nexus_auth.Legacy.Changes.{
  content, load_or_create, create_service, delete_service, validate_peers,
}
use nexus_auth.Legacy.Keys.{IsClean, key_at}
use nexus_auth.Legacy.Converge.{Message, Agree, receive, receive_all, converge}
use nexus_auth.Legacy.Raft.{Same, HasRoom, create, locally, in_raft, locally-Same}
use nexus_auth.Legacy.Durable.{IsSaved, handle, replicated, answered-IsSaved, restart}
use nexus_auth.Order.Max.{max_of}
use nexus_auth.BTree.{keys}
use nexus_auth.Legacy.Types.{snapshot}
use nexus_auth.Legacy.Merge.{merge_snapshot}
use nexus_auth.Legacy.Messages.{IsSound}
use nexus_auth.Legacy.Synchronise.{exchange}
use nexus_auth.Legacy.Contents.{plain, IsIdeal, IsPlain, converge_contents}
use nexus_auth.Legacy.Keys.{key_ord}
use nexus_auth.Legacy.Recreate.{recreation_lost}

abbrev fine : Faults
fine = record { creates = true; writes = true; partial = none; chmods = true; renames = true }

abbrev full : Faults
full = record {
  creates = true;
  writes = false;
  partial = some (7 ∷ []);
  chmods = true;
  renames = true;
}

abbrev no_file : Disk
no_file = record { target = none; temp = none }

abbrev empty_store : Store
empty_store = record { network = 110 ∷ []; index_version = 1; services = []; tombstones = [] }

abbrev empty_world : World
empty_world = record { store = empty_store; disk = no_file }

abbrev told_web : Message
told_web = record {
  service = web;
  version = 3;
  members = alice ∷ [];
  index_version = 4;
  deleted = false;
}

abbrev told_gone : Message
told_gone = record { service = web; version = 3; members = []; index_version = 5; deleted = true }

empty_store-IsClean : IsClean empty_store
unfolding get
empty_store-IsClean = record { at_each = λ q. tt }

atomic_write-whole_example :
    (atomic_write full (1 ∷ []) no_file).1.target ≡ (elim (atomic_write full (1 ∷ []) no_file).0 [
      | ok _ ↦ some (1 ∷ [])
      | err e ↦ no_file.target
    ])
atomic_write-whole_example = atomic_write-whole full (1 ∷ []) no_file

converge_example :
    Agree
      (receive_all (told_web ∷ told_gone ∷ []) empty_store)
      (receive_all (told_gone ∷ told_web ∷ []) empty_store)
converge_example =
    converge {ms = told_web ∷ told_gone ∷ []} {ns = told_gone ∷ told_web ∷ []}
      (Permᴰ.swap {a = told_web} {b = told_gone} {l = []} refl refl) empty_store empty_store
      empty_store-IsClean empty_store-IsClean (record { keys = λ q. refl; index = refl })

empty_store-Same : Same empty_store start
empty_store-Same = record { services = refl; tombstones = refl; index = refl }

web_room : HasRoom web empty_store
unfolding get
web_room = tt

locally-Same_example :
    Same
      (locally lab_toml fine (create web (alice ∷ [])) empty_world).store
      (in_raft (create web (alice ∷ [])) start)
locally-Same_example =
    locally-Same lab_toml fine (create web (alice ∷ [])) empty_world start empty_store-Same
      (omega arith) web_room

empty_saved_ok : (save_to lab_toml fine empty_store no_file).0 ≡ ok tt
unfolding save_to nexus_auth.Legacy.Types.snapshot atomic_write
empty_saved_ok = refl

restart_example :
    (b : Bytes) × ((save_to lab_toml fine empty_store no_file).1.target ≡ some b)
    × (load_or_create lab_toml full empty_store.network []
          (content b)
          (save_to lab_toml fine empty_store no_file).1
        ≡ (ok empty_store, (save_to lab_toml fine empty_store no_file).1))
restart_example =
    restart lab_toml fine full [] empty_store no_file Lab.lab_toml-IsFaithfulToml empty_saved_ok

abbrev saved_world : World
saved_world = record { store = empty_store; disk = record { target = some (1 ∷ []); temp = none } }

saved_world-IsSaved : IsSaved terse_toml saved_world
unfolding nexus_auth.Legacy.Types.snapshot
saved_world-IsSaved = record { bytes = 1 ∷ []; stored = refl; encoded = refl }

told_accepted :
    (handle terse_toml fine (replicated web 3 (alice ∷ []) 4 false) saved_world).0 ≡ true
unfolding handle apply_replicated merge_entry merge_service merge_members current_version
    tombstone_version validate_peers is_valid_service_name is_valid_peer_id save_then save_to
    atomic_write nexus_auth.Names.is_valid_network_name nexus_auth.Prelude.all
    nexus_auth.Names.is_name_byte cmp_text nexus_auth.Names.reserved_service text get
told_accepted = refl

answered-IsSaved_example :
    IsSaved terse_toml
      (handle terse_toml fine (replicated web 3 (alice ∷ []) 4 false) saved_world).1
answered-IsSaved_example =
    answered-IsSaved terse_toml fine (replicated web 3 (alice ∷ []) 4 false) saved_world
      saved_world-IsSaved told_accepted

abbrev web_state : ServiceState
web_state = record { version = 2; members = [] }

abbrev web_world : World
web_world = record empty_world { store = record empty_store { services = (web, web_state) ∷ [] } }

abbrev web_gone : Store
web_gone = record empty_store { tombstones = (web, 3) ∷ [] }

web_there : get web web_world.store.services ≡ some web_state
unfolding get cmp_text
web_there = refl

web_gone_there : get web web_gone.tombstones ≡ some 3
unfolding get cmp_text
web_gone_there = refl

web_created :
    is_ok
      (create_service terse_toml fine web
        (alice ∷ [])
        (delete_service terse_toml fine web web_world).1).0
    ≡ true
unfolding create_service delete_service validate_peers is_valid_service_name is_valid_peer_id
    save_then save_to atomic_write get remove nexus_auth.Names.is_valid_network_name
    nexus_auth.Prelude.all nexus_auth.Names.is_name_byte cmp_text nexus_auth.Names.reserved_service
    text
web_created = refl

recreation_lost_example :
    ((receive
        (record {
          service = web;
          version = 1;
          members = alice ∷ [];
          index_version = 4;
          deleted = false;
        })
        web_gone).1.services
      ≡ web_gone.services)
    × (get web
          (create_service terse_toml fine web
            (alice ∷ [])
            (delete_service terse_toml fine web web_world).1).1.store.services
        ≡ some (record { version = 1; members = collect (alice ∷ []) }))
    × (get web
          (create_service terse_toml fine web
            (alice ∷ [])
            (delete_service terse_toml fine web web_world).1).1.store.tombstones
        ≡ some (2 + 1))
    × (get web
          (receive
            (record {
              service = web;
              version = 2 + 1;
              members = [];
              index_version = 5;
              deleted = true;
            })
            (create_service terse_toml fine web
              (alice ∷ [])
              (delete_service terse_toml fine web web_world).1).1.store).1.services
        ≡ none)
recreation_lost_example =
    recreation_lost terse_toml fine fine web (alice ∷ []) 4 5 web_world web_state web_gone 3
      web_there (omega arith) web_gone_there (omega arith) web_created

abbrev web_admits : Store
web_admits = record empty_store {
  services = (web, record { version = 2; members = (alice, tt) ∷ [] }) ∷ [];
}

web_admits-IsSound : IsSound web_admits
unfolding get keys validate_peers is_valid_service_name is_valid_peer_id
    nexus_auth.Names.is_valid_network_name nexus_auth.Prelude.all nexus_auth.Names.is_name_byte
    cmp_text nexus_auth.Names.reserved_service text
web_admits-IsSound = record {
  clean = record { at_each = λ q. ground arith };
  services_sorted = (tt, tt);
  tombstones_sorted = tt;
  entries = ((refl, refl, (tt, tt)), tt);
  names = tt;
}

web_gone-IsSound : IsSound web_gone
unfolding get is_valid_service_name nexus_auth.Names.is_valid_network_name nexus_auth.Prelude.all
    nexus_auth.Names.is_name_byte cmp_text nexus_auth.Names.reserved_service text
web_gone-IsSound = record {
  clean = record { at_each = λ q. ground arith };
  services_sorted = tt;
  tombstones_sorted = (tt, tt);
  entries = tt;
  names = (refl, tt);
}

exchange_example :
    let v = record empty_world { store = web_admits } in
    let w = record empty_world { store = web_gone } in
    let v' = (merge_snapshot terse_toml fine (snapshot web_gone) v).1 in
    let w' = (merge_snapshot terse_toml full (snapshot web_admits) w).1 in
    (key_at v'.store web ≡ key_at w'.store web)
    × (key_at v'.store web ≡ max_of (key_at web_admits web) (key_at web_gone web))
exchange_example =
    exchange terse_toml fine full (record empty_world { store = web_admits })
      (record empty_world { store = web_gone }) web web_admits-IsSound web_gone-IsSound

injective : (a b : Bytes) → lab.sha256 a ≡ lab.sha256 b → a ≡ b
injective a b h = h

peers_plain : (s : Text) → lab.parses_peer_id s ≡ true → plain s ≡ true
peers_plain s h = ground (arith, h)

lab-IsIdeal : IsIdeal lab
lab-IsIdeal = record { injective = injective; peers_plain = peers_plain }

empty_store-IsPlain : IsPlain empty_store
unfolding get
empty_store-IsPlain = record { members = λ q. tt }

converge_contents_example :
    (get web (receive_all (told_web ∷ told_gone ∷ []) empty_store).services
      ≡ get web (receive_all (told_gone ∷ told_web ∷ []) empty_store).services)
    × (get web (receive_all (told_web ∷ told_gone ∷ []) empty_store).tombstones
        ≡ get web (receive_all (told_gone ∷ told_web ∷ []) empty_store).tombstones)
converge_contents_example =
    converge_contents lab-IsIdeal {ms = told_web ∷ told_gone ∷ []} {ns = told_gone ∷ told_web ∷ []}
      (Permᴰ.swap {a = told_web} {b = told_gone} {l = []} refl refl) empty_store empty_store
      empty_store-IsClean empty_store-IsClean empty_store-IsPlain empty_store-IsPlain
      (record { keys = λ q. refl; index = refl }) web
