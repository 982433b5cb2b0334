-- ===== src/Legacy/Types.antt =====
-- The state of src/store.rs, its errors, and how it is saved.
use nexus_auth.Prelude.{ℕ, Text, Bytes, Result, Done, ok, err, ◌≡◌}
use nexus_auth.BTree.{BTreeMap}
use nexus_auth.Fsutil.{Disk, Faults, IoError, atomic_write}
use nexus_auth.Snapshot.{ServiceState, StoreSnapshot}

-- `StoreError`
pub data StoreError : Type 0 where
  io : IoError → StoreError
  parse : Text → StoreError
  network_mismatch : Text → Text → StoreError
  invalid_service invalid_peer not_found already_exists : Text → StoreError

-- `toml::to_string_pretty` and `toml::from_str` at `StoreSnapshot`.
pub record Toml : Type 0 where
  pub to_string : StoreSnapshot → Result Text Bytes
  pub from_str : Bytes → Result Text StoreSnapshot

-- A state file that has been written reads back.
pub record IsFaithfulToml (t : Toml) : Type 0 where
  pub reads_back : (s : StoreSnapshot) (b : Bytes) → t.to_string s ≡ ok b → t.from_str b ≡ ok s

pub record Store : Type 0 where
  pub network : Text
  pub index_version : ℕ
  pub services : BTreeMap Text ServiceState
  pub tombstones : BTreeMap Text ℕ

-- The store in memory and the file at its path.
pub record World : Type 0 where
  pub store : Store
  pub disk : Disk

-- A method on `&mut self`.
abbrev pub Op {ℓ} : Type ℓ → Type ℓ
Op A = World → Result StoreError A × World

-- `snapshot`
unfoldable pub snapshot : Store → StoreSnapshot
snapshot s = record {
  network = s.network;
  index_version = s.index_version;
  services = s.services;
  tombstones = s.tombstones;
}

unfoldable pub save_to : Toml → Faults → Store → Disk → Result StoreError Done × Disk
save_to toml faults store disk = elim (toml.to_string (snapshot store)) [
  | err e ↦ (err (parse e), disk)
  | ok bytes ↦ elim (atomic_write faults bytes disk).0 [
    | err e ↦ (err (io e), (atomic_write faults bytes disk).1)
    | ok _ ↦ (ok tt, (atomic_write faults bytes disk).1)
  ]
]

-- `self.save()?; Ok(a)`
unfoldable pub save_then {ℓ} : {A : Type ℓ} → Toml → Faults → A → Op A
unfolding save_to
save_then toml faults a w = elim (save_to toml faults w.store w.disk).0 [
  | err e ↦ (err e, record w { disk = (save_to toml faults w.store w.disk).1 })
  | ok _ ↦ (ok a, record w { disk = (save_to toml faults w.store w.disk).1 })
]

-- `let _ = self.save();`
unfoldable pub save_anyway : Toml → Faults → World → World
unfolding save_to
save_anyway toml faults w = record w { disk = (save_to toml faults w.store w.disk).1 }
