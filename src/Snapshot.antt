-- ===== src/Snapshot.antt =====
-- The persisted shape of a service and of the whole store (src/store.rs), which the legacy store and
-- the Raft state machine share.
use nexus_auth.Prelude.{ℕ, Text}
use nexus_auth.BTree.{BTreeMap, BTreeSet}

pub record ServiceState : Type 0 where
  pub version : ℕ
  pub members : BTreeSet Text

pub record StoreSnapshot : Type 0 where
  pub network : Text
  pub index_version : ℕ
  pub services : BTreeMap Text ServiceState
  pub tombstones : BTreeMap Text ℕ
