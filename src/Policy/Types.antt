-- ===== src/Policy/Types.antt =====
-- The commands, results and state of src/raft/types.rs and src/raft/state_machine.rs.
use nexus_auth.Prelude.{ℕ, Bool, Option, List, [], Text, Result, err, max}
use nexus_auth.BTree.{BTreeMap}
use nexus_auth.Snapshot.{ServiceState, StoreSnapshot}

-- The `v`, `max_uses` and `expires_at` of a token are `u8`, `u32` and `u64`.
pub record JoinToken : Type 0 where
  pub v : ℕ
  pub jti : Text
  pub cluster_id : Text
  pub network : Text
  pub audience : Text
  pub expires_at : ℕ
  pub max_uses : ℕ
  pub bind_peer_id : Text
  pub kid : Text
  pub sig : Text

pub record StoredJoinToken : Type 0 where
  pub token : JoinToken
  pub uses : ℕ

-- `admin`: request id, kid, request hash, request timestamp and the boxed command;
-- `consume_join_token`: jti, node id, peer id and time of use.
pub data PolicyCommand : Type 0 where
  create_service : Text → List Text → PolicyCommand
  delete_service : Text → PolicyCommand
  add_members : Text → List Text → PolicyCommand
  remove_members : Text → List Text → PolicyCommand
  set_members : Text → List Text → PolicyCommand
  admin : Text → Text → Text → ℕ → PolicyCommand → PolicyCommand
  renew_index : ℕ → PolicyCommand
  issue_join_token : JoinToken → PolicyCommand
  consume_join_token : Text → ℕ → Text → ℕ → PolicyCommand

-- `AdminOutcome::Applied { service, version, changed }`, `Rejected { code, message }`.
pub data AdminOutcome : Type 0 where
  applied : Option Text → Option ℕ → Bool → AdminOutcome
  rejected : Text → Text → AdminOutcome

-- `Applied { service, version, policy_epoch, changed }`, `Rejected { code, message, policy_epoch }`,
-- `Admin { request_id, policy_epoch, raft_index, duplicate, outcome }`.
pub data PolicyResult : Type 0 where
  applied : Option Text → Option ℕ → ℕ → Bool → PolicyResult
  rejected : Text → Text → ℕ → PolicyResult
  admin : Text → ℕ → ℕ → Bool → AdminOutcome → PolicyResult

pub record AdminRecord : Type 0 where
  pub request_hash : Text
  pub outcome : AdminOutcome
  pub policy_epoch : ℕ
  pub raft_index : ℕ
  pub request_ts : ℕ

pub record PolicyState : Type 0 where
  pub network : Text
  pub policy_epoch : ℕ
  pub index_expires_at : ℕ
  pub services : BTreeMap Text ServiceState
  pub tombstones : BTreeMap Text ℕ
  pub dedup : BTreeMap Text AdminRecord
  pub join_tokens : BTreeMap Text StoredJoinToken

-- `PolicyState::new`
unfoldable pub new : Text → PolicyState
new network = record {
  network = network;
  policy_epoch = 1;
  index_expires_at = 0;
  services = [];
  tombstones = [];
  dedup = [];
  join_tokens = [];
}

unfoldable pub from_store_snapshot : StoreSnapshot → PolicyState
from_store_snapshot snapshot = record {
  network = snapshot.network;
  policy_epoch = max snapshot.index_version 1;
  index_expires_at = 0;
  services = snapshot.services;
  tombstones = snapshot.tombstones;
  dedup = [];
  join_tokens = [];
}

unfoldable pub to_store_snapshot : PolicyState → StoreSnapshot
to_store_snapshot s = record {
  network = s.network;
  index_version = s.policy_epoch;
  services = s.services;
  tombstones = s.tombstones;
}

-- The `(String, String)` of code and message that a refused command returns.
pub record Rejection : Type 0 where
  pub code : Text
  pub message : Text

-- A method on `&mut self` that may refuse.
abbrev pub Step {ℓ} : Type ℓ → Type ℓ
Step A = PolicyState → Result Rejection A × PolicyState

abbrev pub reject {ℓ} : {A : Type ℓ} → Text → Text → Step A
reject code message s = (err (record { code = code; message = message }), s)
