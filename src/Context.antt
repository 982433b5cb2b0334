-- ===== src/Context.antt =====
-- The state that the tasks of a process share (src/context.rs), the traits and calls by which it
-- reaches the network, the Raft node and the clock, and asynchronous functions over it.
pub mod Task
use nexus_auth.Prelude.{ℕ, Bool, Option, none, some, List, Text, Bytes, Result, Done}
use nexus_auth.BTree.{BTreeMap}
use nexus_auth.Fsutil.{Faults}
use nexus_auth.Policy.Types.{PolicyCommand, PolicyResult, PolicyState}
use nexus_auth.Legacy.Types.{Store, World}
use nexus_auth.Authority.{Authority}
use nexus_auth.Auth.Admin.{AdminAuth}
use nexus_auth.Auth.Replicate.{RepAuth}
use nexus_auth.Auth.Requests.{AdminVerifier}

-- The error of a reply (src/protocol.rs).
pub record SidecarError : Type 0 where
  pub code : Text
  pub message : Text
  pub publish_error : Option Text

-- `SidecarError::new`
unfoldable pub sidecar_error : Text → Text → SidecarError
sidecar_error code message = record { code = code; message = message; publish_error = none }

unfoldable pub with_publish_error : SidecarError → Text → SidecarError
with_publish_error e error = record e { publish_error = some error }

-- `AdminProposal` of src/admin_v2.rs
pub record AdminProposal : Type 0 where
  pub result : PolicyResult
  pub raft_index : ℕ

-- The trait `AdminRaft` of src/admin_v2.rs. `W` is the world beyond the process: every call may
-- change it.
pub record AdminRaft (W : Type 0) : Type 0 where
  pub service_name : Text
  pub is_leader : W → Bool × W
  pub leader_peer : W → Option Text × W
  pub term : W → ℕ × W
  pub policy_snapshot : W → PolicyState × W
  pub applied_index : W → Option ℕ × W
  pub stale : W → Bool × W
  pub propose : PolicyCommand → W → Result Text AdminProposal × W

-- The trait `AdminForwarder` of src/admin_v2.rs.
pub record AdminForwarder (W : Type 0) : Type 0 where
  pub whoami : W → Result SidecarError Text × W
  pub forward_admin : Text → Text → Bytes → W → Result SidecarError Bytes × W

-- The fields of `PublishStatus` of src/publisher.rs.
pub record PublishStatus : Type 0 where
  pub last_publish_epoch : Option ℕ
  pub last_publish_ok : Bool
  pub last_publish_error : Option Text
  pub last_publish_at : Option ℕ

-- What a mutex or an atomic holds, and other tasks may change at an await: the connections of the
-- publisher by their ids, its two `Notify` permits, the store with its file, the authority and the
-- authenticators. `C` are connections and `V` verifying keys.
pub record Shared (C V : Type 0) : Type 0 where
  pub clients : List (ℕ × C)
  pub next_id : ℕ
  pub publish_notify : Bool
  pub renew_notify : Bool
  pub store : World
  pub authority : Option Authority
  pub admin : AdminAuth
  pub admin_keys : AdminVerifier V
  pub replicate : RepAuth

-- `status` is written by the publisher alone, under its `publish_lock`.
pub record System (C W V : Type 0) : Type 0 where
  pub shared : Shared C V
  pub status : PublishStatus
  pub world : W

-- The calls to connections, clock, timer and file system, and what other tasks do to the shared state
-- while one awaits a call that has led to a world.
pub record Env (C W V : Type 0) : Type 0 where
  pub add_key : C → Text → Bytes → W → Result SidecarError Done × W
  pub sleep : ℕ → W → W
  pub now_unix : W → ℕ × W
  pub disk_faults : W → Faults × W
  pub others : W → Shared C V → Shared C V
  -- the rounds, with renewal or without, that others have with `publish_now` while one waits for the
  -- `publish_lock`
  pub rounds : W → List Bool

-- The fields of `AuthContext` that do not change once the sidecar is up.
pub record AuthContext (W : Type 0) : Type 0 where
  pub network : Text
  pub service_name : Text
  pub expires_secs : ℕ
  pub renew_secs : ℕ
  pub raft_required : Bool
  pub admin_raft : Option (AdminRaft W)
