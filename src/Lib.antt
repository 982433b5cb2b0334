-- ===== src/Lib.antt =====
-- NexusAuth: a sidecar that keeps, for a network, which peers each service admits, and publishes
-- signed whitelists of them. This library models the parts of it that decide and store:
--
--   * the policy state machine that the Raft control plane replicates (src/raft/types.rs,
--     src/raft/state_machine.rs), in Policy: `PolicyState`, its commands and results in Types, the
--     commands on services in Services, those on join tokens in Tokens, and
--     `apply_command_at` with the table of administrators' requests in Apply;
--   * the redb file that openraft's log and state machine live in (src/raft/storage.rs), in
--     Storage: `LogStore` in Log, `StateMachineStore` in Machine. The state machine applies each
--     log entry with Policy, then writes the whole state in one transaction, then answers;
--   * the store of the older mode with several writers (src/store.rs), in Legacy: its state and
--     `save` in Types, the local operations in Changes, replication and anti-entropy in Merge;
--   * the authenticators in Auth: `RepAuth` of src/replicate.rs in Replicate, `AdminAuth` of
--     src/admin.rs in Admin, `AdminVerifier` of src/admin_v2.rs in AdminV2, its data in Requests,
--     and `verify_join_token` of src/raft/token.rs in JoinToken. The first three have a nonce
--     guard, `ReplayGuard` of src/replay.rs, in Replay;
--   * the frames on a connection (src/protocol.rs) in Frames;
--   * the signer of published documents (src/authority.rs) in Authority: keys, the seed file, COSE;
--   * the publisher (src/publisher.rs) in Publisher: the connections and the writes to them in
--     Publisher.antt, a round in Rounds, its retries and `run` in Loop. What the publisher and the
--     handlers share (src/context.rs, the traits of src/admin_v2.rs) is in Context;
--   * the requests to the sidecar (src/service.rs) in Service: `handle_service_request` in
--     Dispatch, administrators' writes in Writes, their way to the leader in Routes and Admin,
--     replication in Replicas, the older mode's operations in Management; the members of the
--     cluster (src/raft/mod.rs) in Cluster, and the messages between them (src/raft/transport.rs)
--     in Transport;
--   * `atomic_write` of src/fsutil.rs in Fsutil, the name checks of src/authority.rs in Names, and
--     the persisted records that both stores share (src/store.rs) in Snapshot.
--
-- A definition has the name of its function. Methods on `&mut self` pass the state explicitly and
-- give a result beside the state after the call, also where they fail. `Result` and `?` are
-- `Result` and its bind of Prelude/Results. Strings and byte vectors are lists of bytes. `u64` and
-- `u32` are native numbers with saturation or wrapping written out where the source adds
-- (Prelude/Word); `+ 1` of src/store.rs wraps, as a release build does. `BTreeMap` and `BTreeSet`
-- are lists in the order of their keys (BTree). A mutex or a lock is taken for the whole of one
-- call in the source, so calls are steps, one after another. An async function is a `Task`
-- (Context/Task) over a `System`: the state behind the mutexes, the publisher's status, and a
-- world that every external call may change. At an await, `resume` lets the other tasks change
-- what is shared in any way; the status is left to the round that runs, as `publish_lock` does,
-- and before the rounds of the publisher's loop those of others come in. A long async function is
-- several definitions, one for what follows each await.
--
-- Code that is not in the repository is a parameter: libp2p's `PeerId::from_str` and SHA-256
-- (`External`), HKDF, HMAC, base64 and Ed25519 (`Crypto`, `Messages`), CBOR (`Codecs`,
-- `AdminCbor`), TOML (`Toml`), coset and the encodings of documents (`Signing`), the JSON of
-- requests and replies (`Wire`), openraft behind `AdminRaft`, the forwarding connection
-- (`AdminForwarder`), connections, clock and timer (`Env`), whether a redb transaction commits,
-- and which system calls of a file write fail. Lab has an instance of each, and a file Tests of
-- each part runs the theorems on them.
--
-- Loops are recursions on the lists they run over, but for `evict_oldest`, whose fuel is the
-- number of records it starts from, each round removing one, `decimal`, whose twenty digits hold
-- every `u64`, and the retries of the publisher, which count the attempts left. `run` of
-- src/publisher.rs is a recursion on the causes that it wakes for.
--
-- Not modelled: the connections and processes around these parts (src/connection.rs and others),
-- the transfer of seeds (src/raft/seed.rs, src/raft/bootstrap.rs), configuration, backup, logging
-- and the command line. Of src/service.rs, `execute_member_write`, `handle_admin_read`, the status
-- reports and the handlers for joining and seeds are parameters of the handlers that call them;
-- the broadcast after a change and the audit lines are left out. The text of a system error is not
-- told apart.
pub mod Prelude
pub mod Order
pub mod BTree
pub mod Names
pub mod Replay
pub mod Snapshot
pub mod Policy
pub mod Storage
pub mod Fsutil
pub mod Legacy
pub mod Auth
pub mod Lab
pub mod Frames
pub mod Authority
pub mod Context
pub mod Publisher
pub mod Cluster
pub mod Service
pub mod Transport
