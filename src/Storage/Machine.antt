-- ===== src/Storage/Machine.antt =====
-- `StateMachineStore`: the policy in memory, what of it is in the file, and snapshots
-- (src/raft/storage.rs).
use nexus_auth.Prelude.{
  ℕ, Bool, true, false, Option, none, some, List, [], ◌∷◌, ◌++◌, Text, Bytes, text, decimal, Result,
  Done, ok, err, ◌>>=◌, wrapping_suc,
}
use nexus_auth.Order.{text_ord}
use nexus_auth.BTree.{insert}
use nexus_auth.Names.{External}
use nexus_auth.Policy.Types.{PolicyState, PolicyResult, new}
use nexus_auth.Policy.Apply.{apply_command_at}
use nexus_auth.Storage.Types.{
  LogId, Payload, Entry, StoredMembership, SnapshotMeta, Db, Codecs, StorageError, encode, decode,
  encode_option, read_optional, meta_get, snapshot_get, write_txn,
}

unfoldable pub key_policy_state : Text
key_policy_state = text "policy_state"

unfoldable pub key_applied : Text
key_applied = text "applied"

unfoldable pub key_membership : Text
key_membership = text "membership"

unfoldable pub key_snapshot_meta : Text
key_snapshot_meta = text "meta"

unfoldable pub key_snapshot_data : Text
key_snapshot_data = text "data"

-- `SmInner`
pub record SmInner (M : Type 0) : Type 0 where
  pub state : PolicyState
  pub applied : Option LogId
  pub membership : StoredMembership M

pub record Machine (M : Type 0) : Type 0 where
  pub db : Db
  pub inner : SmInner M
  pub snapshot_idx : ℕ

pub record Snapshot (M : Type 0) : Type 0 where
  pub meta : SnapshotMeta M
  pub bytes : Bytes

abbrev unchanged_result : ℕ → Bool → PolicyResult
unchanged_result epoch changed = PolicyResult.applied none none epoch changed

module _ ⦃x : External⦄ {M : Type 0} where
  -- One round of the loop of `apply`.
  unfoldable pub apply_entry : Entry M → SmInner M → PolicyResult × SmInner M
  apply_entry entry inner = elim entry.payload [
    | Payload.blank ↦ (
      unchanged_result inner.state.policy_epoch false,
      record inner { applied = some entry.log_id },
    )
    | Payload.normal command ↦
        let (result, state) = apply_command_at command entry.log_id.index inner.state in
        (result, record inner { state = state; applied = some entry.log_id })
    | Payload.membership mem ↦ (
      unchanged_result inner.state.policy_epoch true,
      record inner {
        applied = some entry.log_id;
        membership = record { log_id = some entry.log_id; membership = mem };
      },
    )
  ]

  unfoldable pub apply_entries : List (Entry M) → SmInner M → List PolicyResult × SmInner M
  apply_entries [] inner = ([], inner)
  apply_entries (entry ∷ entries) inner =
      let (result, inner') = apply_entry entry inner in
      let (results, last) = apply_entries entries inner' in (result ∷ results, last)

-- The three records of `persist_state`, encoded.
pub record Encoded : Type 0 where
  pub state_bytes : Bytes
  pub applied_bytes : Bytes
  pub membership_bytes : Bytes

unfoldable pub put_encoded : Encoded → Db → Db
unfolding key_policy_state key_applied key_membership
put_encoded e db = record db {
  meta =
      insert key_membership e.membership_bytes
        (insert key_applied e.applied_bytes (insert key_policy_state e.state_bytes db.meta));
}

unfoldable pub put_snapshot : Bytes → Bytes → Db → Db
unfolding key_snapshot_meta key_snapshot_data
put_snapshot meta_bytes bytes db = record db {
  snapshots = insert key_snapshot_data bytes (insert key_snapshot_meta meta_bytes db.snapshots);
}

-- Memory follows the file: it takes the new state only if the transaction committed.
abbrev pub commit_inner {ℓ} :
    {M : Type 0} {A : Type ℓ}
    → A
    → SmInner M
    → Machine M
    → Result StorageError Done × Db
    → Result StorageError A × Machine M
commit_inner a inner m (ok _, db) = (ok a, record m { db = db; inner = inner })
commit_inner a inner m (err e, db) = (err e, record m { db = db })

module _ {V M : Type 0} (codecs : Codecs V M) where
  open codecs use {log_ids, states, memberships, metas, leader_text, default_membership}

  -- `StateMachineStore::open`
  unfoldable pub open_machine : Text → Db → Result StorageError (Machine M)
  open_machine network db = do
    state ← read_optional states (meta_get db key_policy_state) (text "decode policy state")
    applied ← read_optional log_ids (meta_get db key_applied) (text "decode applied")
    membership ← read_optional memberships (meta_get db key_membership) (text "decode membership")
    ok (record {
      db = db;
      inner = record {
        state = elim state [ none ↦ new network | some s ↦ s ];
        applied = applied;
        membership = elim membership [ none ↦ default_membership | some m ↦ m ];
      };
      snapshot_idx = 0;
    })

  -- `persist_state` up to its writes.
  unfoldable pub encode_inner : SmInner M → Result StorageError Encoded
  encode_inner inner = do
    state_bytes ← encode states inner.state
    applied_bytes ← encode_option log_ids inner.applied
    membership_bytes ← encode memberships inner.membership
    ok (record {
      state_bytes = state_bytes;
      applied_bytes = applied_bytes;
      membership_bytes = membership_bytes;
    })

  unfoldable pub apply :
      ⦃x : External⦄
      → Bool
      → List (Entry M)
      → Machine M
      → Result StorageError (List PolicyResult) × Machine M
  apply commits new m =
      let (responses, inner) = apply_entries new m.inner in
      elim (encode_inner inner) [
        | err e ↦ (err e, m)
        | ok encoded ↦
            commit_inner responses inner m
              (write_txn commits (text "commit apply") (put_encoded encoded) m.db)
      ]

  unfoldable pub snapshot_name : Option LogId → ℕ → Text
  snapshot_name none idx = text "--" ++ decimal idx
  snapshot_name (some id) idx =
      leader_text id.term id.leader ++ text "-" ++ decimal id.index ++ text "-" ++ decimal idx

  -- The counter wraps, as a release build does. It moves before the meta data is encoded, and the
  -- state is encoded before that. The source lets the lock go once it has the state: what is applied
  -- meanwhile is not in the snapshot, and here comes after it.
  unfoldable pub build_snapshot : Bool → Machine M → Result StorageError (Snapshot M) × Machine M
  build_snapshot commits m = elim (encode states m.inner.state) [
    | err e ↦ (err e, m)
    | ok bytes ↦
        let idx = wrapping_suc m.snapshot_idx in
        let meta : SnapshotMeta M = record {
          last_log_id = m.inner.applied;
          last_membership = m.inner.membership;
          snapshot_id = snapshot_name m.inner.applied idx;
        } in
        elim (encode metas meta) [
          | err e ↦ (err e, record m { snapshot_idx = idx })
          | ok meta_bytes ↦
              commit_inner (record { meta = meta; bytes = bytes }) m.inner
                (record m { snapshot_idx = idx })
                (write_txn commits (text "commit snapshot") (put_snapshot meta_bytes bytes) m.db)
        ]
  ]

  unfoldable pub install_snapshot :
      Bool → SnapshotMeta M → Bytes → Machine M → Result StorageError Done × Machine M
  install_snapshot commits meta bytes m =
      elim (decode states bytes (text "decode snapshot state")) [
        | err e ↦ (err e, m)
        | ok state ↦ elim (encode metas meta) [
          | err e ↦ (err e, m)
          | ok meta_bytes ↦
              let inner : SmInner M = record {
                state = state;
                applied = meta.last_log_id;
                membership = meta.last_membership;
              } in
              elim (encode_inner inner) [
                | err e ↦ (err e, m)
                | ok encoded ↦ commit_inner tt inner m (
                    write_txn commits (text "commit install snapshot")
                      (λ db. put_snapshot meta_bytes bytes (put_encoded encoded db)) m.db)
              ]
        ]
      ]

  unfoldable pub get_current_snapshot : Machine M → Result StorageError (Option (Snapshot M))
  unfolding decode snapshot_get key_snapshot_meta key_snapshot_data
  get_current_snapshot m = elim (snapshot_get m.db key_snapshot_meta) [
    | none ↦ ok none
    | some meta_bytes ↦ elim (snapshot_get m.db key_snapshot_data) [
      | none ↦ ok none
      | some bytes ↦ do
        meta ← decode metas meta_bytes (text "decode snapshot meta")
        ok (some (record { meta = meta; bytes = bytes }))
    ]
  ]
