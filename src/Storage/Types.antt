-- ===== src/Storage/Types.antt =====
-- The redb file, its transactions and the CBOR encoding (src/raft/storage.rs). redb, ciborium and
-- openraft are not in the repository: a write transaction is all or nothing, the codecs and
-- the types of votes and memberships are parameters.
use nexus_auth.Prelude.{
  ℕ, Bool, true, false, Option, none, some, [], ◌∷◌, Text, Bytes, text, Result, Done, ok, err, ◌≡◌,
  map_err,
}
use nexus_auth.Order.{text_ord}
use nexus_auth.BTree.{BTreeMap, get}
use nexus_auth.Policy.Types.{PolicyCommand, PolicyState}

-- `LogId<NodeId>` of openraft: the term and node that led, and the index.
pub record LogId : Type 0 where
  pub term : ℕ
  pub leader : ℕ
  pub index : ℕ

-- `EntryPayload`
pub data Payload (M : Type 0) : Type 0 where
  blank : Payload M
  normal : PolicyCommand → Payload M
  membership : M → Payload M

pub record Entry (M : Type 0) : Type 0 where
  pub log_id : LogId
  pub payload : Payload M

pub record StoredMembership (M : Type 0) : Type 0 where
  pub log_id : Option LogId
  pub membership : M

pub record SnapshotMeta (M : Type 0) : Type 0 where
  pub last_log_id : Option LogId
  pub last_membership : StoredMembership M
  pub snapshot_id : Text

-- ciborium at one type: either direction may fail.
pub record Codec (T : Type 0) : Type 0 where
  pub to_cbor : T → Result Text Bytes
  pub from_cbor : Bytes → Result Text T

-- What has been written reads back.
pub record IsFaithful {T : Type 0} (c : Codec T) : Type 0 where
  pub reads_back : (t : T) (b : Bytes) → c.to_cbor t ≡ ok b → c.from_cbor b ≡ ok t

-- `StorageError::IO` of a read or a write, with what was being done.
pub data StorageError : Type 0 where
  io_read io_write : Text → StorageError

unfoldable pub encode : {T : Type 0} → Codec T → T → Result StorageError Bytes
encode c t = map_err (λ e. io_write (text "cbor encode")) (c.to_cbor t)

unfoldable pub decode : {T : Type 0} → Codec T → Bytes → Text → Result StorageError T
decode c bytes what = map_err (λ e. io_read what) (c.from_cbor bytes)

-- serde writes `Some(x)` as `x` and `None` as the CBOR null.
unfoldable pub encode_option : {T : Type 0} → Codec T → Option T → Result StorageError Bytes
unfolding encode
encode_option c none = ok (246 ∷ [])
encode_option c (some t) = encode c t

pub record Db : Type 0 where
  pub logs : BTreeMap ℕ Bytes
  pub meta : BTreeMap Text Bytes
  pub snapshots : BTreeMap Text Bytes

-- `begin_write`, the writes, `commit`: `commits` tells whether redb succeeds, and a transaction that
-- fails leaves the file as it was.
abbrev pub write_txn : Bool → Text → (Db → Db) → Db → Result StorageError Done × Db
write_txn true what f db = (ok tt, f db)
write_txn false what f db = (err (io_write what), db)

unfoldable pub meta_get : Db → Text → Option Bytes
meta_get db key = get key db.meta

unfoldable pub snapshot_get : Db → Text → Option Bytes
snapshot_get db key = get key db.snapshots

-- `meta_get(..)?.map(decode).transpose()?`
unfoldable pub read_optional :
    {T : Type 0} → Codec T → Option Bytes → Text → Result StorageError (Option T)
unfolding decode
read_optional c none what = ok none
read_optional c (some bytes) what = elim (decode c bytes what) [
  | ok t ↦ ok (some t)
  | err e ↦ err e
]

-- The codecs of the types that are stored, over openraft's votes `V` and memberships `M`, the text of
-- a leader id and the default membership.
pub record Codecs (V M : Type 0) : Type 0 where
  pub log_ids : Codec LogId
  pub votes : Codec V
  pub entries : Codec (Entry M)
  pub states : Codec PolicyState
  pub memberships : Codec (StoredMembership M)
  pub metas : Codec (SnapshotMeta M)
  pub leader_text : ℕ → ℕ → Text
  pub default_membership : StoredMembership M
