-- ===== src/Storage/Log.antt =====
-- `LogStore`: the log entries by index, the vote, the commit mark and the purge mark
-- (src/raft/storage.rs).
use nexus_auth.Prelude.{
  ℕ, Bool, Option, none, some, List, [], ◌∷◌, Text, Bytes, text, Result, Done, ok, err, ◌>>=◌,
  if◌then◌else◌, leb,
}
use nexus_auth.Order.{text_ord, nat_ord}
use nexus_auth.BTree.{BTreeMap, insert}
use nexus_auth.Storage.Types.{
  LogId, Entry, Db, Codec, Codecs, StorageError, encode, decode, encode_option, read_optional,
  meta_get, write_txn,
}

unfoldable pub key_vote : Text
key_vote = text "vote"

unfoldable pub key_committed : Text
key_committed = text "committed"

unfoldable pub key_last_purged : Text
key_last_purged = text "last_purged"

-- The entries of the table whose index satisfies a test, in order.
unfoldable pub in_range : (ℕ → Bool) → BTreeMap ℕ Bytes → List Bytes
in_range p [] = []
in_range p ((i, b) ∷ logs) = let rest = in_range p logs in if p i then b ∷ rest else rest

-- `for key in keys { table.remove(key) }` over the keys that satisfy a test.
unfoldable pub remove_where : (ℕ → Bool) → BTreeMap ℕ Bytes → BTreeMap ℕ Bytes
remove_where p [] = []
remove_where p ((i, b) ∷ logs) =
    let rest = remove_where p logs in if p i then rest else (i, b) ∷ rest

unfoldable pub insert_logs : List (ℕ × Bytes) → BTreeMap ℕ Bytes → BTreeMap ℕ Bytes
insert_logs [] logs = logs
insert_logs ((i, b) ∷ rest) logs = insert_logs rest (insert i b logs)

abbrev pub put_meta : Text → Bytes → Db → Db
put_meta key bytes db = record db { meta = insert key bytes db.meta }

-- An encoding that fails ends the call before its transaction begins.
abbrev pub after_encode :
    Result StorageError Bytes
    → (Bytes → Db → Result StorageError Done × Db)
    → Db
    → Result StorageError Done × Db
after_encode (ok bytes) k db = k bytes db
after_encode (err e) k db = (err e, db)

-- The last id that decodes, read through in order; any entry that does not decode is an error.
unfoldable pub decode_last :
    {M : Type 0}
    → Codec (Entry M)
    → BTreeMap ℕ Bytes
    → Option LogId
    → Result StorageError (Option LogId)
unfolding decode
decode_last c [] last = ok last
decode_last c ((i, b) ∷ logs) last = elim (decode c b (text "decode last log")) [
  | ok entry ↦ decode_last c logs (some entry.log_id)
  | err e ↦ err e
]

unfoldable pub decode_all :
    {M : Type 0} → Codec (Entry M) → List Bytes → Result StorageError (List (Entry M))
unfolding decode
decode_all c [] = ok []
decode_all c (b ∷ bs) = do
  entry ← decode c b (text "decode log entry")
  rest ← decode_all c bs
  ok (entry ∷ rest)

unfoldable pub encode_all :
    {M : Type 0} → Codec (Entry M) → List (Entry M) → Result StorageError (List (ℕ × Bytes))
unfolding encode
encode_all c [] = ok []
encode_all c (entry ∷ entries) = do
  bytes ← encode c entry
  rest ← encode_all c entries
  ok ((entry.log_id.index, bytes) ∷ rest)

pub record LogState : Type 0 where
  pub last_purged_log_id : Option LogId
  pub last_log_id : Option LogId

-- `last.or(last_purged)`
abbrev pub or {ℓ} : {A : Type ℓ} → Option A → Option A → Option A
or none b = b
or (some a) b = some a

module _ {V M : Type 0} (codecs : Codecs V M) where
  open codecs use {log_ids, votes, entries}

  unfoldable pub try_get_log_entries : (ℕ → Bool) → Db → Result StorageError (List (Entry M))
  unfolding in_range decode_all
  try_get_log_entries range db = decode_all entries (in_range range db.logs)

  unfoldable pub get_log_state : Db → Result StorageError LogState
  unfolding decode_last read_optional meta_get key_last_purged
  get_log_state db = do
    purged ← read_optional log_ids (meta_get db key_last_purged) (text "decode last_purged")
    last ← decode_last entries db.logs none
    ok (record { last_purged_log_id = purged; last_log_id = or last purged })

  unfoldable pub save_vote : Bool → V → Db → Result StorageError Done × Db
  unfolding encode key_vote
  save_vote commits vote =
      after_encode (encode votes vote)
        λ b. write_txn commits (text "commit vote") (put_meta key_vote b)

  unfoldable pub read_vote : Db → Result StorageError (Option V)
  unfolding read_optional meta_get key_vote
  read_vote db = read_optional votes (meta_get db key_vote) (text "decode vote")

  unfoldable pub save_committed : Bool → Option LogId → Db → Result StorageError Done × Db
  unfolding encode_option key_committed
  save_committed commits committed =
      after_encode (encode_option log_ids committed)
        λ b. write_txn commits (text "commit committed") (put_meta key_committed b)

  unfoldable pub read_committed : Db → Result StorageError (Option LogId)
  unfolding read_optional meta_get key_committed
  read_committed db = read_optional log_ids (meta_get db key_committed) (text "decode committed")

  unfoldable pub append : Bool → List (Entry M) → Db → Result StorageError Done × Db
  unfolding encode_all insert_logs
  append commits new db = elim (encode_all entries new) [
    | err e ↦ (err e, db)
    | ok encoded ↦
        write_txn commits (text "commit append")
          (λ d. record d { logs = insert_logs encoded d.logs }) db
  ]

  -- Everything from `log_id` on goes.
  unfoldable pub truncate : Bool → LogId → Db → Result StorageError Done × Db
  unfolding remove_where
  truncate commits log_id =
      write_txn commits (text "commit truncate")
        λ db. record db { logs = remove_where (λ key. leb log_id.index key) db.logs }

  -- Everything up to `log_id` goes, and the mark is written in the same transaction.
  unfoldable pub purge : Bool → LogId → Db → Result StorageError Done × Db
  unfolding encode remove_where key_last_purged
  purge commits log_id = after_encode (encode log_ids log_id) λ b.
      write_txn commits (text "commit purge") λ db. record db {
        logs = remove_where (λ key. leb key log_id.index) db.logs;
        meta = insert key_last_purged b db.meta;
      }
