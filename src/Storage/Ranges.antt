-- ===== src/Storage/Ranges.antt =====
-- What the log holds after each of its operations, and that they leave the vote alone.
use nexus_auth.Prelude.{
  ℕ, ◌≡◌, refl, ap, ◌∙◌, Bool, true, false, ◌&&◌, Option, none, some, List, [], ◌∷◌, Text, Bytes,
  text, Result, ok, err, arith, Bool-cases, inl, inr, is_ok, Result-cases, leb, if◌then◌else◌,
}
use nexus_auth.Order.{◌≟◌, ≟_self, ≟_iff, text_ord, nat_ord, cmp_text}
use nexus_auth.BTree.{BTreeMap, get, insert}
use nexus_auth.BTree.Lookup.{get-insert}
use nexus_auth.Storage.Types.{
  LogId, Entry, Db, Codec, Codecs, IsFaithful, StorageError, encode, decode, encode_option,
  meta_get, write_txn,
}
use nexus_auth.Storage.Log.{
  key_vote, after_encode, put_meta, key_committed, key_last_purged, remove_where, insert_logs,
  encode_all, append, truncate, purge, save_vote, read_vote, save_committed,
}
use nexus_auth.Storage.Recovery.{encode-decode, read_back}

pub get-remove_where :
    (i : ℕ) (p : ℕ → Bool) (logs : BTreeMap ℕ Bytes)
    → get i (remove_where p logs) ≡ (if p i then none else get i logs)
unfolding remove_where get
get-remove_where i p [] = ground arith
get-remove_where i p ((j, b) ∷ logs) =
    ground (arith, get-remove_where i p logs, ≟_iff i j, λ (e : i ≡ j). ap p e)

-- The last entry of a batch at an index.
unfoldable pub entry_at : {M : Type 0} → ℕ → List (Entry M) → Option (Entry M)
entry_at i [] = none
entry_at i (e ∷ es) = elim (entry_at i es) [
  | some d ↦ some d
  | none ↦ if i ≟ e.log_id.index then some e else none
]

-- The row of an index after a batch that has `e` there, or no entry there.
abbrev pub RowAfter :
    {M : Type 0} → Codec (Entry M) → Option (Entry M) → Option Bytes → Option Bytes → Type 0
RowAfter c none before after = after ≡ before
RowAfter c (some e) before after =
    (b : Bytes) × (after ≡ some b) × (decode c b (text "decode log entry") ≡ ok e)

row_over :
    {M : Type 0} (c : Codec (Entry M)) (i : ℕ) (e : Entry M) (es : List (Entry M)) (b : Bytes)
    (logs : BTreeMap ℕ Bytes) (after : Option Bytes)
    → decode c b (text "decode log entry") ≡ ok e
    → RowAfter c (entry_at i es) (get i (insert e.log_id.index b logs)) after
    → RowAfter c (entry_at i (e ∷ es)) (get i logs) after
unfolding entry_at
row_over {M} c i e es b logs after d h =
    elim (entry_at i es)
        as (λ o.
          RowAfter c o (get i (insert e.log_id.index b logs)) after
          → RowAfter c
              (elim o as (λ x. Option (Entry M)) [
                | some d ↦ some d
                | none ↦ if i ≟ e.log_id.index then some e else none
              ])
              (get i logs) after) [
                | some d ↦ λ x. x
                | none ↦ λ x. elim (Bool-cases (i ≟ e.log_id.index)) [
                  | inl same ↦
                      rw same (b, x ∙ rw (get-insert e.log_id.index i b logs, same) refl, d)
                  | inr other ↦ rw other (x ∙ rw (get-insert e.log_id.index i b logs, other) refl)
                ]
              ]
      h

entry_at-none :
    {M : Type 0} (c : Codec (Entry M)) (i : ℕ) (logs : BTreeMap ℕ Bytes)
    → RowAfter c (entry_at i []) (get i logs) (get i (insert_logs [] logs))
unfolding entry_at insert_logs
entry_at-none c i logs = refl

insert_logs-rows :
    {M : Type 0} (c : Codec (Entry M)) (i : ℕ) (es : List (Entry M)) (encoded : List (ℕ × Bytes))
    (logs : BTreeMap ℕ Bytes)
    → IsFaithful c
    → encode_all c es ≡ ok encoded
    → RowAfter c (entry_at i es) (get i logs) (get i (insert_logs encoded logs))
unfolding encode_all insert_logs
insert_logs-rows c i [] encoded logs f h =
    let none_there : encoded ≡ [] = ground (arith, h) in rw none_there (entry_at-none c i logs)
insert_logs-rows c i (e ∷ es) encoded logs f h = elim (Result-cases (encode c e)) [
  | inr (er, q) ↦ absurd (ground (arith, q, h))
  | inl (b, q) ↦ elim (Result-cases (encode_all c es)) [
    | inr (er, r) ↦ absurd (ground (arith, q, r, h))
    | inl (rest, r) ↦
        let shape : encoded ≡ (e.log_id.index, b) ∷ rest = ground (arith, q, r, h) in
        rw shape (
          row_over c i e es b logs _ (encode-decode c e b (text "decode log entry") f q)
            (insert_logs-rows c i es rest (insert e.log_id.index b logs) f r))
  ]
]

other_keys : ((key_vote ≟ key_last_purged) ≡ false) × ((key_vote ≟ key_committed) ≡ false)
unfolding key_vote key_last_purged key_committed text cmp_text
other_keys = (refl, refl)

purge_other :
    (e : Result StorageError Bytes) (commits : Bool) (p : ℕ → Bool) (db : Db)
    → meta_get
        (after_encode e
          (λ b.
            write_txn commits (text "commit purge") λ d. record d {
              logs = remove_where p d.logs;
              meta = insert key_last_purged b d.meta;
            })
          db).1
        key_vote
      ≡ meta_get db key_vote
unfolding meta_get
purge_other (err er) commits p db = refl
purge_other (ok b) false p db = refl
purge_other (ok b) true p db = rw (get-insert key_last_purged key_vote b db.meta, other_keys.0) refl

put_other :
    (key : Text) (e : Result StorageError Bytes) (commits : Bool) (what : Text) (db : Db)
    → (key_vote ≟ key) ≡ false
    → meta_get (after_encode e (λ b. write_txn commits what (put_meta key b)) db).1 key_vote
      ≡ meta_get db key_vote
unfolding meta_get
put_other key (err er) commits what db h = refl
put_other key (ok b) false what db h = refl
put_other key (ok b) true what db h = rw (get-insert key key_vote b db.meta, h) refl

module _ {V M : Type 0} (codecs : Codecs V M) where
  open codecs use {log_ids, votes, entries}

  -- Let what CBOR writes of an entry read back. After a batch is appended, the row of each index
  -- holds the batch's last entry for that index, which reads back, and is as before where the
  -- batch has none; a batch that fails leaves every row as it was.
  pub append_rows :
      IsFaithful entries
      → (commits : Bool) (es : List (Entry M)) (i : ℕ) (db : Db)
      → RowAfter entries
          (if is_ok (append codecs commits es db).0 then entry_at i es else none)
          (get i db.logs)
          (get i (append codecs commits es db).1.logs)
  unfolding append
  append_rows f false es i db = elim (Result-cases (encode_all entries es)) [
    | inr (er, q) ↦ rw (q, append) refl
    | inl (b, q) ↦ rw (q, append) refl
  ]
  append_rows f true es i db = elim (Result-cases (encode_all entries es)) [
    | inr (er, q) ↦ rw (q, append) refl
    | inl (b, q) ↦ rw (q, append) (insert_logs-rows entries i es b db.logs f q)
  ]

  -- Truncation at an id drops the rows from its index on, a purge up to an id those up to its
  -- index, and no other row; either leaves every row where it fails.
  pub dropped_rows :
      (commits : Bool) (id : LogId) (i : ℕ) (db : Db)
      → (get i (truncate codecs commits id db).1.logs ≡ (
          if is_ok (truncate codecs commits id db).0 && leb id.index i
          then none
          else get i db.logs))
        × (get i (purge codecs commits id db).1.logs ≡ (
            if is_ok (purge codecs commits id db).0 && leb i id.index then none else get i db.logs))
  unfolding truncate purge
  dropped_rows commits id i db = (
    ground (arith, get-remove_where i (λ (key : ℕ). leb id.index key) db.logs),
    ground (arith, get-remove_where i (λ (key : ℕ). leb key id.index) db.logs),
  )

  -- An operation of the log other than `save_vote`, with whether its transaction commits.
  pub data Operation : Type 0 where
    appends : Bool → List (Entry M) → Operation
    truncates purges : Bool → LogId → Operation
    commits_to : Bool → Option LogId → Operation

  unfoldable pub perform : Operation → Db → Db
  perform (appends commits es) db = (append codecs commits es db).1
  perform (truncates commits id) db = (truncate codecs commits id db).1
  perform (purges commits id) db = (purge codecs commits id db).1
  perform (commits_to commits id) db = (save_committed codecs commits id db).1

  unfoldable pub perform_all : List Operation → Db → Db
  perform_all [] db = db
  perform_all (o ∷ os) db = perform_all os (perform o db)

  perform-vote : (o : Operation) (db : Db) → meta_get (perform o db) key_vote ≡ meta_get db key_vote
  unfolding perform append truncate purge save_committed meta_get
  perform-vote (appends commits es) db = ground arith
  perform-vote (truncates commits id) db = ground arith
  perform-vote (purges commits id) db = purge_other (encode log_ids id) commits _ db
  perform-vote (commits_to commits id) db =
      put_other key_committed (encode_option log_ids id) commits _ db other_keys.1

  perform_all-vote :
      (os : List Operation) (db : Db) → meta_get (perform_all os db) key_vote ≡ meta_get db key_vote
  unfolding perform_all
  perform_all-vote [] db = refl
  perform_all-vote (o ∷ os) db = perform_all-vote os (perform o db) ∙ perform-vote o db

  save_vote-row :
      (commits : Bool) (v : V) (db : Db)
      → (save_vote codecs commits v db).0 ≡ ok tt
      → (b : Bytes) × (encode votes v ≡ ok b)
        × (meta_get (save_vote codecs commits v db).1 key_vote ≡ some b)
  unfolding save_vote meta_get
  save_vote-row commits v db h = elim (Result-cases (encode votes v)) [
    | inr (er, q) ↦ absurd (ground (arith, q, h))
    | inl (b, q) ↦
        (b, q, ground (arith, q, h, get-insert key_vote key_vote b db.meta, ≟_self key_vote))
  ]

  -- Let what CBOR writes of a vote read back. A vote that is saved is the vote that is read,
  -- whatever is appended, truncated, purged and committed after it, with success or not.
  pub vote_kept :
      IsFaithful votes
      → (commits : Bool) (v : V) (os : List Operation) (db : Db)
      → (save_vote codecs commits v db).0 ≡ ok tt
      → read_vote codecs (perform_all os (save_vote codecs commits v db).1) ≡ ok (some v)
  unfolding read_vote
  vote_kept f commits v os db h =
      let (b, q, row) = save_vote-row commits v db h in
      rw (perform_all-vote os (save_vote codecs commits v db).1, row)
        (read_back votes v b (text "decode vote") f q)
