-- ===== src/Storage/Recovery.antt =====
-- What is in memory is in the file, so that a restart finds it again, and a batch that fails changes
-- neither.
use nexus_auth.Prelude.{
  ◌≡◌, refl, sym, subst, Bool, false, Option, some, List, [], ◌∷◌, Text, Bytes, text, ok, arith,
  is_ok,
}
use nexus_auth.Order.{◌≟◌, ≟_self, text_ord, cmp_text}
use nexus_auth.BTree.{BTreeMap, get, insert}
use nexus_auth.BTree.Lookup.{get-insert}
use nexus_auth.Names.{External}
use nexus_auth.Policy.Types.{PolicyResult}
use nexus_auth.Storage.Types.{
  LogId, Entry, Db, Codec, Codecs, IsFaithful, encode, decode, encode_option, read_optional,
  meta_get,
}
use nexus_auth.Storage.Machine.{
  SmInner, Machine, Snapshot, Encoded, key_policy_state, key_applied, key_membership,
  key_snapshot_meta, key_snapshot_data, apply_entry, apply_entries, put_encoded, open_machine,
  encode_inner, apply, build_snapshot, install_snapshot,
}

keys_differ :
    ((key_policy_state ≟ key_applied) ≡ false)
    × ((key_policy_state ≟ key_membership) ≡ false)
    × ((key_applied ≟ key_membership) ≡ false)
    × ((key_snapshot_meta ≟ key_snapshot_data) ≡ false)
unfolding key_policy_state key_applied key_membership key_snapshot_meta key_snapshot_data text
    cmp_text
keys_differ = (refl, refl, refl, refl)

three_reads :
    (a b c : Text) (u v w : Bytes) (m : BTreeMap Text Bytes)
    → (a ≟ b) ≡ false
    → (a ≟ c) ≡ false
    → (b ≟ c) ≡ false
    → let m' = insert c w (insert b v (insert a u m)) in
      (get a m' ≡ some u) × (get b m' ≡ some v) × (get c m' ≡ some w)
three_reads a b c u v w m ab ac bc = ground (
  arith,
  get-insert c a w (insert b v (insert a u m)),
  get-insert b a v (insert a u m),
  get-insert a a u m,
  get-insert c b w (insert b v (insert a u m)),
  get-insert b b v (insert a u m),
  get-insert c c w (insert b v (insert a u m)),
  ≟_self a,
  ≟_self b,
  ≟_self c,
)

-- The reads that follow a write of the state.
encoded_reads :
    (e : Encoded) (db : Db)
    → (meta_get (put_encoded e db) key_policy_state ≡ some e.state_bytes)
      × (meta_get (put_encoded e db) key_applied ≡ some e.applied_bytes)
      × (meta_get (put_encoded e db) key_membership ≡ some e.membership_bytes)
unfolding meta_get put_encoded
encoded_reads e db =
    three_reads key_policy_state key_applied key_membership _ _ _ db.meta keys_differ.0
      keys_differ.1 keys_differ.2

pub encode-decode :
    {T : Type 0} (c : Codec T) (t : T) (b : Bytes) (what : Text)
    → IsFaithful c
    → encode c t ≡ ok b
    → decode c b what ≡ ok t
unfolding encode decode
encode-decode c t b what faithful h = ground (arith, faithful.reads_back t b)

pub read_back :
    {T : Type 0} (c : Codec T) (t : T) (b : Bytes) (what : Text)
    → IsFaithful c
    → encode c t ≡ ok b
    → read_optional c (some b) what ≡ ok (some t)
unfolding read_optional
read_back c t b what faithful h = rw (encode-decode c t b what faithful h, read_optional)

module _ {V M : Type 0} (codecs : Codecs V M) where
  open codecs use {log_ids, states, memberships, metas}

  -- The file holds what memory holds.
  pub record IsDurable (m : Machine M) : Type 0 where
    pub at_reopen :
        (network : Text)
        → open_machine codecs network m.db
          ≡ ok (record { db = m.db; inner = m.inner; snapshot_idx = 0 })

  -- A batch that is refused by the encoder or by redb leaves memory and file as they were.
  pub apply_failed :
      ⦃x : External⦄ (commits : Bool) (es : List (Entry M)) (m : Machine M)
      → is_ok (apply codecs commits es m).0 ≡ false
      → (apply codecs commits es m).1 ≡ m
  unfolding apply
  apply_failed commits es m h = ground arith

  encode_inner-parts :
      (inner : SmInner M) (e : Encoded)
      → encode_inner codecs inner ≡ ok e
      → (encode states inner.state ≡ ok e.state_bytes)
        × (encode_option log_ids inner.applied ≡ ok e.applied_bytes)
        × (encode memberships inner.membership ≡ ok e.membership_bytes)
  unfolding encode_inner
  encode_inner-parts inner e h = ground arith

  encode-some :
      {T : Type 0} (c : Codec T) (o : Option T) (t : T) (b : Bytes)
      → o ≡ some t
      → encode_option c o ≡ ok b
      → encode c t ≡ ok b
  unfolding encode_option
  encode-some c o t b e h = rw e at h

  -- What `persist_state` writes opens again as it was, wherever an entry has been applied.
  reopens :
      (inner : SmInner M) (id : LogId) (e : Encoded) (db : Db) (network : Text)
      → IsFaithful log_ids
      → IsFaithful states
      → IsFaithful memberships
      → inner.applied ≡ some id
      → encode_inner codecs inner ≡ ok e
      → open_machine codecs network (put_encoded e db)
        ≡ ok (record { db = put_encoded e db; inner = inner; snapshot_idx = 0 })
  unfolding open_machine
  reopens inner id e db network fl fs fm applied enc =
      let parts = encode_inner-parts inner e enc in
      let reads = encoded_reads e db in
      rw
        (
          reads.0,
          reads.1,
          reads.2,
          read_back states inner.state e.state_bytes (text "decode policy state") fs parts.0,
          read_back log_ids id e.applied_bytes (text "decode applied") fl
              (encode-some log_ids inner.applied id e.applied_bytes applied parts.1),
          read_back memberships inner.membership e.membership_bytes (text "decode membership") fm
              parts.2,
        )
        (ground arith)

  apply-inner :
      ⦃x : External⦄ (commits : Bool) (es : List (Entry M)) (m : Machine M) (rs : List PolicyResult)
      → (apply codecs commits es m).0 ≡ ok rs
      → (e : Encoded) × (encode_inner codecs (apply_entries es m.inner).1 ≡ ok e)
        × ((apply codecs commits es m).1 ≡ record {
          db = put_encoded e m.db;
          inner = (apply_entries es m.inner).1;
          snapshot_idx = m.snapshot_idx;
        })
        × (rs ≡ (apply_entries es m.inner).0)
  unfolding apply
  apply-inner commits es m rs h = ground arith

-- The id of the last entry of a batch.
abbrev pub last_id : {M : Type 0} → Entry M → List (Entry M) → LogId
last_id e [] = e.log_id
last_id e (d ∷ es) = last_id d es

apply_entry-applied :
    ⦃x : External⦄ {M : Type 0} (e : Entry M) (i : SmInner M)
    → (apply_entry e i).1.applied ≡ some e.log_id
unfolding apply_entry
apply_entry-applied e i = ground arith

pub apply_entries-applied :
    ⦃x : External⦄ {M : Type 0} (e : Entry M) (es : List (Entry M)) (i : SmInner M)
    → (apply_entries (e ∷ es) i).1.applied ≡ some (last_id e es)
unfolding apply_entries
apply_entries-applied e [] i = apply_entry-applied e i
apply_entries-applied e (d ∷ es) i = apply_entries-applied d es (apply_entry e i).1

module _ {V M : Type 0} (codecs : Codecs V M) where
  open codecs use {log_ids, states, memberships, metas}

  -- A batch of at least one log entry that is answered is on disk: a process that opens the file
  -- again has the policy, the applied id and the membership that the running one has in memory.
  -- What CBOR writes of log ids, policies and memberships reads back.
  pub apply-IsDurable :
      ⦃x : External⦄
      → IsFaithful log_ids
      → IsFaithful states
      → IsFaithful memberships
      → (commits : Bool) (e : Entry M) (es : List (Entry M)) (m : Machine M)
        (rs : List PolicyResult)
      → (apply codecs commits (e ∷ es) m).0 ≡ ok rs
      → IsDurable codecs (apply codecs commits (e ∷ es) m).1
  apply-IsDurable fl fs fm commits e es m rs h =
      let r = apply-inner codecs commits (e ∷ es) m rs h in
      subst (IsDurable codecs) (sym r.2) (record {
        at_reopen = λ network.
            reopens codecs _ (last_id e es) r.0 m.db network fl fs fm
              (apply_entries-applied e es m.inner) r.1;
      })

  -- A snapshot that one replica builds and another installs, both without an error, carries the
  -- policy, the applied id and the membership over exactly, if what CBOR writes of a policy reads
  -- back; the replica that builds it keeps its own.
  pub snapshot_transfer :
      IsFaithful states
      → (commits commits' : Bool) (m n : Machine M) (snap : Snapshot M)
      → (build_snapshot codecs commits m).0 ≡ ok snap
      → (install_snapshot codecs commits' snap.meta snap.bytes n).0 ≡ ok tt
      → ((install_snapshot codecs commits' snap.meta snap.bytes n).1.inner ≡ m.inner)
        × ((build_snapshot codecs commits m).1.inner ≡ m.inner)
  unfolding build_snapshot install_snapshot
  snapshot_transfer fs commits commits' m n snap built installed =
      ground
        (arith, encode-decode states m.inner.state snap.bytes (text "decode snapshot state") fs)
