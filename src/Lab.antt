-- ===== src/Lab.antt =====
-- Concrete libraries, for the tests: every parameter of the development has an instance that does what
-- is asked of it.
pub mod Node
use nexus_auth.Prelude.{
  ℕ, ◌+◌, ◌≡◌, refl, not, none, some, [], ◌∷◌, ◌++◌, Text, Bytes, text, is_empty, Result, ok, err,
  arith, ◌==◌, ◌&&◌, all,
}
use nexus_auth.Names.{External}
use nexus_auth.Snapshot.{StoreSnapshot}
use nexus_auth.Policy.Types.{PolicyState}
use nexus_auth.Storage.Types.{LogId, Payload, Entry, StoredMembership, Codecs, IsFaithful}
use nexus_auth.Legacy.Types.{Toml, IsFaithfulToml}
use nexus_auth.Auth.Crypto.{Crypto, IsSane}

instance abbrev pub lab : External
lab = record {
  parses_peer_id = λ s. not (is_empty s) && all (λ b. not (b == 0)) s;
  sha256 = λ b. b;
}

abbrev pub refused : Text
refused = text "unsupported"

-- Policies with no services and no records.
abbrev pub write_state : PolicyState → Result Text Bytes
write_state s = elim s.services [
  | _ ∷ _ ↦ err []
  | [] ↦ elim s.tombstones [
    | _ ∷ _ ↦ err []
    | [] ↦ elim s.dedup [
      | _ ∷ _ ↦ err []
      | [] ↦ elim s.join_tokens [
        | _ ∷ _ ↦ err []
        | [] ↦ ok (s.policy_epoch ∷ s.index_expires_at ∷ s.network)
      ]
    ]
  ]
]

abbrev pub read_state : Bytes → Result Text PolicyState
read_state [] = err []
read_state (a ∷ []) = err []
read_state (epoch ∷ expires ∷ network) = ok (record {
  network = network;
  policy_epoch = epoch;
  index_expires_at = expires;
  services = [];
  tombstones = [];
  dedup = [];
  join_tokens = [];
})

abbrev pub write_log_id : LogId → Result Text Bytes
write_log_id id = ok (id.term ∷ id.leader ∷ id.index ∷ [])

abbrev pub read_log_id : Bytes → Result Text LogId
read_log_id [] = err []
read_log_id (a ∷ []) = err []
read_log_id (a ∷ b ∷ []) = err []
read_log_id (a ∷ b ∷ c ∷ rest) = ok (record { term = a; leader = b; index = c })

abbrev pub write_entry : Entry ℕ → Result Text Bytes
write_entry e = elim e.payload [
  | Payload.blank ↦ ok (e.log_id.term ∷ e.log_id.leader ∷ e.log_id.index ∷ [])
  | Payload.normal command ↦ err []
  | Payload.membership m ↦ ok (e.log_id.term ∷ e.log_id.leader ∷ e.log_id.index ∷ m ∷ [])
]

abbrev pub read_entry : Bytes → Result Text (Entry ℕ)
read_entry [] = err []
read_entry (a ∷ []) = err []
read_entry (a ∷ b ∷ []) = err []
read_entry (a ∷ b ∷ c ∷ []) =
    ok (record { log_id = record { term = a; leader = b; index = c }; payload = Payload.blank })
read_entry (a ∷ b ∷ c ∷ m ∷ rest) =
    ok (record {
      log_id = record { term = a; leader = b; index = c };
      payload = Payload.membership m;
    })

abbrev pub write_membership : StoredMembership ℕ → Result Text Bytes
write_membership m = elim m.log_id [
  | none ↦ ok (m.membership ∷ [])
  | some id ↦ ok (m.membership ∷ id.term ∷ id.leader ∷ id.index ∷ [])
]

abbrev pub read_membership : Bytes → Result Text (StoredMembership ℕ)
read_membership [] = err []
read_membership (m ∷ []) = ok (record { log_id = none; membership = m })
read_membership (m ∷ a ∷ []) = err []
read_membership (m ∷ a ∷ b ∷ []) = err []
read_membership (m ∷ a ∷ b ∷ c ∷ rest) =
    ok (record { log_id = some (record { term = a; leader = b; index = c }); membership = m })

abbrev pub write_number : ℕ → Result Text Bytes
write_number v = ok (v ∷ [])

abbrev pub read_number : Bytes → Result Text ℕ
read_number [] = err []
read_number (v ∷ rest) = ok v

abbrev pub no_membership : StoredMembership ℕ
no_membership = record { log_id = none; membership = 0 }

abbrev pub lab_codecs : Codecs ℕ ℕ
lab_codecs = record {
  log_ids = record { to_cbor = write_log_id; from_cbor = read_log_id };
  votes = record { to_cbor = write_number; from_cbor = read_number };
  entries = record { to_cbor = write_entry; from_cbor = read_entry };
  states = record { to_cbor = write_state; from_cbor = read_state };
  memberships = record { to_cbor = write_membership; from_cbor = read_membership };
  metas = record { to_cbor = λ m. ok []; from_cbor = λ b. err [] };
  leader_text = λ term leader. term ∷ leader ∷ [];
  default_membership = no_membership;
}

read_write_state : (s : PolicyState) (b : Bytes) → write_state s ≡ ok b → read_state b ≡ ok s
read_write_state s b h = ground arith

read_write_entry : (e : Entry ℕ) (b : Bytes) → write_entry e ≡ ok b → read_entry b ≡ ok e
read_write_entry e b h = ground arith

read_write_log_id : (i : LogId) (b : Bytes) → write_log_id i ≡ ok b → read_log_id b ≡ ok i
read_write_log_id i b h = ground arith

read_write_membership :
    (m : StoredMembership ℕ) (b : Bytes) → write_membership m ≡ ok b → read_membership b ≡ ok m
read_write_membership m b h = ground arith

read_write_number : (v : ℕ) (b : Bytes) → write_number v ≡ ok b → read_number b ≡ ok v
read_write_number v b h = ground arith

pub states-IsFaithful : IsFaithful lab_codecs.states
states-IsFaithful = record { reads_back = read_write_state }

pub entries-IsFaithful : IsFaithful lab_codecs.entries
entries-IsFaithful = record { reads_back = read_write_entry }

pub log_ids-IsFaithful : IsFaithful lab_codecs.log_ids
log_ids-IsFaithful = record { reads_back = read_write_log_id }

pub memberships-IsFaithful : IsFaithful lab_codecs.memberships
memberships-IsFaithful = record { reads_back = read_write_membership }

pub votes-IsFaithful : IsFaithful lab_codecs.votes
votes-IsFaithful = record { reads_back = read_write_number }

abbrev pub write_snapshot : StoreSnapshot → Result Text Bytes
write_snapshot s = elim s.services [
  | _ ∷ _ ↦ err []
  | [] ↦ elim s.tombstones [ _ ∷ _ ↦ err [] | [] ↦ ok (s.index_version ∷ s.network) ]
]

abbrev pub read_snapshot : Bytes → Result Text StoreSnapshot
read_snapshot [] = err []
read_snapshot (index ∷ network) =
    ok (record { network = network; index_version = index; services = []; tombstones = [] })

read_write_snapshot :
    (s : StoreSnapshot) (b : Bytes) → write_snapshot s ≡ ok b → read_snapshot b ≡ ok s
read_write_snapshot s b h = ground arith

abbrev pub lab_toml : Toml
lab_toml = record { to_string = write_snapshot; from_str = read_snapshot }

pub lab_toml-IsFaithfulToml : IsFaithfulToml lab_toml
lab_toml-IsFaithfulToml = record { reads_back = read_write_snapshot }

-- A state file that is never read: the text is the index version.
abbrev pub terse_toml : Toml
terse_toml = record { to_string = λ s. ok (s.index_version ∷ []); from_str = λ b. err [] }

abbrev pub sum : Bytes → ℕ
sum [] = 0
sum (b ∷ bs) = b + sum bs

abbrev pub pad : ℕ → Bytes
pad n =
    n ∷ 0 ∷ 0 ∷ 0 ∷ 0 ∷ 0 ∷ 0 ∷ 0 ∷ 0 ∷ 0 ∷ 0 ∷ 0 ∷ 0 ∷ 0 ∷ 0 ∷ 0 ∷ 0 ∷ 0 ∷ 0 ∷ 0 ∷ 0 ∷ 0 ∷ 0 ∷ 0
    ∷ 0 ∷ 0 ∷ 0 ∷ 0 ∷ 0 ∷ 0 ∷ 0 ∷ 0 ∷ []

-- A signature is the key and the sum of the message.
abbrev pub lab_crypto : Crypto ℕ Bytes
lab_crypto = record {
  hkdf = λ salt password info. some (password ++ info);
  hmac = λ key message. pad (sum key + sum message);
  encode_url = λ b. b;
  decode_url = λ t. some t;
  decode_standard = λ t. some t;
  key_from_bytes = λ b. some (sum b);
  signature_from_slice = λ b. some b;
  verifies = λ key message signature. sum signature == key + sum message;
}

pub lab_crypto-IsSane : IsSane lab_crypto
lab_crypto-IsSane = record { hmac_len = λ key message. refl; decodes = λ b. refl }
