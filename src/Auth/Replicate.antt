-- ===== src/Auth/Replicate.antt =====
-- `RepAuth` of src/replicate.rs: the messages between replicas, their authentication codes, and the
-- checks of each message received.
use nexus_auth.Prelude.{
  ℕ, zero, suc, ◌/◌, ◌%◌, Bool, true, false, ◌||◌, not, none, some, List, [], ◌∷◌, ◌++◌, Text,
  Bytes, text, is_empty, length, Result, Done, ok, err, ◌>>=◌, map_err, if◌then◌else◌, ltb, ◌==◌,
  abs_diff,
}
use nexus_auth.Order.{text_ord, ◌≟◌}
use nexus_auth.Snapshot.{StoreSnapshot}
use nexus_auth.Replay.{ReplayGuard, ReplayError, empty, replay, new_guard, check_and_insert}
use nexus_auth.Legacy.Types.{StoreError}
use nexus_auth.Auth.Crypto.{Crypto}
use nexus_auth.Auth.Sort.{sort, join}

-- `RepError`
pub data RepError : Type 0 where
  empty_password kdf bad_mac expired_timestamp replayed bad_nonce : RepError
  decode : Text → RepError
  store : StoreError → RepError

-- The fields of type `u64` are below 2 ^ 64.
pub record ReplicateMsg : Type 0 where
  pub op : Text
  pub service : Text
  pub version : ℕ
  pub members : List Text
  pub index_version : ℕ
  pub deleted : Bool
  pub nonce : Text
  pub ts : ℕ
  pub mac : Text

pub record SyncRequest : Type 0 where
  pub op : Text
  pub network : Text
  pub nonce : Text
  pub ts : ℕ
  pub mac : Text

pub record SyncResponse : Type 0 where
  pub op : Text
  pub nonce : Text
  pub snapshot : StoreSnapshot
  pub ts : ℕ
  pub mac : Text

abbrev pub mac_len : ℕ
mac_len = 32

abbrev pub max_ts_skew_secs : ℕ
max_ts_skew_secs = 300

unfoldable pub rep_salt : Text
rep_salt = text "nexusauth/replicate"

unfoldable pub op_replicate : Text
op_replicate = text "replicate"

unfoldable pub op_sync_request : Text
op_sync_request = text "sync_request"

unfoldable pub op_sync_response : Text
op_sync_response = text "sync_response"

-- The last `n` bytes of a number, the highest first.
unfoldable pub be_bytes : ℕ → ℕ → Bytes → Bytes
be_bytes zero v acc = acc
be_bytes (suc n) v acc = be_bytes n (v / 256) ((v % 256) ∷ acc)

-- `to_be_bytes` of a `u64`
unfoldable pub to_be_bytes : ℕ → Bytes
unfolding be_bytes
to_be_bytes v = be_bytes 8 v []

-- `b as u8`
abbrev pub as_u8 : Bool → ℕ
as_u8 true = 1
as_u8 false = 0

unfoldable pub replicate_input : ReplicateMsg → Bytes
unfolding to_be_bytes
replicate_input m =
    text "nexusauth/replicate"
    ++ (0 ∷ m.service
        ++ (0 ∷ to_be_bytes m.version
            ++ (0 ∷ to_be_bytes m.index_version
                ++ (0 ∷ as_u8 m.deleted ∷ 0 ∷ join (sort m.members)
                    ++ (0 ∷ m.nonce ++ (0 ∷ to_be_bytes m.ts))))))

unfoldable pub sync_req_input : Text → Text → ℕ → Bytes
unfolding to_be_bytes
sync_req_input network nonce ts =
    text "nexusauth/sync/req" ++ (0 ∷ network ++ (0 ∷ nonce ++ (0 ∷ to_be_bytes ts)))

-- The authenticator: a key, and the nonces seen.
pub record RepAuth : Type 0 where
  pub key : Bytes
  pub guard : ReplayGuard

abbrev pub nonce_error : ReplayError → RepError
nonce_error empty = bad_nonce
nonce_error replay = replayed

module _ {V S : Type 0} (c : Crypto V S) where
  -- `RepAuth::new`
  unfoldable pub new_rep_auth : Text → Text → Result RepError RepAuth
  unfolding rep_salt
  new_rep_auth password network =
      if is_empty password then err empty_password else elim (c.hkdf rep_salt password network) [
        | none ↦ err kdf
        | some key ↦ ok (record { key = key; guard = new_guard })
      ]

  unfoldable pub mac_b64 : RepAuth → Bytes → Text
  mac_b64 a input = c.encode_url (c.hmac a.key input)

  unfoldable pub b64_decode : Text → Result RepError Bytes
  b64_decode s = elim (c.decode_url s) [ none ↦ err (decode (text "base64")) | some b ↦ ok b ]

  unfoldable pub verify_mac : RepAuth → Bytes → Text → Result RepError Done
  unfolding b64_decode
  verify_mac a input provided_b64 = elim (b64_decode provided_b64) [
    | err e ↦ err e
    | ok provided ↦
        if not (length provided == mac_len)
        then err bad_mac
        else if c.hmac a.key input ≟ provided
        then ok tt
        else err bad_mac
  ]

  unfoldable pub check_fresh : Text → ℕ → ℕ → RepAuth → Result RepError Done × RepAuth
  check_fresh nonce ts now a =
      if ltb max_ts_skew_secs (abs_diff now ts) then (err expired_timestamp, a) else (
        map_err nonce_error (check_and_insert nonce a.guard).0,
        record a { guard = (check_and_insert nonce a.guard).1 },
      )

  unfoldable pub sign_replicate : RepAuth → ReplicateMsg → Text
  unfolding mac_b64
  sign_replicate a m = mac_b64 a (replicate_input m)

  unfoldable pub verify_replicate : ReplicateMsg → ℕ → RepAuth → Result RepError Done × RepAuth
  unfolding verify_mac check_fresh op_replicate
  verify_replicate m now a =
      if not (m.op ≟ op_replicate)
      then (err bad_mac, a)
      else elim (verify_mac a (replicate_input m) m.mac) [
        | err e ↦ (err e, a)
        | ok _ ↦ check_fresh m.nonce m.ts now a
      ]

  unfoldable pub sign_sync_request : RepAuth → Text → Text → ℕ → Text
  unfolding mac_b64
  sign_sync_request a network nonce ts = mac_b64 a (sync_req_input network nonce ts)

  unfoldable pub verify_sync_request : SyncRequest → ℕ → RepAuth → Result RepError Done × RepAuth
  unfolding verify_mac check_fresh op_sync_request
  verify_sync_request r now a =
      if not (r.op ≟ op_sync_request)
      then (err bad_mac, a)
      else elim (verify_mac a (sync_req_input r.network r.nonce r.ts) r.mac) [
        | err e ↦ (err e, a)
        | ok _ ↦ check_fresh r.nonce r.ts now a
      ]

  -- `cbor` is ciborium at `StoreSnapshot`.
  module _ (cbor : StoreSnapshot → Result Text Bytes) where
    unfoldable pub sync_resp_input : Text → Text → StoreSnapshot → ℕ → Result RepError Bytes
    unfolding to_be_bytes
    sync_resp_input network nonce snapshot ts = elim (cbor snapshot) [
      | err e ↦ err (decode e)
      | ok bytes ↦ ok (
          text "nexusauth/sync/resp"
          ++ (0 ∷ network ++ (0 ∷ nonce ++ (0 ∷ bytes ++ (0 ∷ to_be_bytes ts)))))
    ]

    unfoldable pub sign_sync_response :
        RepAuth → Text → Text → StoreSnapshot → ℕ → Result RepError Text
    unfolding sync_resp_input mac_b64
    sign_sync_response a network nonce snapshot ts = do
      input ← sync_resp_input network nonce snapshot ts
      ok (mac_b64 a input)

    unfoldable pub verify_sync_response :
        RepAuth → Text → Text → SyncResponse → Result RepError Done
    unfolding sync_resp_input verify_mac op_sync_response
    verify_sync_response a network nonce resp =
        if not (resp.op ≟ op_sync_response) || not (resp.nonce ≟ nonce) then err bad_mac else do
          input ← sync_resp_input network nonce resp.snapshot resp.ts
          verify_mac a input resp.mac
