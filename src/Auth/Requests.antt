-- ===== src/Auth/Requests.antt =====
-- The requests of administrators in src/admin_v2.rs: their fields, and what is signed and hashed of them.
use nexus_auth.Prelude.{
  ℕ, Bool, true, false, ◌&&◌, Option, none, some, List, ◌++◌, Text, Bytes, text, Result,
  if◌then◌else◌,
}
use nexus_auth.Order.{text_ord, ◌≟◌}
use nexus_auth.BTree.{BTreeMap, collect, keys}
use nexus_auth.Replay.{ReplayGuard}

pub data AdminRole : Type 0 where
  viewer root : AdminRole

abbrev pub is_root : AdminRole → Bool
is_root root = true
is_root viewer = false

unfoldable pub parse_role : Text → Option AdminRole
parse_role value =
    if value ≟ text "viewer" then some viewer else if value ≟ text "root" then some root else none

pub record AdminMemberSpec : Type 0 where
  pub node_id : ℕ
  pub peer_id : Text
  pub identity_key : Text
  pub x25519_key : Text

pub record AdminJoinTokenSpec : Type 0 where
  pub jti : Text
  pub audience : Text
  pub expires_at : ℕ
  pub max_uses : ℕ
  pub bind_peer_id : Text
  pub sig : Text

pub record AdminRequestV2 : Type 0 where
  pub v : ℕ
  pub op : Text
  pub service : Text
  pub peers : List Text
  pub kid : Text
  pub request_id : Text
  pub nonce : Text
  pub ts : ℕ
  pub sig : Text
  pub member : Option AdminMemberSpec
  pub join_token : Option AdminJoinTokenSpec

-- `AdminV2Error`
pub data AdminV2Error : Type 0 where
  bad_request config : Text → AdminV2Error
  unknown_key bad_signature expired_timestamp replayed : AdminV2Error

-- What a signature covers; the two structs of the source differ in the last two fields.
pub data Signed : Type 0 where
  admin_signed : ℕ → Text → Text → List Text → Text → Text → Text → ℕ → Signed
  admin_signed_extended :
      ℕ
      → Text
      → Text
      → List Text
      → Text
      → Text
      → Text
      → ℕ
      → Option AdminMemberSpec
      → Option AdminJoinTokenSpec
      → Signed

-- What the hash of a request covers.
pub data Identity : Type 0 where
  admin_identity : ℕ → Text → Text → List Text → Text → Text → Identity
  admin_identity_extended :
      ℕ
      → Text
      → Text
      → List Text
      → Text
      → Text
      → Option AdminMemberSpec
      → Option AdminJoinTokenSpec
      → Identity

-- ciborium at the structs that are signed and hashed.
pub record AdminCbor : Type 0 where
  pub signed_bytes : Signed → Result Text Bytes
  pub identity_bytes : Identity → Result Text Bytes

pub record AdminKeyConfig : Type 0 where
  pub kid : Text
  pub role : Text
  pub public_key : Text

pub record VerifiedAdmin : Type 0 where
  pub kid : Text
  pub role : AdminRole
  pub request_hash : Text
  pub signed_bytes : Bytes

pub record AdminVerifier (V : Type 0) : Type 0 where
  pub keys : BTreeMap Text (V × AdminRole)
  pub guard : ReplayGuard

abbrev pub admin_request_version : ℕ
admin_request_version = 2

abbrev pub admin_max_ts_skew_secs : ℕ
admin_max_ts_skew_secs = 300

abbrev pub admin_max_nonce_len : ℕ
admin_max_nonce_len = 64

abbrev pub admin_max_request_id_len : ℕ
admin_max_request_id_len = 128

-- Duplicates removed, in order.
unfoldable pub canonical_peers : List Text → List Text
canonical_peers peers = keys (collect peers)

abbrev pub is_none {ℓ} : {A : Type ℓ} → Option A → Bool
is_none none = true
is_none (some a) = false

unfoldable pub signed_of : AdminRequestV2 → Signed
unfolding canonical_peers
signed_of r =
    if is_none r.member && is_none r.join_token
    then admin_signed r.v r.op r.service (canonical_peers r.peers) r.kid r.request_id r.nonce r.ts
    else admin_signed_extended r.v r.op r.service (canonical_peers r.peers) r.kid r.request_id
        r.nonce r.ts r.member r.join_token

unfoldable pub identity_of : AdminRequestV2 → Identity
unfolding canonical_peers
identity_of r =
    if is_none r.member && is_none r.join_token
    then admin_identity r.v r.op r.service (canonical_peers r.peers) r.kid r.request_id
    else admin_identity_extended r.v r.op r.service (canonical_peers r.peers) r.kid r.request_id
        r.member r.join_token

abbrev pub cbor_error : Text → AdminV2Error
cbor_error e = bad_request (text "CBOR encode failed: " ++ e)
