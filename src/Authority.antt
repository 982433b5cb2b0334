-- ===== src/Authority.antt =====
-- `Authority` of src/authority.rs: the seed of a network, the keys of its records in the DHT, and
-- their signatures.
pub mod Separate
pub mod Signed
pub mod Seeds
mod Tests
use nexus_auth.Prelude.{
  ℕ, Bool, not, Option, none, some, List, ◌++◌, Text, Bytes, text, Result, ok, err, ◌>>=◌, ok_or,
  if◌then◌else◌, length, ◌==◌,
}
use nexus_auth.Fsutil.{Disk, Faults, IoError, atomic_write}
use nexus_auth.Names.{External, is_valid_network_name, is_valid_service_name, reserved_service}
use nexus_auth.Legacy.Changes.{Reading, missing, content, failed}

pub data AuthorityError : Type 0 where
  io : IoError → AuthorityError
  invalid_seed invalid_name cose : AuthorityError

-- The `length` is a `u64`.
pub record ServiceEntry : Type 0 where
  pub name : Text
  pub hash : Bytes
  pub length : ℕ

pub record IndexDoc : Type 0 where
  pub version : ℕ
  pub expires_at : ℕ
  pub services : List ServiceEntry

pub record WhitelistDoc : Type 0 where
  pub version : ℕ
  pub members : List Text

-- What `CoseSign1::from_slice` reads: whether the algorithm of the protected header is EdDSA, the
-- payload, the signature, and `tbs_data`, the bytes that are signed for an `aad`.
pub record CoseSign1 : Type 0 where
  pub is_eddsa : Bool
  pub payload : Option Bytes
  pub signature : Bytes
  pub tbs_data : Bytes → Bytes

-- The libraries: ed25519-dalek with signing keys by their seed, coset, ciborium at the two documents,
-- and base64 in the URL alphabet with no padding.
pub record Signing (V S : Type 0) : Type 0 where
  pub sign : Bytes → Bytes → Bytes
  pub verifying_key : Bytes → Bytes
  pub key_from_bytes : Bytes → Option V
  pub signature_from_slice : Bytes → Option S
  pub verifies : V → Bytes → S → Bool
  -- what is signed of an `aad` and a payload under the EdDSA header
  pub sig_structure : Bytes → Bytes → Bytes
  -- the envelope of a payload and a signature under the EdDSA header
  pub to_vec : Bytes → Bytes → Option Bytes
  pub from_slice : Bytes → Option CoseSign1
  pub index_cbor : IndexDoc → Option Bytes
  pub whitelist_cbor : WhitelistDoc → Option Bytes
  pub encode_url : Bytes → Text

pub record Authority : Type 0 where
  pub signing_key : Bytes
  pub network : Text
  pub net_hash : Text

abbrev pub seed_len : ℕ
seed_len = 32

unfoldable pub auth_prefix : Text
auth_prefix = text "/oahd/auth"

-- `format!("{}/{}/{}", AUTH_PREFIX, net_hash, name)`
unfoldable pub record_key : Text → Text → Text
record_key net_hash name = auth_prefix ++ (text "/" ++ (net_hash ++ (text "/" ++ name)))

unfoldable pub index_key : Authority → Text
unfolding record_key
index_key a = record_key a.net_hash reserved_service

unfoldable pub service_key : Authority → Text → Result AuthorityError Text
unfolding record_key
service_key a service =
    if not (is_valid_service_name service)
    then err invalid_name
    else ok (record_key a.net_hash service)

module _ {V S : Type 0} (l : Signing V S) where
  module _ ⦃x : External⦄ where
    unfoldable pub net_hash : Text → Text
    net_hash name = l.encode_url (x.sha256 name)

    unfoldable pub from_seed : Bytes → Text → Result AuthorityError Authority
    unfolding net_hash
    from_seed seed network =
        if not (is_valid_network_name network)
        then err invalid_name
        else ok (record { signing_key = seed; network = network; net_hash = net_hash network })

    unfoldable pub load : Text → Reading → Result AuthorityError Authority
    unfolding from_seed
    load network (content bytes) =
        if not (length bytes == seed_len) then err invalid_seed else from_seed bytes network
    load network missing = err (io IoError.not_found)
    load network (failed e) = err (io e)

    -- `random` are the bytes that `OsRng` fills.
    unfoldable pub load_or_create :
        Faults → Bytes → Text → Reading → Disk → Result AuthorityError Authority × Disk
    unfolding from_seed
    load_or_create faults random network (content bytes) disk =
        (if not (length bytes == seed_len) then err invalid_seed else from_seed bytes network, disk)
    load_or_create faults random network (failed e) disk = (err (io e), disk)
    load_or_create faults random network missing disk = elim (atomic_write faults random disk).0 [
      | err e ↦ (err (io e), (atomic_write faults random disk).1)
      | ok _ ↦ (from_seed random network, (atomic_write faults random disk).1)
    ]

    -- `index_key_for`
    unfoldable pub index_key_for : Text → Text
    unfolding net_hash record_key
    index_key_for network = record_key (net_hash network) reserved_service

  unfoldable pub sign_payload : Authority → Bytes → Bytes → Result AuthorityError Bytes
  sign_payload a aad payload =
      ok_or (l.to_vec payload (l.sign a.signing_key (l.sig_structure aad payload))) cose

  unfoldable pub sign_index : Authority → IndexDoc → Result AuthorityError Bytes
  unfolding sign_payload index_key
  sign_index a doc = do
    payload ← ok_or (l.index_cbor doc) cose
    sign_payload a (index_key a) payload

  unfoldable pub sign_whitelist : Authority → Text → WhitelistDoc → Result AuthorityError Bytes
  unfolding sign_payload service_key
  sign_whitelist a service doc = do
    key ← service_key a service
    payload ← ok_or (l.whitelist_cbor doc) cose
    sign_payload a key payload

  unfoldable pub check_cose : V → Bytes → CoseSign1 → Result AuthorityError Bytes
  check_cose key aad sign1 = elim (l.signature_from_slice sign1.signature) [
    | none ↦ err cose
    | some sig ↦
        if not (l.verifies key (sign1.tbs_data aad) sig) then err cose else ok_or sign1.payload cose
  ]

  unfoldable pub verify_cose_sign1 : Bytes → Bytes → Bytes → Result AuthorityError Bytes
  unfolding check_cose
  verify_cose_sign1 public_key aad value = elim (l.from_slice value) [
    | none ↦ err cose
    | some sign1 ↦ if not sign1.is_eddsa then err cose else elim (l.key_from_bytes public_key) [
      | none ↦ err cose
      | some key ↦ check_cose key aad sign1
    ]
  ]
