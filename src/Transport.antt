-- ===== src/Transport.antt =====
-- src/raft/transport.rs: the signed messages between the Raft nodes, with the envelopes and bodies of
-- src/raft/types.rs.
pub mod Signed
pub mod Members
mod Tests
use nexus_auth.Prelude.{
  ℕ, ◌/◌, ◌%◌, Bool, true, false, not, Option, none, some, List, [], ◌∷◌, ◌++◌, Text, Bytes, text,
  length, Result, Done, ok, err, ok_or, map_err, ◌>>=◌, if◌then◌else◌, ◌==◌, is_some,
}
use nexus_auth.Order.{text_ord, nat_ord, ◌≟◌}
use nexus_auth.BTree.{BTreeMap, get, insert, remove, keys, contains_key}
use nexus_auth.Fsutil.{Disk, Faults, IoError, atomic_write}
use nexus_auth.Legacy.Changes.{Reading, missing, content, failed}
use nexus_auth.Auth.Crypto.{Crypto}

unfoldable pub raft_rpc_op : Text
raft_rpc_op = text "raft_rpc"

abbrev pub identity_seed_len : ℕ
identity_seed_len = 32

unfoldable pub req_domain : Bytes
req_domain = text "nexusauth/raft/rpc"

unfoldable pub resp_domain : Bytes
resp_domain = text "nexusauth/raft/resp"

pub data TransportError : Type 0 where
  io : IoError → TransportError
  invalid_seed invalid_key bad_base64 bad_signature : TransportError
  wrong_cluster wrong_target wrong_sender : TransportError
  unknown_node : ℕ → TransportError
  decode_error : Text → TransportError

-- `RaftRpcEnvelope`
pub record RaftRpcEnvelope : Type 0 where
  pub op : Text
  pub cluster_id : Text
  pub from : ℕ
  pub to : ℕ
  pub body : Text
  pub signature : Text

-- `RaftRpcReply`; `succeeded` is its `ok`.
pub record RaftRpcReply : Type 0 where
  pub op : Text
  pub cluster_id : Text
  pub from : ℕ
  pub to : ℕ
  pub succeeded : Bool
  pub body : Text
  pub error : Text
  pub signature : Text

-- Ed25519 with the private key, and the encodings of the messages: `B` are the bodies of requests,
-- whose CBOR is written and read.
pub record Messages (B : Type 0) : Type 0 where
  pub sign : Bytes → Bytes → Bytes
  pub verifying_key : Bytes → Bytes
  pub encode_standard : Bytes → Text
  pub encode_body : B → Result Text Bytes
  pub decode_body : Bytes → Result Text B

pub record IdentityKey : Type 0 where
  pub signing_key : Bytes
  pub public_key_b64 : Text

-- `u64::to_be_bytes`
unfoldable pub u64_be : ℕ → Bytes
u64_be n =
    (n / 72057594037927936 % 256)
    ∷ (n / 281474976710656 % 256)
    ∷ (n / 1099511627776 % 256)
    ∷ (n / 4294967296 % 256)
    ∷ (n / 16777216 % 256)
    ∷ (n / 65536 % 256)
    ∷ (n / 256 % 256)
    ∷ (n % 256)
    ∷ []

-- What the signature of a request covers.
unfoldable pub request_input : Text → ℕ → ℕ → Bytes → Bytes
request_input cluster_id from to body =
    req_domain ++ (0 ∷ (cluster_id ++ (0 ∷ (u64_be from ++ (0 ∷ (u64_be to ++ (0 ∷ body)))))))

-- What the signature of a reply covers.
unfoldable pub response_input : Text → ℕ → ℕ → Bool → Bytes → Text → Bytes
response_input cluster_id from to succeeded body error =
    resp_domain
    ++ (0
        ∷ (cluster_id
            ++ (0
                ∷ (u64_be from
                    ++ (0
                        ∷ (u64_be to
                            ++ (0 ∷ (if succeeded then 1 else 0) ∷ 0 ∷ (body ++ (0 ∷ error)))))))))

-- `cluster_id` and the keys of the members; `V` are verifying keys.
pub record RpcVerifier (V : Type 0) : Type 0 where
  pub cluster_id : Text
  pub local_id : ℕ
  pub keys : BTreeMap ℕ V

unfoldable pub new_verifier : {V : Type 0} → Text → ℕ → RpcVerifier V
new_verifier cluster_id local_id = record {
  cluster_id = cluster_id;
  local_id = local_id;
  keys = [];
}

unfoldable pub remove_node : {V : Type 0} → RpcVerifier V → ℕ → RpcVerifier V
remove_node v node_id = record v { keys = remove node_id v.keys }

unfoldable pub has_node : {V : Type 0} → RpcVerifier V → ℕ → Bool
has_node v node_id = contains_key node_id v.keys

unfoldable pub node_ids : {V : Type 0} → RpcVerifier V → List ℕ
node_ids v = keys v.keys

module _ {B : Type 0} (m : Messages B) where
  -- `IdentityKey::from_seed`
  unfoldable pub from_seed : Bytes → IdentityKey
  from_seed seed = record {
    signing_key = seed;
    public_key_b64 = m.encode_standard (m.verifying_key seed);
  }

  -- `IdentityKey::load_or_create`, with the bytes that a new seed is drawn from.
  unfoldable pub load_or_create :
      Faults → Bytes → Reading → Disk → Result TransportError IdentityKey × Disk
  load_or_create faults random (content bytes) disk = (
    if not (length bytes == identity_seed_len) then err invalid_seed else ok (from_seed bytes),
    disk,
  )
  load_or_create faults random (failed e) disk = (err (io e), disk)
  load_or_create faults random missing disk = elim (atomic_write faults random disk).0 [
    | err e ↦ (err (io e), (atomic_write faults random disk).1)
    | ok _ ↦ (ok (from_seed random), (atomic_write faults random disk).1)
  ]

module _ {V S B : Type 0} (c : Crypto V S) (m : Messages B) where
  unfoldable pub sign_b64 : IdentityKey → Bytes → Text
  sign_b64 identity message = c.encode_url (m.sign identity.signing_key message)

  -- The envelope that `encode_request` writes as JSON.
  unfoldable pub encode_request :
      IdentityKey → Text → ℕ → ℕ → B → Result TransportError RaftRpcEnvelope
  encode_request identity cluster_id from to body = do
    bytes ← map_err decode_error (m.encode_body body)
    ok (record {
      op = raft_rpc_op;
      cluster_id = cluster_id;
      from = from;
      to = to;
      body = c.encode_url bytes;
      signature = sign_b64 identity (request_input cluster_id from to bytes);
    })

  -- The reply that `encode_reply` writes as JSON.
  unfoldable pub encode_reply : IdentityKey → Text → ℕ → ℕ → Bool → Bytes → Text → RaftRpcReply
  encode_reply identity cluster_id from to succeeded body error = record {
    op = raft_rpc_op;
    cluster_id = cluster_id;
    from = from;
    to = to;
    succeeded = succeeded;
    body = c.encode_url body;
    error = error;
    signature = sign_b64 identity (response_input cluster_id from to succeeded body error);
  }

module _ {V S : Type 0} (c : Crypto V S) where
  unfoldable pub parse_verifying_key : Text → Result TransportError V
  parse_verifying_key identity_key_b64 = elim (c.decode_standard identity_key_b64) [
    | none ↦ err invalid_key
    | some raw ↦
        if not (length raw == 32) then err invalid_key else ok_or (c.key_from_bytes raw) invalid_key
  ]

  unfoldable pub add_node : RpcVerifier V → ℕ → Text → Result TransportError Done × RpcVerifier V
  add_node v node_id identity_key_b64 = elim (parse_verifying_key identity_key_b64) [
    | err e ↦ (err e, v)
    | ok key ↦ (ok tt, record v { keys = insert node_id key v.keys })
  ]

  -- The table of some nodes over one that is there.
  unfoldable pub parse_nodes : List (ℕ × Text) → BTreeMap ℕ V → Result TransportError (BTreeMap ℕ V)
  parse_nodes [] parsed = ok parsed
  parse_nodes ((node_id, key_b64) ∷ nodes) parsed = do
    key ← parse_verifying_key key_b64
    parse_nodes nodes (insert node_id key parsed)

  unfoldable pub replace_nodes :
      RpcVerifier V → List (ℕ × Text) → Result TransportError Done × RpcVerifier V
  replace_nodes v nodes = elim (parse_nodes nodes []) [
    | err e ↦ (err e, v)
    | ok parsed ↦ (ok tt, record v { keys = parsed })
  ]

  -- `Signature::from_slice`, then `key.verify`.
  unfoldable pub check_signature : V → Bytes → Bytes → Result TransportError Done
  check_signature key input bytes = elim (c.signature_from_slice bytes) [
    | none ↦ err bad_signature
    | some signature ↦ if c.verifies key input signature then ok tt else err bad_signature
  ]

  unfoldable pub verify_node_signature :
      RpcVerifier V → ℕ → Bytes → Text → Result TransportError Done
  verify_node_signature v node_id message signature_b64 = do
    key ← ok_or (get node_id v.keys) (unknown_node node_id)
    bytes ← ok_or (c.decode_url signature_b64) bad_signature
    check_signature key message bytes

  unfoldable pub verify_reply : RpcVerifier V → ℕ → RaftRpcReply → Result TransportError Bytes
  verify_reply v expected_from reply =
      if not (reply.op ≟ raft_rpc_op)
      then err (decode_error (text "unexpected op"))
      else if not (reply.cluster_id ≟ v.cluster_id)
      then err wrong_cluster
      else if not (reply.from == expected_from)
      then err wrong_sender
      else if not (reply.to == v.local_id)
      then err wrong_target
      else do
        key ← ok_or (get expected_from v.keys) (unknown_node expected_from)
        body ← ok_or (c.decode_url reply.body) bad_base64
        bytes ← ok_or (c.decode_url reply.signature) bad_base64
        _ ←
            check_signature key
              (response_input reply.cluster_id reply.from reply.to reply.succeeded body reply.error)
              bytes
        if not reply.succeeded then err (decode_error reply.error) else ok body

module _ {V S B : Type 0} (c : Crypto V S) (m : Messages B) where
  unfoldable pub verify_request : RpcVerifier V → RaftRpcEnvelope → Result TransportError (ℕ × B)
  verify_request v envelope =
      if not (envelope.op ≟ raft_rpc_op)
      then err (decode_error (text "unexpected op"))
      else if not (envelope.cluster_id ≟ v.cluster_id)
      then err wrong_cluster
      else if not (envelope.to == v.local_id)
      then err wrong_target
      else do
        key ← ok_or (get envelope.from v.keys) (unknown_node envelope.from)
        body ← ok_or (c.decode_url envelope.body) bad_base64
        bytes ← ok_or (c.decode_url envelope.signature) bad_base64
        _ ←
            check_signature c key (request_input envelope.cluster_id envelope.from envelope.to body)
              bytes
        decoded ← map_err decode_error (m.decode_body body)
        ok (envelope.from, decoded)
