-- ===== src/Transport/Signed.antt =====
-- src/raft/transport.rs: what the signature of a message between Raft nodes holds it to.
use nexus_auth.Prelude.{
  ℕ, ◌≡◌, refl, Bool, true, Option, none, some, ◌∷◌, ◌++◌, Text, Bytes, ok, arith, Option-cases,
  Result-cases, inl, inr,
}
use nexus_auth.Order.{text_ord, nat_ord, ≟_self}
use mathlib.Core.List.{append_assoc}
use nexus_auth.BTree.{get}
use nexus_auth.Auth.Crypto.{Crypto, IsSane}
use nexus_auth.Transport.{
  RaftRpcEnvelope, RaftRpcReply, Messages, IdentityKey, RpcVerifier, raft_rpc_op, request_input,
  response_input, sign_b64, encode_request, check_signature, verify_request, verify_reply,
}

module _ {V S B : Type 0} (c : Crypto V S) (m : Messages B) where
  -- What an accepted request satisfies.
  record IsAccepted (v : RpcVerifier V) (e : RaftRpcEnvelope) (r : ℕ × B) : Type 0 where
    bytes : Bytes
    decoded : c.decode_url e.body ≡ some bytes
    read : m.decode_body bytes ≡ ok r.1
    sender : e.from ≡ r.0
    cluster : e.cluster_id ≡ v.cluster_id
    target : e.to ≡ v.local_id

  -- What the signature of an envelope covers, where its body is base64.
  unfoldable pub signed_input : RaftRpcEnvelope → Option Bytes
  signed_input e = elim (c.decode_url e.body) [
    | none ↦ none
    | some bytes ↦ some (request_input e.cluster_id e.from e.to bytes)
  ]

-- Ed25519 verifies what it signed, with the public key of the seed, and CBOR reads what it wrote.
pub record IsSignatory {V S B : Type 0} (c : Crypto V S) (m : Messages B) : Type 0 where
  pub public_of : Bytes → V
  pub signature_of : Bytes → Bytes → S
  pub decodes_signature :
      (seed message : Bytes)
      → c.signature_from_slice (m.sign seed message) ≡ some (signature_of seed message)
  pub verifies_signed :
      (seed message : Bytes)
      → c.verifies (public_of seed) message (signature_of seed message) ≡ true
  pub reads_back : (b : B) (bytes : Bytes) → m.encode_body b ≡ ok bytes → m.decode_body bytes ≡ ok b

module _ {V S B : Type 0} (c : Crypto V S) (m : Messages B) (sane : IsSane c)
    (signatory : IsSignatory c m) where
  pub verify_request-encode_request :
      (identity : IdentityKey) (v : RpcVerifier V) (from : ℕ) (body : B) (e : RaftRpcEnvelope)
      → get from v.keys ≡ some (signatory.public_of identity.signing_key)
      → encode_request c m identity v.cluster_id from v.local_id body ≡ ok e
      → verify_request c m v e ≡ ok (from, body)
  unfolding encode_request verify_request sign_b64 check_signature
  verify_request-encode_request identity v from body e known h =
      elim (Result-cases (m.encode_body body)) [
        | inr (x, q) ↦ absurd (ground (arith, q, h))
        | inl (bytes, q) ↦
            let input = request_input v.cluster_id from v.local_id bytes in
            ground (
              arith,
              q,
              h,
              known,
              ≟_self raft_rpc_op,
              ≟_self v.cluster_id,
              sane.decodes bytes,
              sane.decodes (m.sign identity.signing_key input),
              signatory.decodes_signature identity.signing_key input,
              signatory.verifies_signed identity.signing_key input,
              signatory.reads_back body bytes q,
            )
      ]

module _ {V S : Type 0} (c : Crypto V S) where
  response_input-shift :
      (cluster_id : Text) (from to : ℕ) (succeeded : Bool) (body rest : Bytes) (error : Text)
      → response_input cluster_id from to succeeded (body ++ (0 ∷ rest)) error
        ≡ response_input cluster_id from to succeeded body (rest ++ (0 ∷ error))
  unfolding response_input
  response_input-shift cluster_id from to succeeded body rest error =
      rw (append_assoc body (0 ∷ rest) (0 ∷ error)) refl

  -- Let base64 decode what it encodes. If a reply is accepted with a body that has a zero byte,
  -- the reply with the bytes after it moved from the body to the front of the error, before a zero
  -- byte, is accepted under the same signature, and gives the shorter body.
  pub reply_shifted :
      (v : RpcVerifier V) (expected_from : ℕ) (reply : RaftRpcReply) (body rest : Bytes)
      → IsSane c
      → verify_reply c v expected_from reply ≡ ok (body ++ (0 ∷ rest))
      → verify_reply c v expected_from
          (record reply { body = c.encode_url body; error = rest ++ (0 ∷ reply.error) })
        ≡ ok body
  unfolding verify_reply
  reply_shifted v expected_from reply body rest sane h =
      elim (Option-cases (c.decode_url reply.body)) [
        | inl q ↦ absurd (ground (arith, q, h))
        | inr (bytes, q) ↦
            let whole : bytes ≡ body ++ (0 ∷ rest) = ground (arith, q, h) in
            ground (
              arith,
              q,
              h,
              whole,
              sane.decodes body,
              response_input-shift reply.cluster_id reply.from reply.to reply.succeeded body rest
                  reply.error,
            )
      ]
