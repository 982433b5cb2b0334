-- ===== src/Transport/Tests.antt =====
-- The properties of the messages between Raft nodes, on two nodes with the libraries of Lab.
use nexus_auth.Prelude.{
  ℕ, ◌+◌, ◌≡◌, refl, true, false, [], ◌∷◌, ◌++◌, ◌==◌, sym, Text, text, ok, is_ok, arith,
}
use nexus_auth.Order.{text_ord, cmp_text}
use nexus_auth.Lab.{lab_crypto, lab_crypto-IsSane, pad, sum}
use nexus_auth.Transport.{
  RaftRpcEnvelope, RaftRpcReply, Messages, IdentityKey, RpcVerifier, raft_rpc_op, encode_reply,
  request_input, verify_request, verify_reply, replace_nodes,
}
use nexus_auth.Transport.Signed.{reply_shifted, IsSignatory}
use nexus_auth.Transport.Members.{has_id, replaced_refused}

-- Bodies are texts as they are.
abbrev lab_messages : Messages Text
lab_messages = record {
  sign = λ seed message. (sum seed + sum message) ∷ [];
  verifying_key = λ seed. seed;
  encode_standard = λ b. b;
  encode_body = λ b. ok b;
  decode_body = λ b. ok b;
}

sums_agree : (a : ℕ) → (a + 0 == a) ≡ true
sums_agree a = ground arith

abbrev lab_signatory : IsSignatory lab_crypto lab_messages
lab_signatory = record {
  public_of = sum;
  signature_of = λ seed message. (sum seed + sum message) ∷ [];
  decodes_signature = λ seed message. refl;
  verifies_signed = λ seed message. sums_agree (sum seed + sum message);
  reads_back = λ b bytes h. sym h;
}

abbrev node_key : IdentityKey
node_key = record { signing_key = 9 ∷ []; public_key_b64 = 9 ∷ [] }

-- Node 2 knows the key of node 1.
abbrev receiver : RpcVerifier ℕ
receiver = record { cluster_id = 99 ∷ []; local_id = 2; keys = (1, 9) ∷ [] }

abbrev body : Text
body = 101 ∷ []

abbrev elect : RaftRpcEnvelope
elect = record {
  op = raft_rpc_op;
  cluster_id = 99 ∷ [];
  from = 1;
  to = 2;
  body = body;
  signature = (9 + sum (request_input (99 ∷ []) 1 2 body)) ∷ [];
}

abbrev told : ℕ × Text
told = (1, body)

-- A reply with a zero byte in its body.
abbrev reply : RaftRpcReply
reply = encode_reply lab_crypto lab_messages node_key (99 ∷ []) 1 2 true (7 ∷ 0 ∷ 8 ∷ []) []

reply_read : verify_reply lab_crypto receiver 1 reply ≡ ok ((7 ∷ []) ++ (0 ∷ 8 ∷ []))
unfolding encode_reply verify_reply cmp_text raft_rpc_op text nexus_auth.BTree.get
    nexus_auth.Transport.check_signature nexus_auth.Transport.sign_b64
    nexus_auth.Transport.response_input nexus_auth.Transport.resp_domain nexus_auth.Transport.u64_be
reply_read = refl

reply_shifted_example :
    verify_reply lab_crypto receiver 1
      (record reply { body = 7 ∷ []; error = (8 ∷ []) ++ (0 ∷ reply.error) })
    ≡ ok (7 ∷ [])
reply_shifted_example =
    reply_shifted lab_crypto receiver 1 reply (7 ∷ []) (8 ∷ []) lab_crypto-IsSane reply_read

replaced : (replace_nodes lab_crypto receiver ((3, pad 4) ∷ [])).0 ≡ ok tt
unfolding replace_nodes nexus_auth.Transport.parse_nodes nexus_auth.Transport.parse_verifying_key
replaced = refl

replaced_refused_example :
    is_ok (
      verify_request lab_crypto lab_messages
        (replace_nodes lab_crypto receiver ((3, pad 4) ∷ [])).1
        elect)
    ≡ false
unfolding has_id
replaced_refused_example =
    replaced_refused lab_crypto lab_messages receiver ((3, pad 4) ∷ []) elect replaced refl
