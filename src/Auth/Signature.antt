-- ===== src/Auth/Signature.antt =====
-- src/admin_v2.rs: what a signature under a configured key is, and what an administrator signs.
use nexus_auth.Prelude.{
  ◌≡◌, true, Option, none, some, Text, Bytes, ok, arith, Option-cases, inl, inr,
}
use nexus_auth.Order.{text_ord}
use nexus_auth.BTree.{BTreeMap, get, keys, collect}
use nexus_auth.Auth.Crypto.{Crypto}
use nexus_auth.Auth.Requests.{
  AdminRole, AdminMemberSpec, AdminJoinTokenSpec, AdminRequestV2, AdminVerifier, Signed,
  admin_signed, admin_signed_extended, signed_of, canonical_peers,
}
use nexus_auth.Auth.AdminV2.{verify_signature}

-- The key of the id has the role, and Ed25519 verifies the signature of the message under it.
pub record IsSignedBy {V S : Type 0} (c : Crypto V S) (map : BTreeMap Text (V × AdminRole))
    (kid : Text) (role : AdminRole) (message : Bytes) (sig : Text) : Type 0 where
  pub key : V
  pub configured : get kid map ≡ some (key, role)
  pub raw : Bytes
  pub decoded : c.decode_url sig ≡ some raw
  pub signature : S
  pub parsed : c.signature_from_slice raw ≡ some signature
  pub verified : c.verifies key message signature ≡ true

module _ {V S : Type 0} (c : Crypto V S) (a : AdminVerifier V) (kid : Text) (role : AdminRole)
    (message : Bytes) (sig : Text) where
  pub verify_signature_sound :
      verify_signature c a kid message sig ≡ ok role → IsSignedBy c a.keys kid role message sig
  unfolding verify_signature
  verify_signature_sound h = elim (Option-cases (get kid a.keys)) [
    | inl e ↦ absurd (ground (arith, e, h))
    | inr ((key, known), e) ↦ elim (Option-cases (c.decode_url sig)) [
      | inl d ↦ absurd (ground (arith, e, d, h))
      | inr (raw, d) ↦ elim (Option-cases (c.signature_from_slice raw)) [
        | inl p ↦ absurd (ground (arith, e, d, p, h))
        | inr (signature, p) ↦ record {
          key = key;
          configured = ground (arith, e, d, p, h);
          raw = raw;
          decoded = d;
          signature = signature;
          parsed = p;
          verified = ground (arith, e, d, p, h);
        }
      ]
    ]
  ]

  pub verify_signature_complete :
      IsSignedBy c a.keys kid role message sig → verify_signature c a kid message sig ≡ ok role
  unfolding verify_signature
  verify_signature_complete s = ground (arith, s.configured, s.decoded, s.parsed, s.verified)

-- What an administrator signs: every field of the request but the signature, its peers in order and
-- once each, and the specifications where there is one.
abbrev pub content : AdminRequestV2 → Option AdminMemberSpec → Option AdminJoinTokenSpec → Signed
content r none none =
    admin_signed r.v r.op r.service (keys (collect r.peers)) r.kid r.request_id r.nonce r.ts
content r (some member) token =
    admin_signed_extended r.v r.op r.service (keys (collect r.peers)) r.kid r.request_id r.nonce
      r.ts (some member) token
content r none (some token) =
    admin_signed_extended r.v r.op r.service (keys (collect r.peers)) r.kid r.request_id r.nonce
      r.ts none (some token)

pub signed_of-content : (r : AdminRequestV2) → signed_of r ≡ content r r.member r.join_token
unfolding signed_of canonical_peers
signed_of-content r = ground arith
