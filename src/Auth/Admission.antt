-- ===== src/Auth/Admission.antt =====
-- A token that an ingress has verified, in the state machine.
use nexus_auth.Prelude.{
  ℕ, ◌≤◌, ◌<◌, ◌≡◌, ◌↔◌, ◌⊎◌, refl, true, false, ◌||◌, ◌&&◌, not, none, some, List, [], ◌∷◌, Text,
  Bytes, text, any, is_empty, is_blank, Result, ok, arith, saturating_add32, Result-cases,
  Bool-cases, inl, inr,
}
use nexus_auth.Order.{text_ord, ◌≟◌, ≟_iff, ≟_self}
use nexus_auth.BTree.{get, insert}
use nexus_auth.BTree.Lookup.{get-insert}
use nexus_auth.Policy.Types.{PolicyState, JoinToken}
use nexus_auth.Policy.Tokens.{issue_join_token, consume_join_token, token_refusal}
use nexus_auth.Auth.Crypto.{Crypto}
use nexus_auth.Auth.Requests.{viewer, root, AdminV2Error, AdminVerifier}
use nexus_auth.BTree.Sets.{listed}
use nexus_auth.Auth.AdminV2.{verify_signature}
use nexus_auth.Auth.Signature.{IsSignedBy, verify_signature_sound, verify_signature_complete}
use nexus_auth.Auth.JoinToken.{
  JoinTokenSigned, token_signing_bytes, check_token_signature, is_allowed, verify_join_token,
}

recorded : JoinToken → PolicyState → PolicyState
recorded token s = record s {
  join_tokens = insert token.jti (record { token = token; uses = 0 }) s.join_tokens;
}

issues :
    (token : JoinToken) (s : PolicyState)
    → token.v ≡ 1
    → is_blank token.jti ≡ false
    → token.network ≡ s.network
    → 0 < token.max_uses
    → get token.jti s.join_tokens ≡ none
    → issue_join_token token s ≡ (ok tt, recorded token s)
unfolding issue_join_token recorded
issues token s v named net usable fresh =
    ground (arith, v, named, net, usable, fresh, ≟_iff token.network s.network)

consumes :
    (token : JoinToken) (at : ℕ) (peer_id : Text) (s : PolicyState)
    → get token.jti s.join_tokens ≡ some (record { token = token; uses = 0 })
    → 0 < token.expires_at
    → 0 < token.max_uses
    → (is_empty token.bind_peer_id || token.bind_peer_id ≟ peer_id) ≡ true
    → at ≤ token.expires_at
    → let (used, s') = consume_join_token token.jti peer_id at s in
      (used ≡ ok tt) × (get token.jti s'.join_tokens ≡ some (record { token = token; uses = 1 }))
unfolding consume_join_token token_refusal saturating_add32
consumes token at peer_id s there expires usable bound in_time = ground (
  arith,
  there,
  get-insert token.jti token.jti (record { token = token; uses = saturating_add32 0 1 })
      s.join_tokens,
  ≟_self token.jti,
)

admitted :
    (token : JoinToken) (at : ℕ) (peer_id : Text) (s : PolicyState)
    → token.v ≡ 1
    → is_blank token.jti ≡ false
    → token.network ≡ s.network
    → 0 < token.expires_at
    → 0 < token.max_uses
    → get token.jti s.join_tokens ≡ none
    → (is_empty token.bind_peer_id || token.bind_peer_id ≟ peer_id) ≡ true
    → at ≤ token.expires_at
    → let (issued, s') = issue_join_token token s in
      let (used, s'') = consume_join_token token.jti peer_id at s' in
      (issued ≡ ok tt)
      × (used ≡ ok tt)
      × (get token.jti s''.join_tokens ≡ some (record { token = token; uses = 1 }))
unfolding recorded
admitted token at peer_id s v named net expires usable fresh bound in_time =
    let there : get token.jti (recorded token s).join_tokens
        ≡ some (record { token = token; uses = 0 }) =
      ground (
        arith,
        get-insert token.jti token.jti (record { token = token; uses = 0 }) s.join_tokens,
        ≟_self token.jti,
      ) in
    let granted = consumes token at peer_id (recorded token s) there expires usable bound in_time in
    rw (issues token s v named net usable fresh) (refl, granted.0, granted.1)

module _ {V S : Type 0} (c : Crypto V S) (cbor : JoinTokenSigned → Result Text Bytes)
    (shown : AdminV2Error → Text) where
  -- What a token that is verified satisfies.
  pub record IsGood (verifier : AdminVerifier V) (token : JoinToken) (now : ℕ)
      (cluster_id network : Text) (audiences : List Text) : Type 0 where
    pub version : token.v ≡ 1
    pub named : is_blank token.jti ≡ false
    pub cluster : token.cluster_id ≡ cluster_id
    pub net : token.network ≡ network
    pub expires : 0 < token.expires_at
    pub in_time : now ≤ token.expires_at
    pub usable : 0 < token.max_uses
    pub audience :
        (token.audience ≡ text "auth")
        ⊎ ((is_empty token.audience ≡ false) × (listed token.audience audiences ≡ true))
    pub bytes : Bytes
    pub covers :
        cbor (record {
          v = token.v;
          jti = token.jti;
          cluster_id = token.cluster_id;
          network = token.network;
          audience = token.audience;
          expires_at = token.expires_at;
          max_uses = token.max_uses;
          bind_peer_id = token.bind_peer_id;
          kid = token.kid;
        })
        ≡ ok bytes
    pub signed : IsSignedBy c verifier.keys token.kid root bytes token.sig

  any-listed :
      (audience : Text) (audiences : List Text)
      → any (λ candidate. not (is_empty candidate) && candidate ≟ audience) audiences
        ≡ (not (is_empty audience) && listed audience audiences)
  unfolding any listed
  any-listed audience [] = ground arith
  any-listed audience (a ∷ audiences) =
      ground (arith, any-listed audience audiences, ≟_iff a audience, ≟_iff audience a)

  is_allowed_iff :
      (audience : Text) (audiences : List Text)
      → (is_allowed audiences audience ≡ true) ↔ (
          (audience ≡ text "auth")
          ⊎ ((is_empty audience ≡ false) × (listed audience audiences ≡ true)))
  unfolding is_allowed
  is_allowed_iff audience audiences =
      let named = any-listed audience audiences in
      (
        λ h. elim (Bool-cases (audience ≟ text "auth")) [
          | inl e ↦ inl ((≟_iff audience (text "auth")).0 e)
          | inr e ↦ inr (ground (arith, e, h, named), ground (arith, e, h, named))
        ],
        λ h. elim h [
          | inl e ↦ ground (arith, (≟_iff audience (text "auth")).1 e)
          | inr (shown, there) ↦ ground (arith, shown, there, named)
        ],
      )

  signature_sound :
      (verifier : AdminVerifier V) (token : JoinToken)
      → check_token_signature c cbor shown verifier token ≡ ok tt
      → (bytes : Bytes) × (token_signing_bytes c cbor shown token ≡ ok bytes)
        × IsSignedBy c verifier.keys token.kid root bytes token.sig
  unfolding check_token_signature
  signature_sound verifier token h = elim (Result-cases (token_signing_bytes c cbor shown token)) [
    | inr (e, q) ↦ absurd (ground (arith, q, h))
    | inl (b, q) ↦ elim (Result-cases (verify_signature c verifier token.kid b token.sig)) [
      | inr (e, r) ↦ absurd (ground (arith, q, r, h))
      | inl (viewer, r) ↦ absurd (ground (arith, q, r, h))
      | inl (root, r) ↦ (b, q, verify_signature_sound c verifier token.kid root b token.sig r)
    ]
  ]

  verify_sound :
      (verifier : AdminVerifier V) (token : JoinToken) (now : ℕ) (cluster_id network : Text)
      (audiences : List Text)
      → verify_join_token c cbor shown verifier token now cluster_id network audiences ≡ ok tt
      → IsGood verifier token now cluster_id network audiences
  unfolding verify_join_token token_signing_bytes
  verify_sound verifier token now cluster_id network audiences h =
      let s = signature_sound verifier token (ground (arith, h)) in
      record {
        version = ground (arith, h);
        named = ground (arith, h);
        cluster = ground (arith, h, ≟_iff token.cluster_id cluster_id);
        net = ground (arith, h, ≟_iff token.network network);
        expires = ground (arith, h);
        in_time = ground (arith, h);
        usable = ground (arith, h);
        audience = (is_allowed_iff token.audience audiences).0 (ground (arith, h));
        bytes = s.0;
        covers = ground (arith, s.1);
        signed = s.2;
      }

  verify_complete :
      (verifier : AdminVerifier V) (token : JoinToken) (now : ℕ) (cluster_id network : Text)
      (audiences : List Text)
      → IsGood verifier token now cluster_id network audiences
      → verify_join_token c cbor shown verifier token now cluster_id network audiences ≡ ok tt
  unfolding verify_join_token check_token_signature token_signing_bytes
  verify_complete verifier token now cluster_id network audiences g = ground (
    arith,
    g.version,
    g.named,
    g.cluster,
    g.net,
    g.expires,
    g.in_time,
    g.usable,
    g.covers,
    (is_allowed_iff token.audience audiences).1 g.audience,
    ≟_iff token.cluster_id cluster_id,
    ≟_iff token.network network,
    verify_signature_complete c verifier token.kid root g.bytes token.sig g.signed,
  )

  -- A join token is taken exactly if it has version 1 and a name that is not blank, is for this
  -- cluster and network, has as its audience `auth` or an allowed one that is not empty, has not
  -- expired, allows a use, and bears a signature over all its other fields that Ed25519 verifies
  -- under the configured key of a root administrator.
  pub verify_join_token_exactly :
      (verifier : AdminVerifier V) (token : JoinToken) (now : ℕ) (cluster_id network : Text)
      (audiences : List Text)
      → (verify_join_token c cbor shown verifier token now cluster_id network audiences ≡ ok tt)
        ↔ IsGood verifier token now cluster_id network audiences
  verify_join_token_exactly verifier token now cluster_id network audiences = (
    verify_sound verifier token now cluster_id network audiences,
    verify_complete verifier token now cluster_id network audiences,
  )

  -- Let a join token be verified for the network of the policy and not recorded there. The state
  -- machine records it, and grants its first use to the peer that it is bound to, or to any if it
  -- is bound to none, until it expires; the record then counts one use.
  pub verified_admitted :
      (verifier : AdminVerifier V) (token : JoinToken) (now at : ℕ) (cluster_id peer_id : Text)
      (audiences : List Text) (s : PolicyState)
      → verify_join_token c cbor shown verifier token now cluster_id s.network audiences ≡ ok tt
      → get token.jti s.join_tokens ≡ none
      → (is_empty token.bind_peer_id || token.bind_peer_id ≟ peer_id) ≡ true
      → at ≤ token.expires_at
      → let (issued, s') = issue_join_token token s in
        let (used, s'') = consume_join_token token.jti peer_id at s' in
        (issued ≡ ok tt)
        × (used ≡ ok tt)
        × (get token.jti s''.join_tokens ≡ some (record { token = token; uses = 1 }))
  verified_admitted verifier token now at cluster_id peer_id audiences s h fresh bound in_time =
      let g = verify_sound verifier token now cluster_id s.network audiences h in
      admitted token at peer_id s g.version g.named g.net g.expires g.usable fresh bound in_time
