-- ===== src/Auth/JoinToken.antt =====
-- src/raft/token.rs: what a join token must satisfy before it is brought into the log.
use nexus_auth.Prelude.{
  ℕ, Bool, ◌||◌, ◌&&◌, not, List, Text, Bytes, text, is_empty, is_blank, Result, Done, ok, err,
  map_err, if◌then◌else◌, ltb, ◌==◌, max, any,
}
use nexus_auth.Order.{text_ord, ◌≟◌}
use nexus_auth.Policy.Types.{JoinToken}
use nexus_auth.Auth.Crypto.{Crypto}
use nexus_auth.Auth.Requests.{is_root, AdminJoinTokenSpec, AdminV2Error, AdminVerifier}
use nexus_auth.Auth.AdminV2.{verify_signature}

abbrev pub join_token_version : ℕ
join_token_version = 1

-- `JoinTokenError`; `bad_request` of an administrator's error carries that error's text.
pub data JoinTokenError : Type 0 where
  bad_version empty_jti unknown_key not_root bad_signature expired : JoinTokenError
  wrong_cluster wrong_network wrong_audience wrong_peer exhausted : JoinTokenError
  bad_request : Text → JoinTokenError

-- The fields that a signature covers.
pub record JoinTokenSigned : Type 0 where
  pub v : ℕ
  pub jti : Text
  pub cluster_id : Text
  pub network : Text
  pub audience : Text
  pub expires_at : ℕ
  pub max_uses : ℕ
  pub bind_peer_id : Text
  pub kid : Text

unfoldable pub token_from_spec : Text → Text → Text → AdminJoinTokenSpec → JoinToken
token_from_spec cluster_id network kid spec = record {
  v = join_token_version;
  jti = spec.jti;
  cluster_id = cluster_id;
  network = network;
  audience = spec.audience;
  expires_at = spec.expires_at;
  max_uses = max spec.max_uses 1;
  bind_peer_id = spec.bind_peer_id;
  kid = kid;
  sig = spec.sig;
}

-- `shown` is the `Display` text of an error of src/admin_v2.rs.
unfoldable pub map_admin_error : (AdminV2Error → Text) → AdminV2Error → JoinTokenError
map_admin_error shown AdminV2Error.unknown_key = unknown_key
map_admin_error shown AdminV2Error.bad_signature = bad_signature
map_admin_error shown (AdminV2Error.bad_request m) =
    bad_request (shown (AdminV2Error.bad_request m))
map_admin_error shown (AdminV2Error.config m) = bad_request (shown (AdminV2Error.config m))
map_admin_error shown AdminV2Error.expired_timestamp =
    bad_request (shown AdminV2Error.expired_timestamp)
map_admin_error shown AdminV2Error.replayed = bad_request (shown AdminV2Error.replayed)

unfoldable pub is_allowed : List Text → Text → Bool
is_allowed allowed_audiences audience =
    audience ≟ text "auth"
    || any (λ candidate. not (is_empty candidate) && candidate ≟ audience) allowed_audiences

-- `cbor` is ciborium at the signed fields.
module _ {V S : Type 0} (c : Crypto V S) (cbor : JoinTokenSigned → Result Text Bytes)
    (shown : AdminV2Error → Text) where
  unfoldable pub token_signing_bytes : JoinToken → Result JoinTokenError Bytes
  token_signing_bytes t = map_err bad_request (
      cbor (record {
        v = t.v;
        jti = t.jti;
        cluster_id = t.cluster_id;
        network = t.network;
        audience = t.audience;
        expires_at = t.expires_at;
        max_uses = t.max_uses;
        bind_peer_id = t.bind_peer_id;
        kid = t.kid;
      }))

  -- The signature, by a root key.
  unfoldable pub check_token_signature : AdminVerifier V → JoinToken → Result JoinTokenError Done
  unfolding token_signing_bytes verify_signature map_admin_error
  check_token_signature verifier token = elim (token_signing_bytes token) [
    | err e ↦ err e
    | ok bytes ↦ elim (verify_signature c verifier token.kid bytes token.sig) [
      | err e ↦ err (map_admin_error shown e)
      | ok role ↦ if is_root role then ok tt else err not_root
    ]
  ]

  unfoldable pub verify_join_token :
      AdminVerifier V → JoinToken → ℕ → Text → Text → List Text → Result JoinTokenError Done
  unfolding check_token_signature is_allowed
  verify_join_token verifier token now cluster_id network allowed_audiences =
      if not (token.v == join_token_version)
      then err bad_version
      else if is_blank token.jti
      then err empty_jti
      else if not (token.cluster_id ≟ cluster_id)
      then err wrong_cluster
      else if not (token.network ≟ network)
      then err wrong_network
      else if token.expires_at == 0 || ltb token.expires_at now
      then err expired
      else if token.max_uses == 0
      then err exhausted
      else if not (is_allowed allowed_audiences token.audience)
      then err wrong_audience
      else check_token_signature verifier token
