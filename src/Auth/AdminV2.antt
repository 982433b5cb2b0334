-- ===== src/Auth/AdminV2.antt =====
-- src/admin_v2.rs: the administrators' keys and the checks of a signed request.
use nexus_auth.Prelude.{
  ℕ, Bool, false, ◌||◌, ◌&&◌, not, none, some, List, [], ◌∷◌, ◌++◌, Text, Bytes, text, is_empty,
  is_blank, decimal, length, Result, Done, ok, err, ◌>>=◌, map_err, if◌then◌else◌, ltb, ◌==◌,
  abs_diff,
}
use nexus_auth.Order.{text_ord}
use nexus_auth.BTree.{BTreeMap, get, insert, contains_key}
use nexus_auth.Names.{External}
use nexus_auth.Replay.{ReplayError, empty, replay, new_guard, check_and_insert}
use nexus_auth.Auth.Crypto.{Crypto}
use nexus_auth.Auth.Requests.{
  AdminRole, is_root, parse_role, AdminRequestV2, AdminV2Error, AdminCbor, AdminKeyConfig,
  VerifiedAdmin, AdminVerifier, admin_request_version, admin_max_ts_skew_secs, admin_max_nonce_len,
  admin_max_request_id_len, signed_of, identity_of, cbor_error, bad_request, config, unknown_key,
  bad_signature, expired_timestamp, replayed,
}

-- The checks of the form of a request.
unfoldable pub check_form : AdminRequestV2 → Result AdminV2Error Done
check_form r =
    if not (r.v == admin_request_version)
    then err (bad_request (text "unsupported admin request version: " ++ decimal r.v))
    else if is_blank r.kid
    then err (bad_request (text "missing kid"))
    else if is_blank r.request_id
    then err (bad_request (text "missing request_id"))
    else if ltb admin_max_request_id_len (length r.request_id)
    then err (bad_request (text "request_id too long"))
    else if is_empty r.nonce
    then err (bad_request (text "missing nonce"))
    else if ltb admin_max_nonce_len (length r.nonce)
    then err (bad_request (text "nonce too long"))
    else ok tt

abbrev pub nonce_error : ReplayError → AdminV2Error
nonce_error empty = bad_request (text "missing nonce")
nonce_error replay = replayed

module _ {V S : Type 0} (c : Crypto V S) where
  -- One key of the configuration.
  unfoldable pub parse_key : AdminKeyConfig → Result AdminV2Error (V × AdminRole)
  unfolding parse_role
  parse_key entry = elim (parse_role entry.role) [
    | none ↦ err (config (text "kid " ++ (entry.kid ++ (text " has invalid role: " ++ entry.role))))
    | some role ↦ elim (c.decode_standard entry.public_key) [
      | none ↦ err (config (text "kid " ++ (entry.kid ++ text " has invalid base64 public_key")))
      | some raw ↦
          if not (length raw == 32)
          then err (config (text "kid " ++ (entry.kid ++ text " public_key must be 32 bytes")))
          else elim (c.key_from_bytes raw) [
            | none ↦
                err (config (text "kid " ++ (entry.kid ++ text " has invalid Ed25519 public_key")))
            | some key ↦ ok (key, role)
          ]
    ]
  ]

  unfoldable pub read_keys :
      List AdminKeyConfig
      → BTreeMap Text (V × AdminRole)
      → Bool
      → Result AdminV2Error (BTreeMap Text (V × AdminRole) × Bool)
  unfolding parse_key
  read_keys [] map has_root = ok (map, has_root)
  read_keys (entry ∷ entries) map has_root =
      if is_blank entry.kid
      then err (config (text "kid must not be empty"))
      else if contains_key entry.kid map
      then err (config (text "duplicate kid: " ++ entry.kid))
      else elim (parse_key entry) [
        | err e ↦ err e
        | ok (key, role) ↦
            read_keys entries (insert entry.kid (key, role) map) (has_root || is_root role)
      ]

  -- `AdminVerifier::from_config`
  unfoldable pub from_config : List AdminKeyConfig → Bool → Result AdminV2Error (AdminVerifier V)
  unfolding read_keys
  from_config entries require_root = elim (read_keys entries [] false) [
    | err e ↦ err e
    | ok (map, has_root) ↦
        if require_root && not has_root
        then err (config (text "cluster mode requires at least one root key"))
        else ok (record { keys = map; guard = new_guard })
  ]

  unfoldable pub verify_signature :
      AdminVerifier V → Text → Bytes → Text → Result AdminV2Error AdminRole
  verify_signature a kid message signature_b64 = elim (get kid a.keys) [
    | none ↦ err unknown_key
    | some (key, role) ↦ elim (c.decode_url signature_b64) [
      | none ↦ err bad_signature
      | some sig_bytes ↦ elim (c.signature_from_slice sig_bytes) [
        | none ↦ err bad_signature
        | some signature ↦ if c.verifies key message signature then ok role else err bad_signature
      ]
    ]
  ]

  module _ (cbor : AdminCbor) where
    unfoldable pub signing_bytes : AdminRequestV2 → Result AdminV2Error Bytes
    unfolding signed_of
    signing_bytes r = map_err cbor_error (cbor.signed_bytes (signed_of r))

    unfoldable pub request_hash : ⦃x : External⦄ → AdminRequestV2 → Result AdminV2Error Text
    unfolding identity_of
    request_hash ⦃x⦄ r = do
      bytes ← map_err cbor_error (cbor.identity_bytes (identity_of r))
      ok (c.encode_url (x.sha256 bytes))

    -- The checks up to the signature: the key's role and the bytes it covers.
    unfoldable pub check_signature :
        AdminVerifier V → AdminRequestV2 → Result AdminV2Error (AdminRole × Bytes)
    unfolding check_form signing_bytes verify_signature
    check_signature a r = elim (check_form r) [
      | err e ↦ err e
      | ok _ ↦ elim (get r.kid a.keys) [
        | none ↦ err unknown_key
        | some (key, role) ↦ elim (signing_bytes r) [
          | err e ↦ err e
          | ok bytes ↦ elim (verify_signature a r.kid bytes r.sig) [
            | err e ↦ err e
            | ok role ↦ ok (role, bytes)
          ]
        ]
      ]
    ]

    -- `AdminVerifier::verify`; the nonce is remembered before the hash is made.
    unfoldable pub verify :
        ⦃x : External⦄
        → AdminRequestV2
        → ℕ
        → AdminVerifier V
        → Result AdminV2Error VerifiedAdmin × AdminVerifier V
    unfolding check_signature request_hash
    verify r now a = elim (check_signature a r) [
      | err e ↦ (err e, a)
      | ok (role, bytes) ↦
          if ltb admin_max_ts_skew_secs (abs_diff now r.ts)
          then (err expired_timestamp, a)
          else elim (check_and_insert r.nonce a.guard).0 [
            | err e ↦
                (err (nonce_error e), record a { guard = (check_and_insert r.nonce a.guard).1 })
            | ok _ ↦ (
              request_hash r >>= λ hash.
                  ok (record {
                    kid = r.kid;
                    role = role;
                    request_hash = hash;
                    signed_bytes = bytes;
                  }),
              record a { guard = (check_and_insert r.nonce a.guard).1 },
            )
          ]
    ]
