-- ===== src/Service/Errors.antt =====
-- src/service.rs: the errors of a reply, from those of the parts.
use nexus_auth.Prelude.{
  ℕ, Bool, true, false, ◌||◌, [], ◌∷◌, ◌++◌, Text, text, decimal, if◌then◌else◌, ◌==◌,
}
use nexus_auth.Order.{text_ord}
use nexus_auth.Legacy.Types.{
  StoreError, io, parse, network_mismatch, invalid_service, invalid_peer, not_found, already_exists,
}
use nexus_auth.Fsutil.{IoError}
use nexus_auth.Auth.Admin.{AdminError}
use nexus_auth.Auth.Replicate.{RepError}
use nexus_auth.Auth.Requests.{AdminV2Error}
use nexus_auth.Context.{SidecarError, sidecar_error, with_publish_error}

-- `AdminV2Error::code` and its text.
unfoldable pub admin_v2_error : AdminV2Error → SidecarError
admin_v2_error (AdminV2Error.bad_request m) =
    sidecar_error (text "bad_request") (text "bad admin request: " ++ m)
admin_v2_error AdminV2Error.unknown_key =
    sidecar_error (text "unknown_admin_key") (text "unknown admin key")
admin_v2_error AdminV2Error.bad_signature =
    sidecar_error (text "bad_signature") (text "invalid admin signature")
admin_v2_error AdminV2Error.expired_timestamp =
    sidecar_error (text "expired_timestamp") (text "admin timestamp out of range")
admin_v2_error AdminV2Error.replayed = sidecar_error (text "replay") (text "admin nonce replayed")
admin_v2_error (AdminV2Error.config m) =
    sidecar_error (text "admin_config_invalid") (text "invalid admin key config: " ++ m)

-- What the system says of an error is not told apart.
unfoldable pub io_text : IoError → Text
io_text e = text "io error"

unfoldable pub store_text : StoreError → Text
store_text (io e) = text "io error: " ++ io_text e
store_text (parse e) = text "state parse error: " ++ e
store_text (network_mismatch expected found) =
    text "state network mismatch: expected '"
    ++ (expected ++ (text "', found '" ++ (found ++ text "'")))
store_text (invalid_service s) = text "invalid service name: '" ++ (s ++ text "'")
store_text (invalid_peer p) = text "invalid peer id: '" ++ (p ++ text "'")
store_text (not_found s) = text "service not found: '" ++ (s ++ text "'")
store_text (already_exists s) = text "service already exists: '" ++ (s ++ text "'")

unfoldable pub store_code : StoreError → Text
store_code (not_found s) = text "not_found"
store_code (already_exists s) = text "already_exists"
store_code (invalid_service s) = text "invalid_service"
store_code (invalid_peer p) = text "invalid_peer"
store_code (network_mismatch expected found) = text "network_mismatch"
store_code (parse e) = text "state_error"
store_code (io e) = text "io_error"

unfoldable pub store_error : StoreError → SidecarError
store_error e = sidecar_error (store_code e) (store_text e)

unfoldable pub rep_error : RepError → SidecarError
rep_error RepError.empty_password =
    sidecar_error (text "rep_empty_password") (text "management password is empty")
rep_error RepError.kdf = sidecar_error (text "rep_kdf_error") (text "key derivation failed")
rep_error RepError.bad_mac = sidecar_error (text "rep_bad_mac") (text "invalid replication mac")
rep_error RepError.expired_timestamp =
    sidecar_error (text "rep_expired_timestamp") (text "replication timestamp out of range")
rep_error RepError.replayed = sidecar_error (text "rep_replay") (text "replication nonce replayed")
rep_error RepError.bad_nonce =
    sidecar_error (text "rep_bad_nonce") (text "replication nonce is empty")
rep_error (RepError.decode e) =
    sidecar_error (text "rep_decode_error") (text "replication decode error: " ++ e)
rep_error (RepError.store e) =
    sidecar_error (text "rep_store_error") (text "state merge error: " ++ store_text e)

unfoldable pub admin_error : AdminError → SidecarError
admin_error AdminError.empty_password =
    sidecar_error (text "empty_password") (text "management password is empty")
admin_error AdminError.kdf = sidecar_error (text "kdf_error") (text "key derivation failed")
admin_error AdminError.bad_mac = sidecar_error (text "bad_mac") (text "invalid management mac")
admin_error AdminError.expired_timestamp =
    sidecar_error (text "expired_timestamp") (text "management timestamp out of range")
admin_error AdminError.replayed = sidecar_error (text "replay") (text "management nonce replayed")
admin_error AdminError.bad_nonce =
    sidecar_error (text "bad_nonce") (text "management nonce is empty")

-- `e.contains(needle)`
unfoldable pub starts_with : Text → Text → Bool
starts_with [] s = true
starts_with (b ∷ bs) [] = false
starts_with (b ∷ bs) (c ∷ cs) = let rest = starts_with bs cs in if b == c then rest else false

unfoldable pub contains_text : Text → Text → Bool
contains_text needle [] = starts_with needle []
contains_text needle (c ∷ cs) =
    let rest = contains_text needle cs in if starts_with needle (c ∷ cs) then true else rest

unfoldable pub map_admin_apply_error : (Text → Text) → Text → SidecarError
map_admin_apply_error to_lowercase e =
    let lower = to_lowercase e in
    if contains_text (text "forwardtoleader") lower || contains_text (text "not leader") lower
    then sidecar_error (text "not_leader") e
    else sidecar_error (text "apply_timeout") e

unfoldable pub publish_error : Text → Text → ℕ → SidecarError
publish_error code error policy_epoch =
    with_publish_error
      (sidecar_error code
        (text "policy_epoch=" ++ (decimal policy_epoch ++ (text " publish_error=" ++ error))))
      error
