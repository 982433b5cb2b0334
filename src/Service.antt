-- ===== src/Service.antt =====
-- src/service.rs: the classes of requests, what they must carry, and the errors of a reply.
pub mod Errors
pub mod Writes
pub mod Routes
pub mod Admin
pub mod Replicas
pub mod Management
pub mod Dispatch
pub mod Classes
pub mod Authorised
pub mod Guarded
pub mod Refused
pub mod Answers
mod Tests
use nexus_auth.Prelude.{
  ℕ, Bool, true, false, ◌||◌, ◌&&◌, not, Option, none, some, List, [], ◌∷◌, ◌++◌, Text, Bytes, text,
  is_empty, decimal, Result, Done, ok, err, ok_or, if◌then◌else◌, ◌==◌, any,
}
use nexus_auth.Order.{text_ord, ◌≟◌}
use nexus_auth.Names.{External, is_valid_peer_id}
use nexus_auth.Snapshot.{StoreSnapshot}
use nexus_auth.Policy.Types.{PolicyCommand, PolicyResult, JoinToken}
use nexus_auth.Legacy.Types.{
  Toml, StoreError, io, parse, network_mismatch, invalid_service, invalid_peer, not_found,
  already_exists,
}
use nexus_auth.Fsutil.{IoError}
use nexus_auth.Cluster.{RaftNode, node_id_from_peer_id}
use nexus_auth.Authority.{Signing}
use nexus_auth.Auth.Crypto.{Crypto}
use nexus_auth.Auth.Admin.{AdminError, ManagementRequest, MacInput}
use nexus_auth.Auth.Replicate.{RepError, ReplicateMsg, SyncRequest, SyncResponse}
use nexus_auth.Auth.Requests.{
  AdminMemberSpec, AdminRequestV2, AdminV2Error, AdminCbor, canonical_peers,
}
use nexus_auth.Auth.JoinToken.{JoinTokenSigned}
use nexus_auth.Context.{SidecarError, sidecar_error, with_publish_error}

pub data AdminOpClass : Type 0 where
  read write unknown : AdminOpClass

-- `matches!(op, …)`
unfoldable pub is_among : Text → List Text → Bool
is_among op ops = any (λ o. op ≟ o) ops

unfoldable pub mutating_ops : List Text
mutating_ops =
    text "add_members"
    ∷ text "remove_members"
    ∷ text "set_members"
    ∷ text "create_service"
    ∷ text "delete_service"
    ∷ []

unfoldable pub is_mutating_op : Text → Bool
is_mutating_op op = is_among op mutating_ops

unfoldable pub read_ops : List Text
read_ops =
    text "status" ∷ text "export_authority_pubkey" ∷ text "list_services" ∷ text "list_members" ∷ []

unfoldable pub classify_admin_op : Text → AdminOpClass
classify_admin_op op =
    if is_among op read_ops
    then read
    else if op ≟ text "publish_now"
    then write
    else if is_mutating_op op
    then write
    else unknown

unfoldable pub member_ops : List Text
member_ops =
    text "add_learner"
    ∷ text "promote_voter"
    ∷ text "demote_voter"
    ∷ text "remove_member"
    ∷ text "issue_join_token"
    ∷ []

unfoldable pub is_member_management_op : Text → Bool
is_member_management_op op = is_among op member_ops

-- `ForwardedAdminEnvelope` of src/admin_v2.rs; the `v` is a `u8`.
pub record ForwardedAdminEnvelope : Type 0 where
  pub op : Text
  pub v : ℕ
  pub request_b64 : Text
  pub edge_peer : Text
  pub edge_sig : Text

unfoldable pub forwarded_admin_op : Text
forwarded_admin_op = text "forwarded_admin"

abbrev pub forwarded_admin_version : ℕ
forwarded_admin_version = 1

-- What a reply carries: the values of `json!`.
mutual
  pub data Json : Type 0 where
    null : Json
    flag : Bool → Json
    number : ℕ → Json
    string : Text → Json
    strings : List Text → Json
    object : Fields → Json

  pub data Fields : Type 0 where
    end : Fields
    field : Text → Json → Fields → Fields

-- The libraries that a request passes through, at the types of the source: serde_json, with `J` for
-- its `Value`, base64 in the standard alphabet, and those of the authenticators and the publisher.
pub record Wire (J V S : Type 0) : Type 0 where
  pub crypto : Crypto V S
  pub signing : Signing V S
  pub admin_cbor : AdminCbor
  pub mac_json : MacInput → Option Bytes
  pub snapshot_cbor : StoreSnapshot → Result Text Bytes
  pub token_cbor : JoinTokenSigned → Result Text Bytes
  pub toml : Toml
  pub from_slice : Bytes → Result Text J
  pub get_op : J → Option Text
  pub to_management : J → Result Text ManagementRequest
  pub to_admin_v2 : J → Result Text AdminRequestV2
  pub to_replicate : J → Result Text ReplicateMsg
  pub to_sync_request : J → Result Text SyncRequest
  pub to_envelope : Bytes → Result Text ForwardedAdminEnvelope
  pub envelope_json : ForwardedAdminEnvelope → Result Text Bytes
  pub sync_response_json : SyncResponse → Bytes
  pub encode : Json → Bytes
  pub encode_standard : Bytes → Text
  pub to_lowercase : Text → Text
  -- `{:?}` of a result
  pub debug : PolicyResult → Text

unfoldable pub bad_request : Text → SidecarError
bad_request = sidecar_error (text "bad_request")

unfoldable pub missing_service : SidecarError
missing_service = bad_request (text "缺少 'service' 字段")

unfoldable pub require_service : ManagementRequest → Result SidecarError Text
require_service r = if is_empty r.service then err missing_service else ok r.service

unfoldable pub require_service_v2 : AdminRequestV2 → Result SidecarError Text
require_service_v2 r = if is_empty r.service then err missing_service else ok r.service

unfoldable pub require_member : AdminRequestV2 → Result SidecarError AdminMemberSpec
require_member r = ok_or r.member (bad_request (text "缺少 'member' 字段"))

unfoldable pub member_node_id : ⦃x : External⦄ → AdminMemberSpec → Result SidecarError ℕ
member_node_id spec =
    let derived = node_id_from_peer_id spec.peer_id in
    if not (is_valid_peer_id spec.peer_id)
    then err (bad_request (text "invalid peer_id"))
    else if spec.node_id == 0 || not (spec.node_id == derived)
    then err (
        bad_request (
          text "node_id "
          ++ (decimal spec.node_id
              ++ (text " does not match node_id_from_peer_id("
                  ++ (spec.peer_id ++ (text ") = " ++ decimal derived))))))
    else ok derived

unfoldable pub node_from_spec :
    ⦃x : External⦄ → AdminMemberSpec → Bool → Result SidecarError RaftNode
node_from_spec spec require_identity = elim (member_node_id spec) [
  | err e ↦ err e
  | ok _ ↦
      if require_identity && is_empty spec.identity_key
      then err (bad_request (text "identity_key is required"))
      else if require_identity && is_empty spec.x25519_key
      then err (bad_request (text "x25519_key is required for later seed delivery"))
      else ok (record {
        peer_id = spec.peer_id;
        identity_key = spec.identity_key;
        x25519_key = spec.x25519_key;
      })
]

unfoldable pub command_of : AdminRequestV2 → Text → Result SidecarError PolicyCommand
command_of r service =
    let peers = canonical_peers r.peers in
    if r.op ≟ text "add_members"
    then ok (PolicyCommand.add_members service peers)
    else if r.op ≟ text "remove_members"
    then ok (PolicyCommand.remove_members service peers)
    else if r.op ≟ text "set_members"
    then ok (PolicyCommand.set_members service peers)
    else if r.op ≟ text "create_service"
    then ok (PolicyCommand.create_service service peers)
    else if r.op ≟ text "delete_service"
    then ok (PolicyCommand.delete_service service)
    else err (sidecar_error (text "unknown_op") (text "未知写指令: " ++ r.op))

unfoldable pub policy_command_for : AdminRequestV2 → Result SidecarError PolicyCommand
policy_command_for r = elim (require_service_v2 r) [
  | err e ↦ err e
  | ok service ↦ command_of r service
]
