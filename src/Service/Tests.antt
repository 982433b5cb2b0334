-- ===== src/Service/Tests.antt =====
-- Requests to the concrete node.
use nexus_auth.Prelude.{
  ℕ, ◌≡◌, refl, ◌⊎◌, inl, inr, Bool, true, false, Option, none, some, List, [], ◌∷◌, Text, Bytes,
  text, Result, ok, err, is_ok, unwrap_or,
}
use nexus_auth.Order.{text_ord, cmp_text, ◌≟◌}
use nexus_auth.Policy.Types.{PolicyCommand}
use nexus_auth.Auth.Requests.{AdminRequestV2, AdminCbor, VerifiedAdmin, AdminRole, root}
use nexus_auth.BTree.{BTreeMap}
use nexus_auth.Auth.Replicate.{op_replicate}
use nexus_auth.Context.{SidecarError, System}
use nexus_auth.Context.Task.{Task, resume}
use nexus_auth.Publisher.Kept.{IsRoundKept}
use nexus_auth.Lab.{lab, lab_crypto, terse_toml}
use nexus_auth.Lab.Node.{Outside, lab_signing, lab_env, lab_raft, lab_ctx, lab_system, web_name}
use nexus_auth.Service.{
  Wire, forwarded_admin_op, is_among, is_member_management_op, policy_command_for,
}
use nexus_auth.Service.Writes.{admin_command, verify_admin, propose_write}
use nexus_auth.Service.Admin.{handle_admin_v2}
use nexus_auth.Service.Dispatch.{Handlers, handle_service_request}
use nexus_auth.Service.Authorised.{IsAuthorised, IsLogGuarded}
use nexus_auth.Service.Guarded.{handle_admin_v2_kept}
use nexus_auth.Service.Refused.{refusal, old_ops, member_request_refused}
use nexus_auth.Service.Answers.{Tells, fate_of, went_out, publication, propose_write-Tells}

-- The request for an operation on the service `web`.
abbrev request : Text → AdminRequestV2
request op = record {
  v = 2;
  op = op;
  service = web_name;
  peers = (97 ∷ []) ∷ [];
  kid = 107 ∷ [];
  request_id = 114 ∷ [];
  nonce = 110 ∷ [];
  ts = 100;
  sig = 4 ∷ [];
  member = none;
  join_token = none;
}

-- A payload is the name of its operation.
abbrev lab_wire : Wire Text ℕ Bytes
lab_wire = record {
  crypto = lab_crypto;
  signing = lab_signing;
  admin_cbor = record { signed_bytes = λ s. ok (1 ∷ []); identity_bytes = λ i. ok (2 ∷ []) };
  mac_json = λ i. none;
  snapshot_cbor = λ s. ok [];
  token_cbor = λ t. ok [];
  toml = terse_toml;
  from_slice = λ b. ok b;
  get_op = λ op. some op;
  to_management = λ op. err [];
  to_admin_v2 = λ op. ok (request op);
  to_replicate = λ op. err [];
  to_sync_request = λ op. err [];
  to_envelope = λ b. err [];
  envelope_json = λ e. ok [];
  sync_response_json = λ r. [];
  encode = λ json. 123 ∷ 125 ∷ [];
  encode_standard = λ b. b;
  to_lowercase = λ t. t;
  debug = λ r. [];
}

abbrev no_write : AdminRequestV2 → VerifiedAdmin → Task (System ℕ Outside ℕ) SidecarError Bytes
no_write r verified s = (ok [], s)

abbrev no_read : AdminRequestV2 → Task (System ℕ Outside ℕ) SidecarError Bytes
no_read r s = (ok [], s)

-- The keys of the node: one, of a root administrator.
abbrev lab_keys : BTreeMap Text (ℕ × AdminRole)
lab_keys = lab_system.shared.admin_keys.keys

-- Every command of an administrator among the proposals is authorised.
record IsAsked (command : PolicyCommand) : Type 0 where
  pub r : AdminRequestV2
  pub verified : VerifiedAdmin
  pub inner : PolicyCommand
  pub as_asked : command ≡ admin_command r verified inner
  pub authorised : IsAuthorised lab_env lab_wire lab_raft lab_keys r verified inner

abbrev AllAsked : List PolicyCommand → Type 0
AllAsked [] = Unit
AllAsked (command ∷ commands) =
    (((expires_at : ℕ) × (command ≡ PolicyCommand.renew_index expires_at)) ⊎ IsAsked command)
    × AllAsked commands

asked-IsRoundKept : IsRoundKept lab_env lab_raft (λ w. AllAsked w.commands)
asked-IsRoundKept = record {
  on_write = λ c key value w p. p;
  on_sleep = λ ms w p. p;
  on_clock = λ w p. p;
  on_leader = λ w p. p;
  on_snapshot = λ w p. p;
  on_renew = λ expires_at w p. (inl (expires_at, refl), p);
}

asked-IsLogGuarded : IsLogGuarded lab_env lab_wire lab_raft lab_keys (λ w. AllAsked w.commands)
asked-IsLogGuarded = record {
  round = asked-IsRoundKept;
  on_peer = λ w p. p;
  on_applied = λ w p. p;
  on_admin = λ r verified command w authorised p. (
    inr (record {
      r = r;
      verified = verified;
      inner = command;
      as_asked = refl;
      authorised = authorised;
    }),
    p,
  );
}

handle_admin_v2_kept_example :
    AllAsked
      (handle_admin_v2 lab_env lab_wire no_write no_read []
        (text "add_members")
        lab_ctx
        none
        lab_system).1.world.commands
handle_admin_v2_kept_example =
    handle_admin_v2_kept lab_env lab_wire lab_raft lab_ctx lab_keys (λ w. AllAsked w.commands)
      asked-IsLogGuarded refl refl (λ w h. refl) no_write no_read (λ r s p. p) []
      (text "add_members") none lab_system refl tt tt

promote_apart : (unwrap_or (lab_wire.get_op (text "promote_voter")) [] ≟ forwarded_admin_op) ≡ false
unfolding text forwarded_admin_op cmp_text
promote_apart = refl

promote_member : is_member_management_op (text "promote_voter") ≡ true
unfolding is_member_management_op text cmp_text is_among nexus_auth.Prelude.any
    nexus_auth.Service.member_ops
promote_member = refl

member_request_refused_example :
    handle_admin_v2 lab_env lab_wire no_write no_read []
      (text "promote_voter")
      lab_ctx
      none
      lab_system
    ≡ (
      err (
          refusal
            (request (text "promote_voter"))
            (verify_admin lab_env lab_wire (request (text "promote_voter")) lab_system).0),
      (verify_admin lab_env lab_wire (request (text "promote_voter")) lab_system).1,
    )
member_request_refused_example =
    member_request_refused lab_env lab_wire no_write no_read [] (text "promote_voter") lab_ctx none
      lab_system (request (text "promote_voter")) promote_apart refl promote_member

-- The request is signed by the root key, and is refused all the same.
promote_verified :
    is_ok (verify_admin lab_env lab_wire (request (text "promote_voter")) lab_system).0 ≡ true
unfolding verify_admin nexus_auth.Auth.AdminV2.verify nexus_auth.Prelude.is_blank
    nexus_auth.BTree.get cmp_text nexus_auth.Prelude.abs_diff nexus_auth.Replay.check_and_insert
    nexus_auth.Replay.new_guard
promote_verified = refl

abbrev no_handlers : Handlers ℕ Outside Text ℕ
no_handlers = record {
  handle_rpc = none;
  handle_raft_join = λ value s. (ok [], s);
  handle_seed_delivery = λ value s. (ok [], s);
  handle_seed_drop = λ value s. (ok [], s);
  handle_join = λ value s. (ok [], s);
  execute_member_write = no_write;
  handle_admin_read = no_read;
  report = λ r s. [];
}

replicate_old : is_among op_replicate old_ops ≡ true
unfolding is_among old_ops op_replicate text cmp_text nexus_auth.Prelude.any
    nexus_auth.Service.Dispatch.op_request
replicate_old = refl

asks_to_add :
    policy_command_for (request (text "add_members"))
    ≡ ok (PolicyCommand.add_members web_name ((97 ∷ []) ∷ []))
unfolding policy_command_for nexus_auth.Service.require_service_v2 nexus_auth.Service.command_of
    cmp_text text nexus_auth.Auth.Requests.canonical_peers nexus_auth.BTree.keys
    nexus_auth.BTree.collect nexus_auth.BTree.insert
asks_to_add = refl

abbrev rooted : VerifiedAdmin
rooted = record { kid = 107 ∷ []; role = root; request_hash = 2 ∷ []; signed_bytes = 1 ∷ [] }

propose_write-Tells_example :
    let (result, w) =
      lab_raft.propose
        (admin_command
          (request (text "add_members"))
          rooted
          (PolicyCommand.add_members web_name ((97 ∷ []) ∷ [])))
        lab_system.world in
    Tells
      (fate_of result)
      (went_out (publication lab_env lab_wire lab_ctx (resume lab_env w lab_system)))
      (propose_write lab_env lab_wire
        (request (text "add_members"))
        rooted
        lab_raft
        lab_ctx
        lab_system).0
propose_write-Tells_example =
    propose_write-Tells lab_env lab_wire lab_ctx (request (text "add_members")) rooted lab_raft
      lab_system (PolicyCommand.add_members web_name ((97 ∷ []) ∷ [])) asks_to_add
