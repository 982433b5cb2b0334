-- ===== src/Auth/Tests.antt =====
-- The authenticators on small inputs.
use nexus_auth.Prelude.{
  ℕ, ◌+◌, ◌≤◌, ◌<◌, ◌≡◌, ◌↔◌, refl, Bool, true, false, ◌||◌, Option, none, some, List, [], ◌∷◌,
  Text, Bytes, text, Result, ok, err, is_ok, is_empty, is_blank, arith, if◌then◌else◌, ltb,
  abs_diff,
}
use nexus_auth.Order.{text_ord, ◌≟◌, cmp_text}
use nexus_auth.BTree.{get, insert}
use nexus_auth.Lab.{lab, lab_crypto, lab_crypto-IsSane, pad}
use nexus_auth.Replay.{new_guard, max_seen_nonces, check_and_insert}
use nexus_auth.Replay.Invariant.{new_guard-IsConsistent}
use nexus_auth.Replay.Window.{answer}
use nexus_auth.Policy.Types.{JoinToken}
use nexus_auth.Policy.Tokens.{issue_join_token, consume_join_token}
use nexus_auth.Policy.Tests.{start, web, alice}
use nexus_auth.Auth.Replicate.{
  ReplicateMsg, RepAuth, expired_timestamp, replayed, op_replicate, verify_replicate,
  replicate_input, max_ts_skew_secs,
}
use nexus_auth.Auth.Accept.{IsAcceptable, verify_replicate_exactly}
use nexus_auth.Auth.Admin.{
  ManagementRequest, MacInput, AdminAuth, IsProven, verify_management, verify_management_exactly,
}
use nexus_auth.Auth.Replayed.{change, pass_all, replay_after_traffic}
use nexus_auth.Auth.Requests.{
  AdminRequestV2, AdminCbor, AdminKeyConfig, AdminVerifier, VerifiedAdmin, root,
}
use nexus_auth.Auth.AdminV2.{from_config, request_hash, verify}
use nexus_auth.Auth.Administrators.{IsRetry, IsSigned, verify_only_if, retry_hash}
use nexus_auth.Auth.JoinToken.{JoinTokenSigned, verify_join_token}
use nexus_auth.Auth.Admission.{IsGood, verify_join_token_exactly, verified_admitted}

abbrev replica : RepAuth
replica = record { key = 5 ∷ []; guard = new_guard }

abbrev news : ReplicateMsg
news = record {
  op = 114 ∷ 101 ∷ 112 ∷ 108 ∷ 105 ∷ 99 ∷ 97 ∷ 116 ∷ 101 ∷ [];
  service = web;
  version = 3;
  members = alice ∷ web ∷ [];
  index_version = 4;
  deleted = false;
  nonce = 49 ∷ [];
  ts = 1000;
  mac = [];
}

verify_replicate_exactly_example :
    ((is_ok (verify_replicate lab_crypto news 1100 replica).0 ≡ true)
      ↔ IsAcceptable lab_crypto replica 1100 news)
    × ((verify_replicate lab_crypto news 1100 replica).1 ≡ (
        if is_ok (verify_replicate lab_crypto news 1100 replica).0
        then record replica { guard = (check_and_insert news.nonce replica.guard).1 }
        else replica))
verify_replicate_exactly_example =
    verify_replicate_exactly lab_crypto news 1100 replica lab_crypto-IsSane
      (new_guard-IsConsistent max_seen_nonces)

news_op : news.op ≡ op_replicate
unfolding op_replicate text
news_op = refl

news_fresh : answer new_guard news.nonce ≡ ok tt
unfolding answer new_guard nexus_auth.BTree.Sets.listed
news_fresh = refl

abs_100 : abs_diff 1100 news.ts ≤ max_ts_skew_secs
unfolding abs_diff
abs_100 = omega arith

abbrev signed_news : ReplicateMsg
signed_news = record news { mac = pad 2640 }

news_taken : (verify_replicate lab_crypto signed_news 1100 replica).0 ≡ ok tt
unfolding verify_replicate cmp_text text replicate_input nexus_auth.Auth.Sort.join
    nexus_auth.Auth.Sort.sort abs_diff check_and_insert get new_guard
news_taken = refl

replay_after_traffic_example :
    (verify_replicate lab_crypto signed_news 1200 (
      pass_all lab_crypto
        (change news 1150 ∷ [])
        (verify_replicate lab_crypto signed_news 1100 replica).1)).0
    ≡ (if ltb max_ts_skew_secs (abs_diff 1200 1000) then err expired_timestamp else err replayed)
replay_after_traffic_example =
    replay_after_traffic lab_crypto signed_news 1100 1200 replica (change news 1150 ∷ [])
      (new_guard-IsConsistent max_seen_nonces) news_taken (omega arith)

abbrev root_key : AdminKeyConfig
root_key = record { kid = 107 ∷ []; role = 114 ∷ 111 ∷ 111 ∷ 116 ∷ []; public_key = pad 9 }

abbrev verifier : AdminVerifier ℕ
verifier = record { keys = (107 ∷ [], (9, root)) ∷ []; guard = new_guard }

root_configured : from_config lab_crypto (root_key ∷ []) true ≡ ok verifier
unfolding from_config is_blank get cmp_text text insert
root_configured = refl

abbrev lab_cbor : AdminCbor
lab_cbor = record { signed_bytes = λ s. ok (1 ∷ []); identity_bytes = λ i. ok (2 ∷ []) }

abbrev ask : AdminRequestV2
ask = record {
  v = 2;
  op = 99 ∷ [];
  service = web;
  peers = alice ∷ web ∷ [];
  kid = 107 ∷ [];
  request_id = 49 ∷ [];
  nonce = 50 ∷ [];
  ts = 1000;
  sig = 10 ∷ [];
  member = none;
  join_token = none;
}

abbrev verified : VerifiedAdmin
verified = record { kid = 107 ∷ []; role = root; request_hash = 2 ∷ []; signed_bytes = 1 ∷ [] }

ask_passes : (verify lab_crypto lab_cbor ask 1100 verifier).0 ≡ ok verified
unfolding verify is_blank get cmp_text abs_diff check_and_insert new_guard
ask_passes = refl

verify_only_if_example : IsSigned lab_crypto lab_cbor verifier 1100 ask verified
verify_only_if_example =
    verify_only_if lab_crypto lab_cbor ask 1100 verifier verified
      (new_guard-IsConsistent max_seen_nonces) ask_passes

abbrev ask_again : AdminRequestV2
ask_again = record ask { nonce = 51 ∷ []; ts = 1060; peers = web ∷ alice ∷ web ∷ [] }

listed_again :
    (p : Text)
    → nexus_auth.BTree.Sets.listed p ask_again.peers ≡ nexus_auth.BTree.Sets.listed p ask.peers
unfolding nexus_auth.BTree.Sets.listed
listed_again p = ground arith

ask_again-IsRetry : IsRetry ask ask_again
ask_again-IsRetry = record {
  v = refl;
  op = refl;
  service = refl;
  kid = refl;
  request_id = refl;
  member = refl;
  join_token = refl;
  peers = listed_again;
}

retry_hash_example :
    request_hash lab_crypto lab_cbor ask_again ≡ request_hash lab_crypto lab_cbor ask
retry_hash_example = retry_hash lab_crypto lab_cbor ask ask_again ask_again-IsRetry

abbrev token_cbor : JoinTokenSigned → Result Text Bytes
token_cbor t = ok (t.expires_at ∷ t.jti)

abbrev ticket : JoinToken
ticket = record {
  v = 1;
  jti = 106 ∷ [];
  cluster_id = 99 ∷ [];
  network = 110 ∷ [];
  audience = 80 ∷ [];
  expires_at = 5000;
  max_uses = 2;
  bind_peer_id = alice;
  kid = 107 ∷ [];
  sig = 5115 ∷ [];
}

verify_join_token_exactly_example :
    (verify_join_token lab_crypto token_cbor
        (λ e. [])
        verifier
        ticket
        4000
        (99 ∷ [])
        (110 ∷ [])
        ((80 ∷ []) ∷ [])
      ≡ ok tt)
    ↔ IsGood lab_crypto token_cbor
        (λ e. [])
        verifier
        ticket
        4000
        (99 ∷ [])
        (110 ∷ [])
        ((80 ∷ []) ∷ [])
verify_join_token_exactly_example =
    verify_join_token_exactly lab_crypto token_cbor (λ e. []) verifier ticket 4000 (99 ∷ [])
      (110 ∷ []) ((80 ∷ []) ∷ [])

ticket_verified :
    verify_join_token lab_crypto token_cbor
      (λ e. [])
      verifier
      ticket
      4000
      (99 ∷ [])
      start.network
      ((80 ∷ []) ∷ [])
    ≡ ok tt
unfolding verify_join_token is_blank cmp_text text nexus_auth.Prelude.any get
ticket_verified = refl

ticket_new : get ticket.jti start.join_tokens ≡ none
unfolding get
ticket_new = refl

ticket_bound : (is_empty ticket.bind_peer_id || ticket.bind_peer_id ≟ alice) ≡ true
unfolding cmp_text
ticket_bound = refl

verified_admitted_example :
    let (issued, s') = issue_join_token ticket start in
    let (used, s'') = consume_join_token ticket.jti alice 4500 s' in
    (issued ≡ ok tt)
    × (used ≡ ok tt)
    × (get ticket.jti s''.join_tokens ≡ some (record { token = ticket; uses = 1 }))
verified_admitted_example =
    verified_admitted lab_crypto token_cbor (λ e. []) verifier ticket 4000 4500 (99 ∷ []) alice
      ((80 ∷ []) ∷ []) start ticket_verified ticket_new ticket_bound (omega arith)

abbrev manager : AdminAuth
manager = record { mac_key = 5 ∷ []; guard = new_guard }

abbrev lab_json : MacInput → Option Bytes
lab_json i = some (i.ts ∷ i.nonce)

abbrev add_peer : ManagementRequest
add_peer = record {
  op = 97 ∷ [];
  service = web;
  peers = web ∷ alice ∷ [];
  nonce = 52 ∷ [];
  ts = 1000;
  mac = pad 1057;
}

verify_management_exactly_example :
    ((is_ok (verify_management lab_crypto lab_json add_peer 1100 manager).0 ≡ true)
      ↔ IsProven lab_crypto lab_json manager 1100 add_peer)
    × ((verify_management lab_crypto lab_json add_peer 1100 manager).1 ≡ (
        if is_ok (verify_management lab_crypto lab_json add_peer 1100 manager).0
        then record manager { guard = (check_and_insert add_peer.nonce manager.guard).1 }
        else manager))
verify_management_exactly_example =
    verify_management_exactly lab_crypto lab_json add_peer 1100 manager lab_crypto-IsSane
      (new_guard-IsConsistent max_seen_nonces)
