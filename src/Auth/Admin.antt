-- ===== src/Auth/Admin.antt =====
-- `AdminAuth` of src/admin.rs: a management request proves that its sender has the password.
use nexus_auth.Prelude.{
  ℕ, ◌≤◌, ◌≡◌, ◌↔◌, true, not, Option, none, some, List, Text, Bytes, text, is_empty, length,
  Result, Done, ok, err, is_ok, map_err, if◌then◌else◌, ltb, ◌==◌, abs_diff, arith, Option-cases,
  inl, inr,
}
use nexus_auth.Order.{text_ord, ◌≟◌, ≟_iff, ≟_self}
use nexus_auth.Replay.{
  ReplayGuard, ReplayError, empty, replay, new_guard, check_and_insert, max_seen_nonces,
}
use nexus_auth.Replay.Invariant.{IsConsistent}
use nexus_auth.Replay.Window.{answer, check_and_insert-answer}
use nexus_auth.Auth.Crypto.{Crypto, IsSane}
use nexus_auth.Auth.Sort.{sort}
use nexus_auth.Auth.Accept.{refused_guard}

-- `AdminError`
pub data AdminError : Type 0 where
  empty_password kdf bad_mac expired_timestamp replayed bad_nonce : AdminError

pub record ManagementRequest : Type 0 where
  pub op : Text
  pub service : Text
  pub peers : List Text
  pub nonce : Text
  pub ts : ℕ
  pub mac : Text

-- What the code of a request covers; the peers are in order.
pub record MacInput : Type 0 where
  pub op : Text
  pub service : Text
  pub peers : List Text
  pub nonce : Text
  pub ts : ℕ

pub record AdminAuth : Type 0 where
  pub mac_key : Bytes
  pub guard : ReplayGuard

unfoldable pub hkdf_salt : Text
hkdf_salt = text "nexusauth/mgmt"

abbrev pub skew_secs : ℕ
skew_secs = 300

unfoldable pub mac_input : ManagementRequest → MacInput
mac_input r = record {
  op = r.op;
  service = r.service;
  peers = sort r.peers;
  nonce = r.nonce;
  ts = r.ts;
}

abbrev pub admin_nonce_error : ReplayError → AdminError
admin_nonce_error empty = bad_nonce
admin_nonce_error replay = replayed

module _ {V S : Type 0} (c : Crypto V S) where
  -- `AdminAuth::new`
  unfoldable pub new_admin_auth : Text → Text → Result AdminError AdminAuth
  unfolding hkdf_salt
  new_admin_auth password network =
      if is_empty password then err empty_password else elim (c.hkdf hkdf_salt password network) [
        | none ↦ err kdf
        | some key ↦ ok (record { mac_key = key; guard = new_guard })
      ]

  -- `json` is serde_json at `MacInput`; `none` is its panic in `compute_mac`.
  module _ (json : MacInput → Option Bytes) where
    unfoldable pub compute_mac : AdminAuth → MacInput → Option Text
    compute_mac a input = elim (json (record input { peers = sort input.peers })) [
      | none ↦ none
      | some bytes ↦ some (c.encode_url (c.hmac a.mac_key bytes))
    ]

    -- The checks of `verify` on the code.
    unfoldable pub check_mac : AdminAuth → ManagementRequest → Result AdminError Done
    unfolding mac_input
    check_mac a r = elim (c.decode_url r.mac) [
      | none ↦ err bad_mac
      | some provided ↦
          if not (length provided == 32) then err bad_mac else elim (json (mac_input r)) [
            | none ↦ err bad_mac
            | some bytes ↦ if c.hmac a.mac_key bytes ≟ provided then ok tt else err bad_mac
          ]
    ]

    unfoldable pub verify_management :
        ManagementRequest → ℕ → AdminAuth → Result AdminError Done × AdminAuth
    unfolding check_mac
    verify_management r now a = elim (check_mac a r) [
      | err e ↦ (err e, a)
      | ok _ ↦ if ltb skew_secs (abs_diff now r.ts) then (err expired_timestamp, a) else (
        map_err admin_nonce_error (check_and_insert r.nonce a.guard).0,
        record a { guard = (check_and_insert r.nonce a.guard).1 },
      )
    ]

    -- What a request that is accepted satisfies.
    pub record IsProven (a : AdminAuth) (now : ℕ) (r : ManagementRequest) : Type 0 where
      pub bytes : Bytes
      pub input :
          json (record {
            op = r.op;
            service = r.service;
            peers = sort r.peers;
            nonce = r.nonce;
            ts = r.ts;
          })
          ≡ some bytes
      pub authentic : c.decode_url r.mac ≡ some (c.hmac a.mac_key bytes)
      pub recent : abs_diff now r.ts ≤ skew_secs
      pub fresh : answer a.guard r.nonce ≡ ok tt

    verify_management_sound :
        (r : ManagementRequest) (now : ℕ) (a : AdminAuth)
        → IsConsistent max_seen_nonces a.guard
        → is_ok (verify_management r now a).0 ≡ true
        → IsProven a now r
    unfolding verify_management check_mac check_and_insert mac_input
    verify_management_sound r now a v h = elim (Option-cases (c.decode_url r.mac)) [
      | inl e ↦ absurd (ground (arith, e, h))
      | inr (provided, e) ↦ elim (Option-cases (json (mac_input r))) [
        | inl q ↦ absurd (ground (arith, e, q, h))
        | inr (b, q) ↦ record {
          bytes = b;
          input = q;
          authentic = ground (arith, e, q, h, ≟_iff (c.hmac a.mac_key b) provided);
          recent = ground (arith, e, q, h);
          fresh =
              ground (arith, e, q, h, check_and_insert-answer max_seen_nonces r.nonce a.guard v);
        }
      ]
    ]

    verify_management_complete :
        (r : ManagementRequest) (now : ℕ) (a : AdminAuth)
        → IsSane c
        → IsConsistent max_seen_nonces a.guard
        → IsProven a now r
        → is_ok (verify_management r now a).0 ≡ true
    unfolding verify_management check_mac check_and_insert mac_input
    verify_management_complete r now a sane v p = ground (
      arith,
      p.input,
      p.authentic,
      p.recent,
      p.fresh,
      sane.hmac_len a.mac_key p.bytes,
      ≟_self (c.hmac a.mac_key p.bytes),
      check_and_insert-answer max_seen_nonces r.nonce a.guard v,
    )

    verify_management-after :
        (r : ManagementRequest) (now : ℕ) (a : AdminAuth)
        → (verify_management r now a).1 ≡ (
            if is_ok (verify_management r now a).0
            then record a { guard = (check_and_insert r.nonce a.guard).1 }
            else a)
    unfolding verify_management
    verify_management-after r now a = ground (arith, refused_guard r.nonce a.guard)

    -- Let the guard be consistent, HMACs have 32 bytes and base64 decode what it encodes. A
    -- management request is accepted exactly if its code is that of its content, with the peers in
    -- order, under the password's key, its time stamp is within 300 seconds, and its nonce is
    -- neither empty nor remembered. The nonce of an accepted request is handed to the guard, and a
    -- refused one leaves the guard as it is.
    pub verify_management_exactly :
        (r : ManagementRequest) (now : ℕ) (a : AdminAuth)
        → IsSane c
        → IsConsistent max_seen_nonces a.guard
        → ((is_ok (verify_management r now a).0 ≡ true) ↔ IsProven a now r)
          × ((verify_management r now a).1 ≡ (
              if is_ok (verify_management r now a).0
              then record a { guard = (check_and_insert r.nonce a.guard).1 }
              else a))
    verify_management_exactly r now a sane v = (
      (verify_management_sound r now a v, verify_management_complete r now a sane v),
      verify_management-after r now a,
    )
