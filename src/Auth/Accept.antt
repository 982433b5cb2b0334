-- ===== src/Auth/Accept.antt =====
-- Which messages of another replica are accepted.
use nexus_auth.Prelude.{
  ℕ, ◌≤◌, ◌≡◌, ◌↔◌, refl, ap, ◌∙◌, sym, true, false, some, List, [], ◌∷◌, ◌++◌, Text, Bytes, text,
  ok, is_ok, if◌then◌else◌, abs_diff, arith, Result-cases, Option-cases, inl, inr,
}
use nexus_auth.Order.{text_ord, ≟_iff, ≟_self}
use mathlib.Core.List.{Permᴰ}
use nexus_auth.Replay.{ReplayGuard, check_and_insert, check_and_insert_at, max_seen_nonces}
use nexus_auth.Replay.Invariant.{IsConsistent}
use nexus_auth.Replay.Window.{answer, check_and_insert-answer}
use nexus_auth.Auth.Crypto.{Crypto, IsSane}
use nexus_auth.Auth.Sort.{sort, join, sort-Perm}
use nexus_auth.Auth.Replicate.{
  ReplicateMsg, RepAuth, max_ts_skew_secs, op_replicate, to_be_bytes, replicate_input, mac_b64,
  b64_decode, verify_mac, check_fresh, sign_replicate, verify_replicate,
}

-- A refused nonce leaves the guard as it is.
pub refused_guard :
    (n : Text) (g : ReplayGuard)
    → is_ok (check_and_insert n g).0 ≡ false
    → (check_and_insert n g).1 ≡ g
unfolding check_and_insert check_and_insert_at
refused_guard n g h = ground arith

-- Byte strings with a zero byte between them.
unfoldable pub between_zeros : List Bytes → Bytes
between_zeros [] = []
between_zeros (x ∷ []) = x
between_zeros (x ∷ y ∷ ys) = x ++ (0 ∷ between_zeros (y ∷ ys))

-- What the code of a change covers: the context, and every field but the operation and the code,
-- the members in order.
abbrev pub change_content : ReplicateMsg → Bytes
change_content m = between_zeros (
    text "nexusauth/replicate"
    ∷ m.service
    ∷ to_be_bytes m.version
    ∷ to_be_bytes m.index_version
    ∷ ((if m.deleted then 1 else 0) ∷ [])
    ∷ join (sort m.members)
    ∷ m.nonce
    ∷ to_be_bytes m.ts
    ∷ [])

replicate_input-content : (m : ReplicateMsg) → replicate_input m ≡ change_content m
unfolding replicate_input between_zeros
replicate_input-content m = ground arith

module _ {V S : Type 0} (c : Crypto V S) where
  -- The code in the message is that of its content under the key.
  abbrev pub IsAuthentic : RepAuth → Bytes → Text → Type 0
  IsAuthentic a input mac = c.decode_url mac ≡ some (c.hmac a.key input)

  -- What a message that is accepted satisfies.
  pub record IsAcceptable (a : RepAuth) (now : ℕ) (m : ReplicateMsg) : Type 0 where
    pub operation : m.op ≡ op_replicate
    pub authentic : IsAuthentic a (change_content m) m.mac
    pub recent : abs_diff now m.ts ≤ max_ts_skew_secs
    pub fresh : answer a.guard m.nonce ≡ ok tt

  verify_mac_sound :
      (a : RepAuth) (input : Bytes) (mac : Text)
      → is_ok (verify_mac c a input mac) ≡ true
      → IsAuthentic a input mac
  unfolding verify_mac b64_decode
  verify_mac_sound a input mac h = elim (Option-cases (c.decode_url mac)) [
    | inl e ↦ absurd (ground (arith, e, h))
    | inr (b, e) ↦ ground (arith, e, h, ≟_iff (c.hmac a.key input) b)
  ]

  verify_mac_complete :
      (a : RepAuth) (input : Bytes) (mac : Text)
      → IsSane c
      → IsAuthentic a input mac
      → verify_mac c a input mac ≡ ok tt
  unfolding verify_mac b64_decode
  verify_mac_complete a input mac sane h =
      ground (arith, h, sane.hmac_len a.key input, ≟_self (c.hmac a.key input))

  check_fresh-ok :
      (nonce : Text) (ts now : ℕ) (a : RepAuth)
      → IsConsistent max_seen_nonces a.guard
      → is_ok (check_fresh c nonce ts now a).0 ≡ true
      → (abs_diff now ts ≤ max_ts_skew_secs) × (answer a.guard nonce ≡ ok tt)
  unfolding check_fresh check_and_insert
  check_fresh-ok nonce ts now a v h = (
    ground (arith, h),
    ground (arith, h, check_and_insert-answer max_seen_nonces nonce a.guard v),
  )

  verify_replicate_sound :
      (m : ReplicateMsg) (now : ℕ) (a : RepAuth)
      → IsConsistent max_seen_nonces a.guard
      → is_ok (verify_replicate c m now a).0 ≡ true
      → IsAcceptable a now m
  unfolding verify_replicate
  verify_replicate_sound m now a v h =
      elim (Result-cases (verify_mac c a (replicate_input m) m.mac)) [
        | inr (e, q) ↦ absurd (ground (arith, q, h))
        | inl (u, q) ↦
            let fresh = check_fresh-ok m.nonce m.ts now a v (ground (arith, q, h)) in
            record {
              operation = ground (arith, h, ≟_iff m.op op_replicate);
              authentic =
                  verify_mac_sound a (replicate_input m) m.mac (ground (arith, q))
                  ∙ ap (λ b. some (c.hmac a.key b)) (replicate_input-content m);
              recent = fresh.0;
              fresh = fresh.1;
            }
      ]

  verify_replicate_complete :
      (m : ReplicateMsg) (now : ℕ) (a : RepAuth)
      → IsSane c
      → IsConsistent max_seen_nonces a.guard
      → IsAcceptable a now m
      → is_ok (verify_replicate c m now a).0 ≡ true
  unfolding verify_replicate check_fresh check_and_insert
  verify_replicate_complete m now a sane v h = ground (
    arith,
    h.operation,
    h.recent,
    h.fresh,
    ≟_self op_replicate,
    verify_mac_complete a (replicate_input m) m.mac sane
        (h.authentic ∙ sym (ap (λ b. some (c.hmac a.key b)) (replicate_input-content m))),
    check_and_insert-answer max_seen_nonces m.nonce a.guard v,
  )

  verify_replicate-after :
      (m : ReplicateMsg) (now : ℕ) (a : RepAuth)
      → (verify_replicate c m now a).1 ≡ (
          if is_ok (verify_replicate c m now a).0
          then record a { guard = (check_and_insert m.nonce a.guard).1 }
          else a)
  unfolding verify_replicate check_fresh
  verify_replicate-after m now a = ground (arith, refused_guard m.nonce a.guard)

  -- Let the guard be consistent, HMACs have 32 bytes and base64 decode what it encodes. A replica
  -- accepts exactly the change messages for the right operation, with the code of their content, a
  -- time stamp within 300 seconds, and a nonce that is neither empty nor remembered. The nonce of
  -- an accepted message is handed to the guard, and a refused one leaves the guard as it is.
  pub verify_replicate_exactly :
      (m : ReplicateMsg) (now : ℕ) (a : RepAuth)
      → IsSane c
      → IsConsistent max_seen_nonces a.guard
      → ((is_ok (verify_replicate c m now a).0 ≡ true) ↔ IsAcceptable a now m)
        × ((verify_replicate c m now a).1 ≡ (
            if is_ok (verify_replicate c m now a).0
            then record a { guard = (check_and_insert m.nonce a.guard).1 }
            else a))
  verify_replicate_exactly m now a sane v = (
    (verify_replicate_sound m now a v, verify_replicate_complete m now a sane v),
    verify_replicate-after m now a,
  )

  signed :
      (m : ReplicateMsg) (members : List Text) (a b : RepAuth)
      → a.key ≡ b.key
      → Permᴰ m.members members
      → c.hmac a.key (replicate_input m)
        ≡ c.hmac b.key (replicate_input (record m { members = members }))
  unfolding replicate_input
  signed m members a b key p = rw (key, sort-Perm p) refl

  -- Let the receiver's guard be consistent, HMACs have 32 bytes and base64 decode what it encodes.
  -- A change message that one replica signs, another with the same key accepts, within 300 seconds
  -- and with a new nonce, even if the members arrive in another order.
  pub signed_accepted :
      (m : ReplicateMsg) (members : List Text) (now : ℕ) (a b : RepAuth)
      → IsSane c
      → IsConsistent max_seen_nonces b.guard
      → a.key ≡ b.key
      → m.op ≡ op_replicate
      → abs_diff now m.ts ≤ max_ts_skew_secs
      → answer b.guard m.nonce ≡ ok tt
      → Permᴰ m.members members
      → is_ok
          (verify_replicate c (record m { mac = sign_replicate c a m; members = members }) now b).0
        ≡ true
  unfolding sign_replicate mac_b64 replicate_input
  signed_accepted m members now a b sane v key op recent fresh p =
      verify_replicate_complete _ now b sane v (record {
        operation = op;
        authentic =
            sane.decodes _
            ∙ ap some (signed m members a b key p)
            ∙ ap (λ x. some (c.hmac b.key x))
                (replicate_input-content (record m { members = members }));
        recent = recent;
        fresh = fresh;
      })
