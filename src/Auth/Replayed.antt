-- ===== src/Auth/Replayed.antt =====
-- A change message that is sent again.
use nexus_auth.Prelude.{
  ℕ, ◌≤◌, ◌<◌, ◌≡◌, refl, ap, ◌∙◌, List, [], ◌∷◌, ◌++◌, Text, Bytes, length, length-append,
  if◌then◌else◌, ok, err, ltb, abs_diff, arith, Bool-cases, inl, inr,
}
use nexus_auth.Order.{text_ord, ≟_iff, ≟_self}
use nexus_auth.Replay.{ReplayGuard, replay, check_and_insert, check_all, max_seen_nonces}
use nexus_auth.Replay.Invariant.{IsConsistent}
use nexus_auth.Replay.Window.{replay_refused}
use nexus_auth.Auth.Crypto.{Crypto}
use nexus_auth.Auth.Replicate.{
  ReplicateMsg, SyncRequest, RepAuth, expired_timestamp, replayed, max_ts_skew_secs, op_replicate,
  replicate_input, verify_mac, check_fresh, verify_replicate, verify_sync_request,
}

module _ {V S : Type 0} (c : Crypto V S) where
  -- The requests that pass through one guard.
  pub data Traffic : Type 0 where
    change : ReplicateMsg → ℕ → Traffic
    request : SyncRequest → ℕ → Traffic

  unfoldable pub pass : Traffic → RepAuth → RepAuth
  pass (change m now) a = (verify_replicate c m now a).1
  pass (request r now) a = (verify_sync_request c r now a).1

  unfoldable pub pass_all : List Traffic → RepAuth → RepAuth
  pass_all [] a = a
  pass_all (t ∷ ts) a = pass_all ts (pass t a)

  -- A call hands the guard at most one nonce.
  pub record Hands (limit : ℕ) (a b : RepAuth) : Type 0 where
    pub nonces : List Text
    pub few : length nonces ≤ limit
    pub guard : b.guard ≡ check_all max_seen_nonces nonces a.guard
    pub key : b.key ≡ a.key

  none_handed : (limit : ℕ) (a : RepAuth) → Hands limit a a
  unfolding check_all
  none_handed limit a = record { nonces = []; few = omega arith; guard = refl; key = refl }

  check_fresh-Hands :
      (nonce : Text) (ts now : ℕ) (a : RepAuth) → Hands 1 a (check_fresh c nonce ts now a).1
  unfolding check_fresh check_all check_and_insert
  check_fresh-Hands nonce ts now a = elim (Bool-cases (ltb max_ts_skew_secs (abs_diff now ts))) [
    | inl e ↦ rw (e, check_fresh) (none_handed 1 a)
    | inr e ↦ record {
      nonces = nonce ∷ [];
      few = omega arith;
      guard = ground (arith, e);
      key = ground (arith, e);
    }
  ]

  pass-Hands : (t : Traffic) (a : RepAuth) → Hands 1 a (pass t a)
  unfolding pass verify_replicate verify_sync_request
  pass-Hands (change m now) a =
      ground (arith, none_handed 1 a, check_fresh-Hands m.nonce m.ts now a)
  pass-Hands (request r now) a =
      ground (arith, none_handed 1 a, check_fresh-Hands r.nonce r.ts now a)

  check_all-append :
      (xs ys : List Text) (g : ReplayGuard)
      → check_all max_seen_nonces ys (check_all max_seen_nonces xs g)
        ≡ check_all max_seen_nonces (xs ++ ys) g
  unfolding check_all
  check_all-append [] ys g = refl
  check_all-append (x ∷ xs) ys g = check_all-append xs ys _

  pass_all-Hands : (ts : List Traffic) (a : RepAuth) → Hands (length ts) a (pass_all ts a)
  unfolding pass_all
  pass_all-Hands [] a = none_handed 0 a
  pass_all-Hands (t ∷ ts) a =
      let one = pass-Hands t a in
      let rest = pass_all-Hands ts (pass t a) in
      record {
        nonces = one.nonces ++ rest.nonces;
        few = omega (arith, one.few, rest.few, length-append {0} one.nonces rest.nonces);
        guard =
            rest.guard
            ∙ ap (check_all max_seen_nonces rest.nonces) one.guard
            ∙ check_all-append one.nonces rest.nonces a.guard;
        key = rest.key ∙ one.key;
      }

  accepted_guard :
      (m : ReplicateMsg) (now : ℕ) (a : RepAuth)
      → (verify_replicate c m now a).0 ≡ ok tt
      → (check_and_insert m.nonce a.guard ≡ (ok tt, (verify_replicate c m now a).1.guard))
        × ((verify_replicate c m now a).1.key ≡ a.key)
        × (m.op ≡ op_replicate)
        × (verify_mac c a (replicate_input m) m.mac ≡ ok tt)
  unfolding verify_replicate check_fresh
  accepted_guard m now a h = (
    ground (arith, h),
    ground (arith, h),
    ground (arith, h, ≟_iff m.op op_replicate),
    ground (arith, h),
  )

  verify_mac-key :
      (a b : RepAuth) (input : Bytes) (mac : Text)
      → b.key ≡ a.key
      → verify_mac c b input mac ≡ verify_mac c a input mac
  unfolding verify_mac
  verify_mac-key a b input mac e = rw e refl

  replayed_or_old :
      (m : ReplicateMsg) (later : ℕ) (b : RepAuth)
      → m.op ≡ op_replicate
      → verify_mac c b (replicate_input m) m.mac ≡ ok tt
      → (check_and_insert m.nonce b.guard).0 ≡ err replay
      → (verify_replicate c m later b).0 ≡ (
          if ltb max_ts_skew_secs (abs_diff later m.ts)
          then err expired_timestamp
          else err replayed)
  unfolding verify_replicate check_fresh
  replayed_or_old m later b op mac seen = ground (arith, op, mac, seen, ≟_self op_replicate)

  -- Let a change message be accepted by a replica whose guard is consistent. If it arrives again
  -- after fewer than ten thousand other messages, it is refused: as too old once its time stamp
  -- is, and else as a replay.
  pub replay_after_traffic :
      (m : ReplicateMsg) (now later : ℕ) (a : RepAuth) (ts : List Traffic)
      → IsConsistent max_seen_nonces a.guard
      → (verify_replicate c m now a).0 ≡ ok tt
      → length ts < max_seen_nonces
      → (verify_replicate c m later (pass_all ts (verify_replicate c m now a).1)).0 ≡ (
          if ltb max_ts_skew_secs (abs_diff later m.ts)
          then err expired_timestamp
          else err replayed)
  replay_after_traffic m now later a ts v h few =
      let first = accepted_guard m now a h in
      let between = pass_all-Hands ts (verify_replicate c m now a).1 in
      let b = pass_all ts (verify_replicate c m now a).1 in
      replayed_or_old m later b first.2
        (verify_mac-key a b (replicate_input m) m.mac (between.key ∙ first.1) ∙ first.3)
        (ap (λ g. (check_and_insert m.nonce g).0) between.guard
          ∙ replay_refused m.nonce between.nonces a.guard _ v first.0 (omega (arith, between.few)))
