-- ===== src/Auth/Administrators.antt =====
-- Which administrators' requests are accepted, with which role, and when two requests are the same.
use nexus_auth.Prelude.{
  ℕ, ◌≤◌, ◌≡◌, refl, sym, subst, ◌∙◌, Bool, true, false, ◌||◌, Option, none, some, List, [], ◌∷◌,
  Text, Bytes, is_blank, length, ok, is_some, abs_diff, arith, Result-cases, Option-cases, inl, inr,
}
use nexus_auth.Order.{text_ord, ≟_iff, ≟_self}
use nexus_auth.BTree.{BTreeMap, get, insert, contains_key, collect}
use nexus_auth.BTree.Lookup.{get-insert}
use nexus_auth.BTree.Sorted.{ext}
use nexus_auth.BTree.Sets.{listed, contains-collect, collect-IsSorted}
use nexus_auth.Names.{External}
use nexus_auth.Replay.{check_and_insert, max_seen_nonces}
use nexus_auth.Replay.Invariant.{IsConsistent}
use nexus_auth.Replay.Window.{answer, check_and_insert-answer}
use nexus_auth.Auth.Crypto.{Crypto}
use nexus_auth.Auth.Requests.{
  AdminRole, viewer, root, is_root, AdminRequestV2, AdminCbor, AdminKeyConfig, AdminVerifier,
  VerifiedAdmin, canonical_peers, identity_of,
}
use nexus_auth.Auth.Signature.{IsSignedBy, verify_signature_sound, content, signed_of-content}
use nexus_auth.Auth.AdminV2.{
  parse_key, read_keys, from_config, verify_signature, check_form, signing_bytes, request_hash,
  check_signature, verify,
}

-- The map of keys has a root key.
pub record HasRoot {V : Type 0} (map : BTreeMap Text (V × AdminRole)) : Type 0 where
  pub kid : Text
  pub key : V
  pub there : get kid map ≡ some (key, root)

same_units : (o p : Option (Unit {0})) → is_some o ≡ is_some p → o ≡ p
same_units none none h = refl
same_units none (some u) h = ground arith
same_units (some u) none h = ground arith
same_units (some u) (some v) h = refl

same_collection :
    (xs ys : List Text) → ((p : Text) → listed p xs ≡ listed p ys) → collect xs ≡ collect ys
same_collection xs ys h =
    ext (collect xs) (collect ys) (collect-IsSorted xs) (collect-IsSorted ys)
      λ p. same_units _ _ (contains-collect p xs ∙ h p ∙ sym (contains-collect p ys))

-- Two requests that may differ in the nonce, the time stamp, the signature and the order and repetition
-- of the peers.
pub record IsRetry (r q : AdminRequestV2) : Type 0 where
  pub v : q.v ≡ r.v
  pub op : q.op ≡ r.op
  pub service : q.service ≡ r.service
  pub kid : q.kid ≡ r.kid
  pub request_id : q.request_id ≡ r.request_id
  pub member : q.member ≡ r.member
  pub join_token : q.join_token ≡ r.join_token
  pub peers : (p : Text) → listed p q.peers ≡ listed p r.peers

module _ {V S : Type 0} (c : Crypto V S) where
  one_more :
      (kid : Text) (key : V) (role : AdminRole) (map : BTreeMap Text (V × AdminRole)) (had : Bool)
      → contains_key kid map ≡ false
      → (had ≡ true → HasRoot map)
      → (had || is_root role) ≡ true
      → HasRoot (insert kid (key, role) map)
  one_more kid key root map had free known h = record {
    kid = kid;
    key = key;
    there = rw (get-insert kid kid (key, root) map, ≟_self kid) refl;
  }
  one_more kid key viewer map had free known h =
      let old = known (ground (arith, h)) in
      record {
        kid = old.kid;
        key = old.key;
        there =
            ground
              (arith, free, old.there, get-insert kid old.kid (key, viewer) map, ≟_iff old.kid kid);
      }

  read_keys-HasRoot :
      (entries : List AdminKeyConfig) (map done : BTreeMap Text (V × AdminRole))
      (has_root had : Bool)
      → read_keys c entries map had ≡ ok (done, has_root)
      → (had ≡ true → HasRoot map)
      → has_root ≡ true
      → HasRoot done
  unfolding read_keys
  read_keys-HasRoot [] map done has_root had h known r =
      let same : map ≡ done = ground (arith, h) in rw (← same) (known (ground (arith, h, r)))
  read_keys-HasRoot (entry ∷ entries) map done has_root had h known r =
      elim (Result-cases (parse_key c entry)) [
        | inr (e, q) ↦ absurd (ground (arith, q, h))
        | inl ((key, role), q) ↦
            read_keys-HasRoot entries (insert entry.kid (key, role) map) done has_root
              (had || is_root role) (ground (arith, q, h))
              (one_more entry.kid key role map had (ground (arith, q, h)) known) r
      ]

  -- Where a root key is required, a configuration that is taken has one.
  pub from_config-HasRoot :
      (entries : List AdminKeyConfig) (a : AdminVerifier V)
      → from_config c entries true ≡ ok a
      → HasRoot a.keys
  unfolding from_config
  from_config-HasRoot entries a h = elim (Result-cases (read_keys c entries [] false)) [
    | inr (e, q) ↦ absurd (ground (arith, q, h))
    | inl ((map, has_root), q) ↦
        let same : map ≡ a.keys = ground (arith, q, h) in
        rw (← same) (
          read_keys-HasRoot entries [] map has_root false q (λ e. absurd (ground arith))
            (ground (arith, q, h)))
  ]

  module _ (cbor : AdminCbor) where
    -- What a request that is accepted satisfies.
    pub record IsSigned (a : AdminVerifier V) (now : ℕ) (r : AdminRequestV2) (v : VerifiedAdmin)
        : Type 0 where
      pub version : r.v ≡ 2
      pub named : is_blank r.kid ≡ false
      pub identified : is_blank r.request_id ≡ false
      pub id_short : length r.request_id ≤ 128
      pub nonce_short : length r.nonce ≤ 64
      pub covers : cbor.signed_bytes (content r r.member r.join_token) ≡ ok v.signed_bytes
      pub signed : IsSignedBy c a.keys r.kid v.role v.signed_bytes r.sig
      pub recent : abs_diff now r.ts ≤ 300
      pub fresh : answer a.guard r.nonce ≡ ok tt
      pub kid : v.kid ≡ r.kid

    check_signature-parts :
        (a : AdminVerifier V) (r : AdminRequestV2) (role : AdminRole) (bytes : Bytes)
        → check_signature c cbor a r ≡ ok (role, bytes)
        → (check_form r ≡ ok tt)
          × (signing_bytes c cbor r ≡ ok bytes)
          × (verify_signature c a r.kid bytes r.sig ≡ ok role)
    unfolding check_signature
    check_signature-parts a r role bytes h = elim (Option-cases (get r.kid a.keys)) [
      | inl e ↦ absurd (ground (arith, e, h))
      | inr ((key, known), e) ↦ elim (Result-cases (signing_bytes c cbor r)) [
        | inr (er, q) ↦ absurd (ground (arith, e, q, h))
        | inl (b, q) ↦ elim (Result-cases (verify_signature c a r.kid b r.sig)) [
          | inr (er, f) ↦ absurd (ground (arith, e, q, f, h))
          | inl (role', f) ↦
              (ground (arith, e, q, f, h), ground (arith, e, q, f, h), ground (arith, e, q, f, h))
        ]
      ]
    ]

    same_identity : (r q : AdminRequestV2) → IsRetry r q → identity_of q ≡ identity_of r
    unfolding identity_of canonical_peers
    same_identity r q s =
        rw
          (
            s.v,
            s.op,
            s.service,
            s.kid,
            s.request_id,
            s.member,
            s.join_token,
            same_collection q.peers r.peers s.peers,
          )
          refl

    form_lem :
        (r : AdminRequestV2)
        → check_form r ≡ ok tt
        → (r.v ≡ 2)
          × (is_blank r.kid ≡ false)
          × (is_blank r.request_id ≡ false)
          × (length r.request_id ≤ 128)
          × (length r.nonce ≤ 64)
    unfolding check_form
    form_lem r h = ground (arith, h)

    signing_bytes-content :
        (r : AdminRequestV2) (bytes : Bytes)
        → signing_bytes c cbor r ≡ ok bytes
        → cbor.signed_bytes (content r r.member r.join_token) ≡ ok bytes
    unfolding signing_bytes
    signing_bytes-content r bytes h =
        subst (λ s. cbor.signed_bytes s ≡ ok bytes) (signed_of-content r) (ground (arith, h))

    -- What the signature of an accepted request says.
    pub verify_signed :
        ⦃x : External⦄ (r : AdminRequestV2) (now : ℕ) (a : AdminVerifier V) (v : VerifiedAdmin)
        → (verify c cbor r now a).0 ≡ ok v
        → (check_form r ≡ ok tt)
          × (cbor.signed_bytes (content r r.member r.join_token) ≡ ok v.signed_bytes)
          × IsSignedBy c a.keys r.kid v.role v.signed_bytes r.sig
    unfolding verify check_and_insert
    verify_signed r now a v h = elim (Result-cases (check_signature c cbor a r)) [
      | inr (e, q) ↦ absurd (ground (arith, q, h))
      | inl ((role, bytes), q) ↦
          let parts = check_signature-parts a r role bytes q in
          elim (Result-cases (request_hash c cbor r)) [
            | inr (e, f) ↦ absurd (ground (arith, q, f, h))
            | inl (hash, f) ↦
                let roles : v.role ≡ role = ground (arith, q, f, h) in
                let signed : v.signed_bytes ≡ bytes = ground (arith, q, f, h) in
                (
                  parts.0,
                  signing_bytes-content r v.signed_bytes (rw signed parts.1),
                  verify_signature_sound c a r.kid v.role v.signed_bytes r.sig
                      (rw (roles, signed) parts.2),
                )
          ]
    ]

    -- Let the guard be consistent. A request of an administrator is accepted only with version 2,
    -- a key id and a request id that are not blank, a request id of at most 128 bytes and a nonce
    -- of at most 64, a time stamp within 300 seconds and a new nonce, and with a signature that
    -- Ed25519 verifies, under the key configured for its id, over all its other fields, the peers
    -- in order and once each; the role is then the one configured with the key.
    pub verify_only_if :
        ⦃x : External⦄ (r : AdminRequestV2) (now : ℕ) (a : AdminVerifier V) (v : VerifiedAdmin)
        → IsConsistent max_seen_nonces a.guard
        → (verify c cbor r now a).0 ≡ ok v
        → IsSigned a now r v
    unfolding verify check_and_insert
    verify_only_if r now a v consistent h =
        let parts = verify_signed r now a v h in
        let form = form_lem r parts.0 in
        elim (Result-cases (check_signature c cbor a r)) [
          | inr (e, q) ↦ absurd (ground (arith, q, h))
          | inl ((role, bytes), q) ↦ elim (Result-cases (request_hash c cbor r)) [
            | inr (e, f) ↦ absurd (ground (arith, q, f, h))
            | inl (hash, f) ↦ record {
              version = form.0;
              named = form.1;
              identified = form.2;
              id_short = form.3;
              nonce_short = form.4;
              covers = parts.1;
              signed = parts.2;
              recent = ground (arith, q, h);
              fresh =
                  ground (
                    arith,
                    q,
                    h,
                    check_and_insert-answer max_seen_nonces r.nonce a.guard consistent,
                  );
              kid = ground (arith, q, f, h);
            }
          ]
        ]

    -- A retry of a request, with a new nonce, time stamp and signature or with its peers in
    -- another order or repeated, has the same hash.
    pub retry_hash :
        ⦃x : External⦄ (r q : AdminRequestV2)
        → IsRetry r q
        → request_hash c cbor q ≡ request_hash c cbor r
    unfolding request_hash
    retry_hash r q s = rw (same_identity r q s) refl
