-- ===== src/Publisher/Live.antt =====
-- src/publisher.rs: the parts of a publication succeed where libraries encode and connections answer.
use nexus_auth.Prelude.{
  ℕ, ◌≡◌, refl, ◌∙◌, true, none, some, List, [], ◌∷◌, Text, Bytes, ok, arith, Result-cases, inl,
  inr, ◌<◌,
}
use nexus_auth.BTree.{BTreeMap, keys}
use nexus_auth.Names.{External, is_valid_service_name}
use nexus_auth.Snapshot.{ServiceState}
use nexus_auth.Policy.Types.{PolicyState}
use nexus_auth.Authority.{
  Authority, ServiceEntry, IndexDoc, WhitelistDoc, Signing, service_key, sign_payload, sign_index,
  sign_whitelist, index_key, record_key,
}
use nexus_auth.Context.{AdminRaft, Shared, System, Env}
use nexus_auth.Context.Task.{resume, attempt, feed_ind}
use nexus_auth.Publisher.{
  add_key_from, add_key_with_retry, noted, publish_each, publish, publish_all, sign_service,
  sign_services,
}
use nexus_auth.Publisher.Calls.{IsKept}
use nexus_auth.Publisher.Rounds.{listed}

-- The libraries encode what they are given.
pub record IsEncoding {V S : Type 0} (l : Signing V S) : Type 0 where
  pub to_vec : (payload signature : Bytes) → (b : Bytes) × (l.to_vec payload signature ≡ some b)
  pub index : (doc : IndexDoc) → (b : Bytes) × (l.index_cbor doc ≡ some b)
  pub whitelist : (doc : WhitelistDoc) → (b : Bytes) × (l.whitelist_cbor doc ≡ some b)

-- Every connection acknowledges, no other task takes the authority away, and the time is before `end`.
pub record IsCalm {C W V : Type 0} (env : Env C W V) (end : ℕ) : Type 0 where
  pub accepts : (c : C) (key : Text) (value : Bytes) (w : W) → (env.add_key c key value w).0 ≡ ok tt
  pub keeps_authority : (w : W) (h : Shared C V) → (env.others w h).authority ≡ h.authority
  pub early : (w : W) → (env.now_unix w).0 < end

-- The node leads and its policy is `state`.
pub record IsLeading {W : Type 0} (raft : AdminRaft W) (state : PolicyState) : Type 0 where
  pub leads : (w : W) → (raft.is_leader w).0 ≡ true
  pub policy : (w : W) → (raft.policy_snapshot w).0 ≡ state

abbrev pub ValidNames : BTreeMap Text ServiceState → Type 0
ValidNames [] = Unit
ValidNames ((name, st) ∷ m) = (is_valid_service_name name ≡ true) × ValidNames m

module _ {V S : Type 0} (l : Signing V S) (encoding : IsEncoding l) ⦃x : External⦄ where
  sign_payload_ok :
      (a : Authority) (aad payload : Bytes) → (b : Bytes) × (sign_payload l a aad payload ≡ ok b)
  unfolding sign_payload
  sign_payload_ok a aad payload =
      let t : (b : Bytes) × (l.to_vec payload (l.sign a.signing_key (l.sig_structure aad payload))
            ≡ some b) =
        encoding.to_vec payload (l.sign a.signing_key (l.sig_structure aad payload)) in
      (t.0, ground (arith, t.1))

  pub sign_index_ok : (a : Authority) (doc : IndexDoc) → (b : Bytes) × (sign_index l a doc ≡ ok b)
  unfolding sign_index
  sign_index_ok a doc =
      let p : (b : Bytes) × (l.index_cbor doc ≡ some b) = encoding.index doc in
      let t : (b : Bytes) × (sign_payload l a (index_key a) p.0 ≡ ok b) =
        sign_payload_ok a (index_key a) p.0 in
      (t.0, ground (arith, p.1, t.1))

  sign_service_ok :
      (a : Authority) (name : Text) (version : ℕ) (members : List Text)
      → is_valid_service_name name ≡ true
      → (r : ServiceEntry × Text × Bytes) × (sign_service l a (name, version, members) ≡ ok r)
  unfolding sign_service sign_whitelist service_key
  sign_service_ok a name version members v =
      let doc : WhitelistDoc = record { version = version; members = members } in
      let p : (b : Bytes) × (l.whitelist_cbor doc ≡ some b) = encoding.whitelist doc in
      elim (Result-cases (sign_service l a (name, version, members))) [
        | inl (r, e) ↦ (r, e)
        | inr (f, e) ↦
            absurd
              (ground (arith, e, v, p.1, (sign_payload_ok a (record_key a.net_hash name) p.0).1))
      ]

  pub sign_services_ok :
      (a : Authority) (m : BTreeMap Text ServiceState)
      → ValidNames m
      → (r : List ServiceEntry × List (Text × Bytes)) × (sign_services l a (listed m) ≡ ok r)
  unfolding sign_services listed
  sign_services_ok a [] v = (([], []), refl)
  sign_services_ok a ((name, st) ∷ m) (v, rest) =
      let one : (r : ServiceEntry × Text × Bytes) × (sign_service l a
              (name, st.version, keys st.members)
            ≡ ok r) =
        sign_service_ok a name st.version (keys st.members) v in
      let others : (r : List ServiceEntry × List (Text × Bytes)) × (sign_services l a (listed m)
            ≡ ok r) =
        sign_services_ok a m rest in
      ((one.0.0 ∷ others.0.0, (one.0.1, one.0.2) ∷ others.0.1), ground (arith, one.1, others.1))

module _ {C W V : Type 0} (env : Env C W V) (end : ℕ) (calm : IsCalm env end) where
  add_key_with_retry_ok :
      (c : C) (key : Text) (value : Bytes) (s : System C W V)
      → (add_key_with_retry env c key value s).0 ≡ ok tt
  unfolding add_key_with_retry add_key_from attempt
  add_key_with_retry_ok c key value s = rw (calm.accepts c key value s.world) refl

  publish_each_ok :
      (clients : List (ℕ × C)) (key : Text) (value : Bytes) (s : System C W V)
      → (publish_each env clients key value none s).0 ≡ none
  unfolding publish_each noted
  publish_each_ok [] key value s = refl
  publish_each_ok ((i, c) ∷ clients) key value s =
      rw (add_key_with_retry_ok c key value s, publish_each) (publish_each_ok clients key value _)

  pub publish_ok :
      (key : Text) (value : Bytes) (s : System C W V) → (publish env key value s).0 ≡ ok tt
  unfolding publish
  publish_ok key value s = rw (publish_each_ok s.shared.clients key value s) refl

  pub publish_all_ok :
      (pending : List (Text × Bytes)) (s : System C W V) → (publish_all env pending s).0 ≡ ok tt
  unfolding publish_all
  publish_all_ok [] s = refl
  publish_all_ok ((key, value) ∷ pending) s =
      feed_ind (λ p. p.0 ≡ ok tt) (λ _. publish_all env pending) (publish env key value s)
        (λ _ _. publish_all_ok pending _)
        (λ e h. absurd (ground (arith, h, publish_ok key value s)))

  pub authority_kept :
      (a : Authority) → IsKept env (λ _ _. Unit {0}) (λ s. s.shared.authority ≡ some a)
  unfolding resume
  authority_kept a = record {
    on_write = λ c key value s _ h. calm.keeps_authority _ s.shared ∙ h;
    on_sleep = λ ms s h. calm.keeps_authority _ s.shared ∙ h;
  }
