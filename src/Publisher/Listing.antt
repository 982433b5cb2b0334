-- ===== src/Publisher/Listing.antt =====
-- src/publisher.rs: the whitelists that an index lists are stored once they are all published.
use nexus_auth.Prelude.{
  ℕ, ◌≡◌, ◌≢◌, subst, inl, inr, true, some, List, [], ◌∷◌, Text, Bytes, ok, arith, Result-cases,
  Option-cases, All,
}
use nexus_auth.Order.{text_ord}
use nexus_auth.BTree.{BTreeMap}
use nexus_auth.BTree.Sorted.{IsSorted}
use nexus_auth.Names.{External, is_valid_service_name, reserved_service}
use nexus_auth.Snapshot.{ServiceState}
use nexus_auth.Authority.{Authority, ServiceEntry, Signing, record_key, net_hash, from_seed}
use nexus_auth.Authority.Separate.{record_key-cancel, reserved_refused}
use nexus_auth.Context.{System, Env, AuthContext}
use nexus_auth.Publisher.{publish_all, publish_whitelists, sign_services, authority_of}
use nexus_auth.Publisher.Rounds.{listed}
use nexus_auth.Publisher.Delivery.{Registered, IsStorage, publish_all-Stored}
use nexus_auth.Publisher.Entries.{
  Describes, DescribesAll, sign_services-Describes, sign_services-Coherent,
}

module _ ⦃x : External⦄ where
  -- The whitelist that an entry describes is stored.
  pub record IsThere {W : Type 0} (Stored : Text → Bytes → W → Type 0) (hash : Text)
      (entry : ServiceEntry) (w : W) : Type 0 where
    pub value : Bytes
    pub described : Describes hash entry (record_key hash entry.name) value
    pub stored : Stored (record_key hash entry.name) value w

  -- All the whitelists of an index are stored.
  abbrev pub Complete :
      {W : Type 0} → (Text → Bytes → W → Type 0) → Text → List ServiceEntry → W → Type 0
  Complete Stored hash entries w = All (λ e. IsThere Stored hash e w) entries

  pub described-IsThere :
      {W : Type 0} (Stored : Text → Bytes → W → Type 0) (hash : Text) (entries : List ServiceEntry)
      (pending : List (Text × Bytes)) (w : W)
      → DescribesAll hash entries pending
      → All (λ p. Stored p.0 p.1 w) pending
      → Complete Stored hash entries w
  described-IsThere Stored hash [] [] w d a = tt
  described-IsThere Stored hash [] (p ∷ pending) w d a = absurd d
  described-IsThere Stored hash (e ∷ entries) [] w d a = absurd d
  described-IsThere Stored hash (e ∷ entries) (p ∷ pending) w d a = (
    record {
      value = p.1;
      described = subst (λ k. Describes hash e k p.1) d.0.located d.0;
      stored = subst (λ k. Stored k p.1 w) d.0.located a.0;
    },
    described-IsThere Stored hash entries pending w d.1 a.1,
  )

  -- What a whitelist that is there survives, all of them survive.
  pub Complete-kept :
      {W : Type 0} (Stored : Text → Bytes → W → Type 0) (hash : Text) (entries : List ServiceEntry)
      (w w' : W)
      → ((name : Text) (value : Bytes)
          → is_valid_service_name name ≡ true
          → Stored (record_key hash name) value w
          → Stored (record_key hash name) value w')
      → Complete Stored hash entries w
      → Complete Stored hash entries w'
  Complete-kept Stored hash [] w w' keeps a = tt
  Complete-kept Stored hash (e ∷ entries) w w' keeps (a, rest) = (
    record {
      value = a.value;
      described = a.described;
      stored = keeps e.name a.value a.described.valid a.stored;
    },
    Complete-kept Stored hash entries w w' keeps rest,
  )

  pub valid_apart :
      (hash name : Text)
      → is_valid_service_name name ≡ true
      → record_key hash name ≢ record_key hash reserved_service
  valid_apart hash name v e =
      let e' : name ≡ reserved_service = record_key-cancel hash name reserved_service e in
      cc (e', v, reserved_refused)

  module _ {C W V S : Type 0} (l : Signing V S) where
    pub authority_of-net_hash :
        (ctx : AuthContext W) (s : System C W V) (a : Authority)
        → authority_of l ctx s ≡ some a
        → a.net_hash ≡ net_hash l ctx.network
    unfolding authority_of from_seed
    authority_of-net_hash ctx s a h = ground (arith, h)

module _ {C W V S : Type 0} (env : Env C W V) (l : Signing V S) ⦃x : External⦄ (id : ℕ) (c : C)
    (Stored : Text → Bytes → W → Type 0) (storage : IsStorage env id c Stored)
    (ctx : AuthContext W) where
  -- All whitelists that were published without an error are stored, and the entries describe them.
  pub publish_whitelists-Complete :
      (m : BTreeMap Text ServiceState) (entries : List ServiceEntry) (s : System C W V)
      → IsSorted m
      → Registered id c s.shared.clients
      → (publish_whitelists env l ctx (listed m) s).0 ≡ ok entries
      → Complete Stored
          (net_hash l ctx.network)
          entries
          (publish_whitelists env l ctx (listed m) s).1.world
  unfolding publish_whitelists
  publish_whitelists-Complete m entries s o r h = elim (Option-cases (authority_of l ctx s)) [
    | inl e ↦ absurd (ground (arith, h, e))
    | inr (a, e) ↦ elim (Result-cases (sign_services l a (listed m))) [
      | inr (f, q) ↦ absurd (ground (arith, h, e, q))
      | inl ((entries', pending), q) ↦ elim (Result-cases (publish_all env pending s).0) [
        | inr (f, t) ↦ absurd (ground (arith, h, e, q, t))
        | inl (_, t) ↦
            let same : entries' ≡ entries = ground (arith, h, e, q, t) in
            let after : (publish_whitelists env l ctx (listed m) s).1
                ≡ (publish_all env pending s).1 =
              ground (arith, h, e, q, t) in
            rw after (
              subst (λ n. Complete Stored n entries (publish_all env pending s).1.world)
                (authority_of-net_hash l ctx s a e)
                (subst (λ n. Complete Stored a.net_hash n (publish_all env pending s).1.world) same
                  (described-IsThere Stored a.net_hash entries' pending _
                    (sign_services-Describes l a (listed m) entries' pending q)
                    (publish_all-Stored env id c Stored storage pending s
                      (sign_services-Coherent l a m entries' pending o q) r t))))
      ]
    ]
  ]
