-- ===== src/Publisher/Entries.antt =====
-- src/publisher.rs: the entries of an index describe the whitelists that are written before it.
use Prim.Native.Nat.Ordering.{lt}
use nexus_auth.Prelude.{
  ℕ, ◌≡◌, ◌≢◌, sym, ap, subst, ◌∙◌, inl, inr, List, [], ◌∷◌, Text, Bytes, ok, arith, Result-cases,
  All, length, true,
}
use nexus_auth.Order.{text_ord, cmp_text, cmp_text_self}
use nexus_auth.BTree.{BTreeMap, keys}
use nexus_auth.BTree.Sorted.{IsSorted, Above}
use nexus_auth.Names.{External, content_hash, is_valid_service_name}
use nexus_auth.Snapshot.{ServiceState}
use nexus_auth.Authority.{
  Authority, ServiceEntry, WhitelistDoc, Signing, record_key, service_key, sign_whitelist,
}
use nexus_auth.Authority.Separate.{service_key-ok, record_key-cancel}
use nexus_auth.Publisher.{sign_service, sign_services}
use nexus_auth.Publisher.Delivery.{Spares, Coherent}
use nexus_auth.Publisher.Rounds.{listed}

name_apart : (a b : Text) → cmp_text a b ≡ lt → b ≢ a
name_apart a b h e = ground (arith, h, cmp_text_self a, e)

module _ ⦃x : External⦄ where
  -- An entry and the record of its whitelist, in the network of the hash.
  pub record Describes (net_hash : Text) (entry : ServiceEntry) (key : Text) (value : Bytes)
      : Type 0 where
    pub hashed : entry.hash ≡ content_hash value
    pub measured : entry.length ≡ length value
    pub located : key ≡ record_key net_hash entry.name
    pub valid : is_valid_service_name entry.name ≡ true

  abbrev pub DescribesAll : Text → List ServiceEntry → List (Text × Bytes) → Type 0
  DescribesAll net_hash [] [] = Unit
  DescribesAll net_hash [] (p ∷ pending) = ⊥
  DescribesAll net_hash (e ∷ entries) [] = ⊥
  DescribesAll net_hash (e ∷ entries) (p ∷ pending) =
      Describes net_hash e p.0 p.1 × DescribesAll net_hash entries pending

  module _ {V S : Type 0} (l : Signing V S) where
    sign_service-Describes :
        (a : Authority) (name : Text) (version : ℕ) (members : List Text) (entry : ServiceEntry)
        (key : Text) (value : Bytes)
        → sign_service l a (name, version, members) ≡ ok (entry, key, value)
        → Describes a.net_hash entry key value × (entry.name ≡ name)
    unfolding sign_service
    sign_service-Describes a name version members entry key value h =
        let doc : WhitelistDoc = record { version = version; members = members } in
        elim (Result-cases (sign_whitelist l a name doc)) [
          | inr (f, e) ↦ absurd (ground (arith, h, e))
          | inl (v, e) ↦ elim (Result-cases (service_key a name)) [
            | inr (f, q) ↦ absurd (ground (arith, h, e, q))
            | inl (k, q) ↦
                let named : entry.name ≡ name = ground (arith, h, e, q) in
                let same : v ≡ value = ground (arith, h, e, q) in
                let same_key : k ≡ key = ground (arith, h, e, q) in
                let told : (is_valid_service_name name ≡ true) × (k ≡ record_key a.net_hash name) =
                  service_key-ok a name k q in
                (
                  record {
                    hashed = ground (arith, h, e, q);
                    measured = ground (arith, h, e, q);
                    located = rw named (sym same_key ∙ told.1);
                    valid = rw named told.0;
                  },
                  named,
                )
          ]
        ]

    -- The parts of a signed list.
    record Parts (a : Authority) (service : Text × ℕ × List Text)
        (services : List (Text × ℕ × List Text)) (entries : List ServiceEntry)
        (pending : List (Text × Bytes)) : Type 0 where
      pub entry : ServiceEntry
      pub key : Text
      pub value : Bytes
      pub entries' : List ServiceEntry
      pub pending' : List (Text × Bytes)
      pub one : sign_service l a service ≡ ok (entry, key, value)
      pub rest : sign_services l a services ≡ ok (entries', pending')
      pub all_entries : entries ≡ (entry ∷ entries')
      pub all_pending : pending ≡ ((key, value) ∷ pending')

    sign_services-Parts :
        (a : Authority) (service : Text × ℕ × List Text) (services : List (Text × ℕ × List Text))
        (entries : List ServiceEntry) (pending : List (Text × Bytes))
        → sign_services l a (service ∷ services) ≡ ok (entries, pending)
        → Parts a service services entries pending
    unfolding sign_services
    sign_services-Parts a service services entries pending h =
        elim (Result-cases (sign_service l a service)) [
          | inr (f, e) ↦ absurd (ground (arith, h, e))
          | inl ((entry, key, value), e) ↦ elim (Result-cases (sign_services l a services)) [
            | inr (f, q) ↦ absurd (ground (arith, h, e, q))
            | inl ((entries', pending'), q) ↦ record {
              entry = entry;
              key = key;
              value = value;
              entries' = entries';
              pending' = pending';
              one = e;
              rest = q;
              all_entries = ground (arith, h, e, q);
              all_pending = ground (arith, h, e, q);
            }
          ]
        ]

    sign_services-none :
        (a : Authority) (entries : List ServiceEntry) (pending : List (Text × Bytes))
        → sign_services l a [] ≡ ok (entries, pending)
        → (entries ≡ []) × (pending ≡ [])
    unfolding sign_services
    sign_services-none a entries pending h = (ground (arith, h), ground (arith, h))

    pub sign_services-Describes :
        (a : Authority) (services : List (Text × ℕ × List Text)) (entries : List ServiceEntry)
        (pending : List (Text × Bytes))
        → sign_services l a services ≡ ok (entries, pending)
        → DescribesAll a.net_hash entries pending
    sign_services-Describes a [] entries pending h =
        let n : (entries ≡ []) × (pending ≡ []) = sign_services-none a entries pending h in
        rw (n.0, n.1) tt
    sign_services-Describes a ((name, version, members) ∷ services) entries pending h =
        let p : Parts a (name, version, members) services entries pending =
          sign_services-Parts a (name, version, members) services entries pending h in
        rw (p.all_entries, p.all_pending)
          (
            (sign_service-Describes a name version members p.entry p.key p.value p.one).0,
            sign_services-Describes a services p.entries' p.pending' p.rest,
          )

    -- The keys of later services are others.
    later-Spares :
        (a : Authority) (name : Text) (value : Bytes) (m : BTreeMap Text ServiceState)
        (entries : List ServiceEntry) (pending : List (Text × Bytes))
        → sign_services l a (listed m) ≡ ok (entries, pending)
        → Above name m
        → All (λ p. Spares (record_key a.net_hash name) value p.0 p.1) pending
    unfolding listed
    later-Spares a name value [] entries pending h b =
        rw (sign_services-none a entries pending h).1 tt
    later-Spares a name value ((j, st) ∷ m) entries pending h b =
        let p : Parts a (j, st.version, keys st.members) (listed m) entries pending =
          sign_services-Parts a (j, st.version, keys st.members) (listed m) entries pending h in
        let d : Describes a.net_hash p.entry p.key p.value × (p.entry.name ≡ j) =
          sign_service-Describes a j st.version (keys st.members) p.entry p.key p.value p.one in
        let apart : p.key ≢ record_key a.net_hash name = λ e. name_apart name j b.0 (
          record_key-cancel a.net_hash j name
            (ap (record_key a.net_hash) (sym d.1) ∙ sym d.0.located ∙ e)) in
        rw p.all_pending (inl apart, later-Spares a name value m p.entries' p.pending' p.rest b.1)

    pub sign_services-Coherent :
        (a : Authority) (m : BTreeMap Text ServiceState) (entries : List ServiceEntry)
        (pending : List (Text × Bytes))
        → IsSorted m
        → sign_services l a (listed m) ≡ ok (entries, pending)
        → Coherent pending
    unfolding listed
    sign_services-Coherent a [] entries pending o h =
        rw (sign_services-none a entries pending h).1 tt
    sign_services-Coherent a ((j, st) ∷ m) entries pending o h =
        let p : Parts a (j, st.version, keys st.members) (listed m) entries pending =
          sign_services-Parts a (j, st.version, keys st.members) (listed m) entries pending h in
        let d : Describes a.net_hash p.entry p.key p.value × (p.entry.name ≡ j) =
          sign_service-Describes a j st.version (keys st.members) p.entry p.key p.value p.one in
        let located : p.key ≡ record_key a.net_hash j =
          d.0.located ∙ ap (record_key a.net_hash) d.1 in
        rw p.all_pending (
          subst (λ k. All (λ q. Spares k p.value q.0 q.1) p.pending') (sym located)
              (later-Spares a j p.value m p.entries' p.pending' p.rest o.0),
          sign_services-Coherent a m p.entries' p.pending' o.1 p.rest,
        )
