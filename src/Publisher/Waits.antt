-- ===== src/Publisher/Waits.antt =====
-- src/publisher.rs: what the writes of the whitelists and of the index keep, each of them.
use nexus_auth.Prelude.{
  ℕ, ◌≡◌, ◌≢◌, refl, sym, ap, subst, ◌∙◌, inl, some, List, [], ◌∷◌, Text, Bytes, ok, All,
}
use nexus_auth.Order.{text_ord}
use nexus_auth.BTree.Sorted.{IsSorted}
use nexus_auth.Names.{External, reserved_service}
use nexus_auth.Policy.Types.{PolicyCommand, PolicyState}
use nexus_auth.Authority.{
  Authority, ServiceEntry, IndexDoc, Signing, record_key, index_key, index_key_for, net_hash,
  sign_index,
}
use nexus_auth.Context.{AdminRaft, System, Env, AuthContext}
use nexus_auth.Context.Task.{resume}
use nexus_auth.Publisher.{publish_whitelists, publish_index, authority_of}
use nexus_auth.Publisher.Calls.{IsKept, publish_whitelists-Kept, publish_index-Kept}
use nexus_auth.Publisher.Rounds.{listed}
use nexus_auth.Publisher.Delivery.{Registered, IsStorage}
use nexus_auth.Publisher.Entries.{DescribesAll, sign_services-Describes}
use nexus_auth.Publisher.Listing.{Complete, Complete-kept, valid_apart, authority_of-net_hash}

-- The Raft node gives policies whose services are in order, and a question to it changes no record.
pub record IsPolicySource {W : Type 0} (raft : AdminRaft W) (Stored : Text → Bytes → W → Type 0)
    : Type 0 where
  pub sorted : (w : W) → IsSorted (raft.policy_snapshot w).0.services
  pub outlives_leader :
      (key : Text) (value : Bytes) (w : W)
      → Stored key value w
      → Stored key value (raft.is_leader w).1

module _ {C W V S : Type 0} (env : Env C W V) (l : Signing V S) ⦃x : External⦄ (id : ℕ) (c : C)
    (Stored : Text → Bytes → W → Type 0) (ctx : AuthContext W) (raft : AdminRaft W) where
  -- `P` holds as long as every index that is written comes after the whitelists that it lists.
  pub record IsGuarded (P : W → Type 0) : Type 0 where
    pub on_write :
        (d : C) (key : Text) (value : Bytes) (w : W)
        → key ≢ index_key_for l ctx.network
        → P w
        → P (env.add_key d key value w).1
    pub on_index :
        (d : C) (a : Authority) (doc : IndexDoc) (value : Bytes) (w : W)
        → sign_index l a doc ≡ ok value
        → Complete Stored (net_hash l ctx.network) doc.services w
        → P w
        → P (env.add_key d (index_key_for l ctx.network) value w).1
    pub on_sleep : (ms : ℕ) (w : W) → P w → P (env.sleep ms w)
    pub on_clock : (w : W) → P w → P (env.now_unix w).1
    pub on_leader : (w : W) → P w → P (raft.is_leader w).1
    pub on_snapshot : (w : W) → P w → P (raft.policy_snapshot w).1
    pub on_propose : (command : PolicyCommand) (w : W) → P w → P (raft.propose command w).1

  module _ (storage : IsStorage env id c Stored) (source : IsPolicySource raft Stored)
      (P : W → Type 0) (guarded : IsGuarded P) where
    -- The connection is registered and `P` holds.
    abbrev pub Sound : System C W V → Type 0
    Sound s = Registered id c s.shared.clients × P s.world

    Sound-kept : IsKept env (λ key value. key ≢ index_key_for l ctx.network) Sound
    unfolding resume
    Sound-kept = record {
      on_write = λ d key value s a h.
          (storage.stays _ s.shared h.0, guarded.on_write d key value s.world a h.1);
      on_sleep = λ ms s h. (storage.stays _ s.shared h.0, guarded.on_sleep ms s.world h.1);
    }

    index_key_eq :
        (s : System C W V) (a : Authority)
        → authority_of l ctx s ≡ some a
        → index_key a ≡ index_key_for l ctx.network
    unfolding index_key index_key_for
    index_key_eq s a h = ap (λ n. record_key n reserved_service) (authority_of-net_hash l ctx s a h)

    apart :
        (hash : Text) (entries : List ServiceEntry) (pending : List (Text × Bytes))
        → hash ≡ net_hash l ctx.network
        → DescribesAll hash entries pending
        → All (λ p. p.0 ≢ index_key_for l ctx.network) pending
    unfolding index_key_for
    apart hash [] [] h d = tt
    apart hash [] (p ∷ pending) h d = absurd d
    apart hash (e ∷ entries) [] h d = absurd d
    apart hash (e ∷ entries) (p ∷ pending) h d = (
      λ q.
          valid_apart hash e.name d.0.valid
            (sym d.0.located ∙ q ∙ ap (λ n. record_key n reserved_service) (sym h)),
      apart hash entries pending h d.1,
    )

    pub whitelists-Sound :
        (state : PolicyState) (s : System C W V)
        → Sound s
        → Sound (publish_whitelists env l ctx (listed state.services) s).1
    whitelists-Sound state s =
        publish_whitelists-Kept env l Sound-kept ctx (listed state.services) s
          (λ a entries pending e q.
            apart a.net_hash entries pending (authority_of-net_hash l ctx s a e)
              (sign_services-Describes l a (listed state.services) entries pending q))

    -- While an index is written, its whitelists stay.
    abbrev pub Listed : List ServiceEntry → System C W V → Type 0
    Listed entries s = Complete Stored (net_hash l ctx.network) entries s.world × Sound s

    record IsIndex (entries : List ServiceEntry) (key : Text) (value : Bytes) : Type 0 where
      pub a : Authority
      pub doc : IndexDoc
      pub signed : sign_index l a doc ≡ ok value
      pub lists : doc.services ≡ entries
      pub located : key ≡ index_key_for l ctx.network

    writes-IsIndex_kept :
        (entries : List ServiceEntry) → IsKept env (IsIndex entries) (Listed entries)
    unfolding resume index_key_for
    writes-IsIndex_kept entries = record {
      on_write = λ d key value s i h. (
        Complete-kept Stored (net_hash l ctx.network) entries s.world _
            (λ name v valid stored.
              storage.outlives_write d (record_key (net_hash l ctx.network) name) key v value
                s.world
                (inl (λ e. valid_apart (net_hash l ctx.network) name valid (sym e ∙ i.located)))
                stored)
            h.0,
        (
          storage.stays _ s.shared h.1.0,
          subst (λ k. P (env.add_key d k value s.world).1) (sym i.located)
              (guarded.on_index d i.a i.doc value s.world i.signed
                (subst (λ n. Complete Stored (net_hash l ctx.network) n s.world) (sym i.lists) h.0)
                h.1.1),
        ),
      );
      on_sleep = λ ms s h. (
        Complete-kept Stored (net_hash l ctx.network) entries s.world _
            (λ name v valid.
              storage.outlives_sleep ms (record_key (net_hash l ctx.network) name) v s.world)
            h.0,
        (storage.stays _ s.shared h.1.0, guarded.on_sleep ms s.world h.1.1),
      );
    }

    pub index-Listed :
        (version expires_at : ℕ) (entries : List ServiceEntry) (s : System C W V)
        → Listed entries s
        → Listed entries (publish_index env l ctx version expires_at entries s).1
    index-Listed version expires_at entries s =
        publish_index-Kept env l (writes-IsIndex_kept entries) ctx version expires_at entries s
          (λ a value e q. record {
            a = a;
            doc = record { version = version; expires_at = expires_at; services = entries };
            signed = q;
            lists = refl;
            located = index_key_eq s a e;
          })
