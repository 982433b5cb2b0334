-- ===== src/Legacy/Contents.antt =====
-- Where the hash has no collisions, stores in agreement hold the same services and tombstones.
use nexus_auth.Prelude.{
  ℕ, ◌≡◌, refl, sym, ap, ap₂, Bool, true, not, Option, none, some, List, [], ◌∷◌, ◌++◌, Text, Bytes,
  arith, is_ok, ◌==◌, all,
}
use mathlib.Core.List.{Permᴰ}
use nexus_auth.Order.{text_ord}
use nexus_auth.BTree.{BTreeSet, get, insert, collect, keys}
use nexus_auth.BTree.Lookup.{get-insert, get-remove}
use nexus_auth.Names.{External, is_valid_peer_id, content_hash}
use nexus_auth.Snapshot.{ServiceState}
use nexus_auth.Legacy.Types.{Store}
use nexus_auth.Legacy.Changes.{validate_peers}
use nexus_auth.Legacy.Merge.{
  members_buffer, members_hash, merge_entry, merge_service, merge_deletion, merge_members,
}
use nexus_auth.Legacy.Keys.{key_at, key_of, IsClean, IsCleanAt}
use nexus_auth.Legacy.Converge.{Message, Agree, receive, receive_all, receive_all-IsClean, converge}

-- A name with no zero byte.
abbrev pub plain : Text → Bool
plain s = all (λ b. not (b == 0)) s

split_name :
    (a b : Text) (u v : Bytes)
    → plain a ≡ true
    → plain b ≡ true
    → a ++ (0 ∷ u) ≡ b ++ (0 ∷ v)
    → (a ≡ b) × (u ≡ v)
unfolding all
split_name [] [] u v p q h = ground (arith, h)
split_name [] (y ∷ b) u v p q h = ground (arith, q, h)
split_name (x ∷ a) [] u v p q h = ground (arith, p, h)
split_name (x ∷ a) (y ∷ b) u v p q h = ground (arith, p, q, h, split_name a b u v)

buffer_apart : (n : Text) (u : Bytes) → [] ≡ n ++ (0 ∷ u) → ⊥
buffer_apart [] u h = ground (arith, h)
buffer_apart (y ∷ n) u h = ground (arith, h)

same_buffer :
    (ms ns : List Text)
    → all plain ms ≡ true
    → all plain ns ≡ true
    → members_buffer ms ≡ members_buffer ns
    → ms ≡ ns
unfolding all members_buffer
same_buffer [] [] p q h = refl
same_buffer [] (n ∷ ns) p q h = absurd (buffer_apart n (members_buffer ns) h)
same_buffer (m ∷ ms) [] p q h = absurd (buffer_apart m (members_buffer ms) (sym h))
same_buffer (m ∷ ms) (n ∷ ns) p q h =
    let (first, rest) =
      split_name m n (members_buffer ms) (members_buffer ns) (ground (arith, p)) (ground (arith, q))
        h in
    ap₂ (λ x xs. x ∷ xs) first (same_buffer ms ns (ground (arith, p)) (ground (arith, q)) rest)

same_keys : (s t : BTreeSet Text) → keys s ≡ keys t → s ≡ t
unfolding keys
same_keys [] [] h = refl
same_keys [] ((j, v) ∷ t) h = ground (arith, h)
same_keys ((k, u) ∷ s) [] h = ground (arith, h)
same_keys ((k, u) ∷ s) ((j, v) ∷ t) h = ground (arith, h, same_keys s t)

insert-plain :
    (k : Text) (s : BTreeSet Text)
    → plain k ≡ true
    → all plain (keys s) ≡ true
    → all plain (keys (insert k tt s)) ≡ true
unfolding keys insert all
insert-plain k [] p h = ground (arith, p)
insert-plain k ((j, v) ∷ s) p h = ground (arith, p, h, insert-plain k s p)

-- SHA-256 with no collision, and peer ids that hold no zero byte.
pub record IsIdeal (x : External) : Type 0 where
  pub injective : (a b : Bytes) → x.sha256 a ≡ x.sha256 b → a ≡ b
  pub peers_plain : (s : Text) → x.parses_peer_id s ≡ true → plain s ≡ true

-- The members of a service are names with no zero byte.
abbrev pub PlainAt : Option ServiceState → Type 0
PlainAt none = Unit
PlainAt (some st) = all plain (keys st.members) ≡ true

pub record IsPlain (s : Store) : Type 0 where
  pub members : (q : Text) → PlainAt (get q s.services)

module _ ⦃x : External⦄ (ideal : IsIdeal x) where
  collect-plain :
      (peers : List Text)
      → is_ok (validate_peers peers) ≡ true
      → all plain (keys (collect peers)) ≡ true
  unfolding validate_peers collect is_valid_peer_id all keys
  collect-plain [] h = refl
  collect-plain (p ∷ ps) h =
      insert-plain p (collect ps) (ideal.peers_plain p (ground (arith, h)))
        (collect-plain ps (ground (arith, h)))

  same_hash :
      (a b : BTreeSet Text)
      → all plain (keys a) ≡ true
      → all plain (keys b) ≡ true
      → members_hash a ≡ members_hash b
      → a ≡ b
  unfolding members_hash content_hash
  same_hash a b p q h = same_keys a b (same_buffer (keys a) (keys b) p q (ideal.injective _ _ h))

  merge_deletion-IsPlain :
      (service : Text) (v : ℕ) (s : Store) → IsPlain s → IsPlain (merge_deletion service v s).1
  unfolding merge_deletion
  merge_deletion-IsPlain service v s p = record {
    members = λ q. ground (arith, p.members q, get-remove service q s.services);
  }

  merge_members-IsPlain :
      (service : Text) (v : ℕ) (incoming : BTreeSet Text) (s : Store)
      → all plain (keys incoming) ≡ true
      → IsPlain s
      → IsPlain (merge_members service v incoming s).1
  unfolding merge_members
  merge_members-IsPlain service v incoming s h p = record {
    members = λ q. ground (
      arith,
      h,
      p.members q,
      get-insert service q (record { version = v; members = incoming }) s.services,
    );
  }

  merge_service-IsPlain :
      (m : Message) (s : Store)
      → IsPlain s
      → IsPlain (merge_service m.service m.version m.members m.deleted s).1
  unfolding merge_service
  merge_service-IsPlain m s p = ground (
    arith,
    p,
    collect-plain m.members,
    merge_deletion-IsPlain m.service m.version s p,
    λ (h : all plain (keys (collect m.members)) ≡ true).
        merge_members-IsPlain m.service m.version (collect m.members) s h p,
  )

  with_index-IsPlain : (s : Store) (i : ℕ) → IsPlain s → IsPlain (record s { index_version = i })
  with_index-IsPlain s i p = record { members = p.members }

  receive-IsPlain : (m : Message) (s : Store) → IsPlain s → IsPlain (receive m s).1
  unfolding receive merge_entry
  receive-IsPlain m s p = ground (
    arith,
    merge_service-IsPlain m s p,
    with_index-IsPlain (merge_service m.service m.version m.members m.deleted s).1 m.index_version,
  )

  receive_all-IsPlain : (ms : List Message) (s : Store) → IsPlain s → IsPlain (receive_all ms s)
  receive_all-IsPlain [] s p = p
  receive_all-IsPlain (m ∷ ms) s p = receive_all-IsPlain ms (receive m s).1 (receive-IsPlain m s p)

  same_at :
      (o p : Option ServiceState) (t u : Option ℕ)
      → IsCleanAt o t
      → IsCleanAt p u
      → PlainAt o
      → PlainAt p
      → key_of o t ≡ key_of p u
      → (o ≡ p) × (t ≡ u)
  same_at none none none none c d a b h = (refl, refl)
  same_at none none none (some u) c d a b h = ground (arith, d, h)
  same_at none none (some t) none c d a b h = ground (arith, c, h)
  same_at none none (some t) (some u) c d a b h = ground (arith, h)
  same_at none (some p) none none c d a b h = ground (arith, d, h)
  same_at none (some p) (some t) none c d a b h = ground (arith, h)
  same_at none (some p) t (some u) c d a b h = elim d [ ]
  same_at (some o) none none none c d a b h = ground (arith, c, h)
  same_at (some o) none none (some u) c d a b h = ground (arith, h)
  same_at (some o) p (some t) u c d a b h = elim c [ ]
  same_at (some o) (some p) none none c d a b h =
      let sets : o.members ≡ p.members = same_hash o.members p.members a b (ap (λ k. k.hash) h) in
      (ap₂ (λ v ms. some (record { version = v; members = ms })) (ap (λ k. k.version) h) sets, refl)
  same_at (some o) (some p) none (some u) c d a b h = elim d [ ]

  -- Let SHA-256 have no collision and peer ids no zero byte. Let two stores be in agreement, with
  -- no live service that has a tombstone, no version 0, and members with no zero byte. If they
  -- receive the same messages in any two orders, they hold the same services, with the same
  -- members and versions, and the same tombstones.
  pub converge_contents :
      {ms ns : List Message}
      → Permᴰ ms ns
      → (s t : Store) → IsClean s
      → IsClean t
      → IsPlain s
      → IsPlain t
      → Agree s t
      → (q : Text)
      → (get q (receive_all ms s).services ≡ get q (receive_all ns t).services)
        × (get q (receive_all ms s).tombstones ≡ get q (receive_all ns t).tombstones)
  unfolding key_at
  converge_contents {ms} {ns} p s t c d a b agree q =
      let last = converge p s t c d agree in
      same_at _ _ _ _ (IsClean.at_each (receive_all-IsClean ms s c) q)
        (IsClean.at_each (receive_all-IsClean ns t d) q)
        (IsPlain.members (receive_all-IsPlain ms s a) q)
        (IsPlain.members (receive_all-IsPlain ns t b) q) (last.keys q)
