-- ===== src/Legacy/Messages.antt =====
-- A snapshot as the messages that merging it amounts to.
use nexus_auth.Prelude.{
  ℕ, ◌≡◌, refl, sym, ap, ◌∙◌, Bool, true, false, ◌||◌, Option, none, some, List, [], ◌∷◌, Text,
  arith, is_ok, if◌then◌else◌, Result-cases, inl, inr,
}
use nexus_auth.Order.{◌≟◌, ≟_iff, text_ord, cmp_text}
use nexus_auth.Order.Max.{max_of}
use nexus_auth.BTree.{BTreeMap, BTreeSet, get, insert, collect, keys}
use nexus_auth.BTree.Sorted.{IsSorted, Above, get-Above}
use nexus_auth.Names.{External, is_valid_service_name}
use nexus_auth.Snapshot.{ServiceState}
use nexus_auth.Legacy.Types.{Store}
use nexus_auth.Legacy.Changes.{validate_peers}
use nexus_auth.Legacy.Merge.{
  merge_entry, merge_service, merge_deletion, merge_members, merge_services, merge_tombstones,
}
use nexus_auth.Legacy.Keys.{Key, cmp_key, key_ord, unknown, key_of, told, IsCleanAt, IsClean}
use nexus_auth.Legacy.Converge.{Message, accepts, tells, receive, receive_all, tell_all}

-- A sorted set is what its elements collect to.
collect-keys : (s : BTreeSet Text) → IsSorted s → collect (keys s) ≡ s
unfolding collect keys insert
collect-keys [] h = refl
collect-keys ((k, u) ∷ []) h = refl
collect-keys ((k, u) ∷ (j, v) ∷ s) h = rw (collect-keys ((j, v) ∷ s) h.1) (ground (arith, h.0.0))

-- The least key changes nothing.
max_of-unknown : (k : Key) → max_of k unknown ≡ k
unfolding cmp_key cmp_text
max_of-unknown k = ground arith

not-Above : {V : Type 0} (q k : Text) (m : BTreeMap Text V) → q ≡ k → Above k m → get q m ≡ none
not-Above q k m e a = rw e (get-Above k m a)

module _ ⦃x : External⦄ where
  -- An entry that a replica would accept: names that are valid, members in order.
  abbrev pub IsEntry : Text × ServiceState → Type 0
  IsEntry (name, state) =
      (is_valid_service_name name ≡ true)
      × (is_ok (validate_peers (keys state.members)) ≡ true)
      × IsSorted state.members

  abbrev pub Entries : BTreeMap Text ServiceState → Type 0
  Entries [] = Unit
  Entries (e ∷ m) = IsEntry e × Entries m

  abbrev pub Valid : BTreeMap Text ℕ → Type 0
  Valid [] = Unit
  Valid ((name, v) ∷ m) = (is_valid_service_name name ≡ true) × Valid m

  -- A store as its operations build it.
  pub record IsSound (s : Store) : Type 0 where
    pub clean : IsClean s
    pub services_sorted : IsSorted s.services
    pub tombstones_sorted : IsSorted s.tombstones
    pub entries : Entries s.services
    pub names : Valid s.tombstones

  pub live : ℕ → Text → ServiceState → Message
  live index name state = record {
    service = name;
    version = state.version;
    members = keys state.members;
    index_version = index;
    deleted = false;
  }

  pub gone : ℕ → Text → ℕ → Message
  gone index name v = record {
    service = name;
    version = v;
    members = [];
    index_version = index;
    deleted = true;
  }

  pub lives : ℕ → BTreeMap Text ServiceState → List Message
  unfolding live
  lives index [] = []
  lives index ((name, state) ∷ m) = live index name state ∷ lives index m

  pub gones : ℕ → BTreeMap Text ℕ → List Message
  unfolding gone
  gones index [] = []
  gones index ((name, v) ∷ m) = gone index name v ∷ gones index m

  receive-ok : (m : Message) (s : Store) → accepts m ≡ true → is_ok (receive m s).0 ≡ true
  unfolding accepts receive merge_entry merge_service merge_deletion merge_members
  receive-ok m s h = ground (arith, h)

  pub merge_services-lives :
      (index : ℕ) (m : BTreeMap Text ServiceState) (changed : Bool) (s : Store)
      → Entries m
      → (is_ok (merge_services index m changed s).0 ≡ true)
        × ((merge_services index m changed s).1 ≡ receive_all (lives index m) s)
  unfolding merge_services lives live receive accepts
  merge_services-lives index [] changed s e = (refl, refl)
  merge_services-lives index ((name, state) ∷ m) changed s e =
      let step = merge_entry name state.version (keys state.members) index false s in
      let good : is_ok step.0 ≡ true =
        receive-ok (live index name state) s (ground (arith, e.0.0, e.0.1)) in
      elim (Result-cases step.0) [
        | inr (er, q) ↦ absurd (ground (arith, q, good))
        | inl (c, q) ↦ ground (arith, q, merge_services-lives index m (changed || c) step.1 e.1)
      ]

  pub merge_tombstones-gones :
      (index : ℕ) (m : BTreeMap Text ℕ) (changed : Bool) (s : Store)
      → Valid m
      → (is_ok (merge_tombstones index m changed s).0 ≡ true)
        × ((merge_tombstones index m changed s).1 ≡ receive_all (gones index m) s)
  unfolding merge_tombstones gones gone receive accepts
  merge_tombstones-gones index [] changed s e = (refl, refl)
  merge_tombstones-gones index ((name, v) ∷ m) changed s e =
      let step = merge_entry name v [] index true s in
      let good : is_ok step.0 ≡ true = receive-ok (gone index name v) s (ground (arith, e.0)) in
      elim (Result-cases step.0) [
        | inr (er, q) ↦ absurd (ground (arith, q, good))
        | inl (c, q) ↦ ground (arith, q, merge_tombstones-gones index m (changed || c) step.1 e.1)
      ]

  lives_told :
      (index : ℕ) (name : Text) (state : ServiceState) (q : Text) (k : Key)
      → IsEntry (name, state)
      → tells (live index name state) q k
        ≡ (if q ≟ name then max_of k (told state.version state.members false) else k)
  unfolding live accepts
  lives_told index name state q k e = rw (e.0, e.1, collect-keys state.members e.2) refl

  gones_told :
      (index : ℕ) (name : Text) (v : ℕ) (q : Text) (k : Key)
      → is_valid_service_name name ≡ true
      → tells (gone index name v) q k ≡ (if q ≟ name then max_of k (told v [] true) else k)
  unfolding gone accepts
  gones_told index name v q k e = rw e refl

  -- A key with what a map says of its service taken in.
  abbrev pub absorb : {V : Type 0} → (V → Key) → Option V → Key → Key
  absorb f none k = k
  absorb f (some v) k = max_of k (f v)

  absorb_step :
      {V : Type 0} (f : V → Key) (b : Bool) (v : V) (o : Option V) (k : Key)
      → (b ≡ true → o ≡ none)
      → absorb f o (if b then max_of k (f v) else k) ≡ absorb f (if b then some v else o) k
  absorb_step f true v o k h = rw (h refl) refl
  absorb_step f false v o k h = refl

  abbrev pub of_live : ServiceState → Key
  of_live st = told st.version st.members false

  abbrev pub of_gone : ℕ → Key
  of_gone v = told v [] true

  pub lives-key :
      (index : ℕ) (m : BTreeMap Text ServiceState) (q : Text) (k : Key)
      → Entries m
      → IsSorted m
      → tell_all (lives index m) q k ≡ absorb of_live (get q m) k
  unfolding lives get
  lives-key index [] q k e s = refl
  lives-key index ((name, state) ∷ m) q k e s =
      lives-key index m q (tells (live index name state) q k) e.1 s.1
      ∙ ap (absorb of_live (get q m)) (lives_told index name state q k e.0)
      ∙ absorb_step of_live (q ≟ name) state (get q m) k
          (λ same. not-Above q name m ((≟_iff q name).0 same) s.0)

  pub gones-key :
      (index : ℕ) (m : BTreeMap Text ℕ) (q : Text) (k : Key)
      → Valid m
      → IsSorted m
      → tell_all (gones index m) q k ≡ absorb of_gone (get q m) k
  unfolding gones get
  gones-key index [] q k e s = refl
  gones-key index ((name, v) ∷ m) q k e s =
      gones-key index m q (tells (gone index name v) q k) e.1 s.1
      ∙ ap (absorb of_gone (get q m)) (gones_told index name v q k e.0)
      ∙ absorb_step of_gone (q ≟ name) v (get q m) k
          (λ same. not-Above q name m ((≟_iff q name).0 same) s.0)

  pub absorb_both :
      (o : Option ServiceState) (t : Option ℕ) (k : Key)
      → IsCleanAt o t
      → absorb of_gone t (absorb of_live o k) ≡ max_of k (key_of o t)
  absorb_both none none k c = sym (max_of-unknown k)
  absorb_both (some st) none k c = ap (max_of k) (ground (arith, c))
  absorb_both none (some v) k c = ap (max_of k) (ground (arith, c))
  absorb_both (some st) (some v) k c = elim c [ ]
