-- ===== src/Legacy/Refine.antt =====
-- Each merge takes the greater key, and the answer says whether it was the message's.
use nexus_auth.Prelude.{ℕ, ◌≡◌, true, false, [], Text, arith, if◌then◌else◌, Option-cases, inl, inr}
use nexus_auth.Order.{◌≟◌, ≟_iff, text_ord, cmp_text, cmp_text_self}
use nexus_auth.Order.Max.{max_of}
use nexus_auth.BTree.{BTreeSet, get}
use nexus_auth.BTree.Lookup.{get-insert, get-remove}
use nexus_auth.BTree.Sets.{set_eq_iff}
use nexus_auth.Names.{External}
use nexus_auth.Legacy.Types.{Store}
use nexus_auth.Legacy.Merge.{
  members_hash, current_version, tombstone_version, merge_deletion, merge_members,
}
use nexus_auth.Legacy.Keys.{cmp_key, key_ord, key_at, told, IsClean}

module _ ⦃x : External⦄ where
  pub merge_deletion-key :
      (service : Text) (v : ℕ) (s : Store) (q : Text)
      → IsClean s
      → key_at (merge_deletion service v s).1 q
        ≡ (if q ≟ service then max_of (key_at s q) (told v [] true) else key_at s q)
  unfolding merge_deletion key_at cmp_key current_version tombstone_version cmp_text
  merge_deletion-key service v s q c = ground (
    arith,
    get-insert service q v s.tombstones,
    get-remove service q s.services,
    ≟_iff q service,
    c.at_each service,
    cmp_text_self (members_hash []),
  )

  pub merge_members-key :
      (service : Text) (v : ℕ) (incoming : BTreeSet Text) (s : Store) (q : Text)
      → IsClean s
      → key_at (merge_members service v incoming s).1 q
        ≡ (if q ≟ service then max_of (key_at s q) (told v incoming false) else key_at s q)
  unfolding merge_members key_at cmp_key current_version tombstone_version
  merge_members-key service v incoming s q c = elim (Option-cases (get service s.services)) [
    | inl e ↦ ground (
      arith,
      e,
      get-insert service q (record { version = v; members = incoming }) s.services,
      get-remove service q s.tombstones,
      ≟_iff q service,
      c.at_each service,
    )
    | inr (st, e) ↦ ground (
      arith,
      e,
      get-insert service q (record { version = v; members = incoming }) s.services,
      get-remove service q s.tombstones,
      ≟_iff q service,
      c.at_each service,
      set_eq_iff st.members incoming,
      cmp_text_self (members_hash incoming),
    )
  ]

  pub merge_deletion-IsClean :
      (service : Text) (v : ℕ) (s : Store) → IsClean s → IsClean (merge_deletion service v s).1
  unfolding merge_deletion current_version tombstone_version
  merge_deletion-IsClean service v s c = record {
    at_each = λ q. ground (
      arith,
      c.at_each q,
      c.at_each service,
      get-insert service q v s.tombstones,
      get-remove service q s.services,
      ≟_iff q service,
    );
  }

  pub merge_members-IsClean :
      (service : Text) (v : ℕ) (incoming : BTreeSet Text) (s : Store)
      → IsClean s
      → IsClean (merge_members service v incoming s).1
  unfolding merge_members current_version tombstone_version
  merge_members-IsClean service v incoming s c = record {
    at_each = λ q. ground (
      arith,
      c.at_each q,
      c.at_each service,
      get-insert service q (record { version = v; members = incoming }) s.services,
      get-remove service q s.tombstones,
      ≟_iff q service,
    );
  }
