-- ===== src/Policy/Remembered.antt =====
-- The table of administrators' requests: how long a record lasts.
use nexus_auth.Prelude.{
  ℕ, zero, suc, ◌+◌, ◌≤◌, ◌<◌, ◌≡◌, refl, ◌∙◌, ◌⊎◌, inl, inr, Bool, false, none, some, List, [],
  ◌∷◌, Text, arith, length, ltb, leb, if◌then◌else◌, Bool-cases,
}
use nexus_auth.Order.{◌≟◌, ≟_self, text_ord}
use nexus_auth.BTree.{get, insert, remove, retain}
use nexus_auth.BTree.Lookup.{get-insert, get-remove}
use nexus_auth.BTree.Sorted.{IsSorted, insert-IsSorted, get-retain}
use nexus_auth.Policy.Types.{AdminRecord, PolicyCommand}
use nexus_auth.Policy.Apply.{
  dedup_max_entries, dedup_ttl_secs, oldest, oldest_from, evict_oldest, is_live, prune_dedup,
}
use nexus_auth.Policy.Dedup.{Table, Indexed}
use nexus_auth.Policy.Invariant.{prune_dedup-IsSorted}

-- How many records have an index of `i` or more.
unfoldable pub newer : ℕ → Table → ℕ
newer i [] = 0
newer i ((j, w) ∷ m) = let rest = newer i m in if leb i w.raft_index then suc rest else rest

-- A record under `k` has the index `i`.
abbrev pub At : Text → ℕ → Table → Type 0
At k i [] = Unit
At k i ((j, w) ∷ m) = (((k ≟ j) ≡ false) ⊎ (w.raft_index ≡ i)) × At k i m

oldest_from-other :
    (best : Text) (least : ℕ) (m : Table) (k : Text) (i : ℕ)
    → (i ≤ least) ⊎ ((k ≟ best) ≡ false)
    → (least < i) ⊎ (newer i m < length m)
    → At k i m
    → (k ≟ oldest_from best least m) ≡ false
unfolding oldest_from newer
oldest_from-other best least [] k i h l a = ground (arith, h, l)
oldest_from-other best least ((j, w) ∷ m) k i h l a = ground (
  arith,
  oldest_from-other (if ltb w.raft_index least then j else best)
      (if ltb w.raft_index least then w.raft_index else least) m k i,
  h,
  l,
  a,
)

oldest-other :
    (e : Text × AdminRecord) (m : Table) (k : Text) (i : ℕ)
    → newer i (e ∷ m) < length (e ∷ m)
    → At k i (e ∷ m)
    → (k ≟ oldest_from e.0 e.1.raft_index m) ≡ false
unfolding newer
oldest-other (j, w) m k i l a =
    oldest_from-other j w.raft_index m k i (ground (arith, a.0)) (ground (arith, l)) a.1

At-remove : (k j : Text) (i : ℕ) (m : Table) → At k i m → At k i (remove j m)
unfolding remove
At-remove k j i [] a = tt
At-remove k j i ((b, w) ∷ m) a = ground (arith, At-remove k j i m a.1, a)

At-retain : (k : Text) (p : AdminRecord → Bool) (i : ℕ) (m : Table) → At k i m → At k i (retain p m)
unfolding retain
At-retain k p i [] a = tt
At-retain k p i ((b, w) ∷ m) a = ground (arith, At-retain k p i m a.1, a)

At-insert :
    (k j : Text) (i : ℕ) (r : AdminRecord) (m : Table)
    → ((k ≟ j) ≡ false) ⊎ (r.raft_index ≡ i)
    → At k i m
    → At k i (insert j r m)
unfolding insert
At-insert k j i r [] h a = (h, tt)
At-insert k j i r ((b, w) ∷ m) h a = ground (arith, At-insert k j i r m h a.1, a, h)

newer-remove : (j : Text) (i : ℕ) (m : Table) → newer i (remove j m) ≤ newer i m
unfolding remove newer
newer-remove j i [] = omega arith
newer-remove j i ((b, w) ∷ m) = ground (arith, newer-remove j i m)

newer-retain : (p : AdminRecord → Bool) (i : ℕ) (m : Table) → newer i (retain p m) ≤ newer i m
unfolding retain newer
newer-retain p i [] = omega arith
newer-retain p i ((b, w) ∷ m) = ground (arith, newer-retain p i m)

newer-insert :
    (j : Text) (i : ℕ) (r : AdminRecord) (m : Table) → newer i (insert j r m) ≤ suc (newer i m)
unfolding insert newer
newer-insert j i r [] = ground arith
newer-insert j i r ((b, w) ∷ m) = ground (arith, newer-insert j i r m)

-- The record `r` is in the table, and no more than `n` records are as new as it.
pub record IsRemembered (k : Text) (r : AdminRecord) (n : ℕ) (m : Table) : Type 0 where
  pub there : get k m ≡ some r
  pub at : At k r.raft_index m
  pub few : newer r.raft_index m ≤ n

remove-IsRemembered :
    (k j : Text) (r : AdminRecord) (n : ℕ) (m : Table)
    → (k ≟ j) ≡ false
    → IsRemembered k r n m
    → IsRemembered k r n (remove j m)
remove-IsRemembered k j r n m h a = record {
  there = get-remove j k m ∙ rw h a.there;
  at = At-remove k j r.raft_index m a.at;
  few = omega (arith, newer-remove j r.raft_index m, a.few);
}

evict_oldest-IsRemembered :
    (fuel : ℕ) (k : Text) (r : AdminRecord) (n : ℕ) (m : Table)
    → n ≤ dedup_max_entries
    → IsRemembered k r n m
    → IsRemembered k r n (evict_oldest fuel m)
unfolding evict_oldest oldest
evict_oldest-IsRemembered zero k r n m h a = a
evict_oldest-IsRemembered (suc fuel) k r n [] h a = absurd (unfold get in ground (arith, a.there))
evict_oldest-IsRemembered (suc fuel) k r n (e ∷ m) h a =
    elim (Bool-cases (ltb dedup_max_entries (length (e ∷ m)))) [
      | inr fits ↦ rw (fits, evict_oldest) a
      | inl over ↦
          let j = oldest_from e.0 e.1.raft_index m in
          rw (over, evict_oldest)
            (evict_oldest-IsRemembered fuel k r n (remove j (e ∷ m)) h (
              remove-IsRemembered k j r n (e ∷ m)
                (oldest-other e m k r.raft_index (ground (arith, over, h, a.few)) a.at) a))
    ]

prune_dedup-IsRemembered :
    (now : ℕ) (k : Text) (r : AdminRecord) (n : ℕ) (m : Table)
    → n ≤ dedup_max_entries
    → now ≤ r.request_ts + dedup_ttl_secs
    → IsSorted m
    → IsRemembered k r n m
    → IsRemembered k r n (prune_dedup now m)
unfolding prune_dedup
prune_dedup-IsRemembered now k r n m h live sorted a =
    evict_oldest-IsRemembered _ k r n (retain (is_live now) m) h (record {
      there =
          get-retain k (is_live now) m sorted ∙ rw a.there (unfold is_live in ground (arith, live));
      at = At-retain k (is_live now) r.raft_index m a.at;
      few = omega (arith, newer-retain (is_live now) r.raft_index m, a.few);
    })

-- A command that an administrator dated no later than a record lasts.
abbrev pub InTime : ℕ → PolicyCommand → Type 0
InTime ts (PolicyCommand.admin request_id kid hash at command) = at ≤ ts + dedup_ttl_secs
InTime ts command = Unit

abbrev pub AllInTime : ℕ → List (PolicyCommand × ℕ) → Type 0
AllInTime ts [] = Unit
AllInTime ts ((c, i) ∷ log) = InTime ts c × AllInTime ts log

-- What a table keeps of a record, besides the order of its keys.
pub record Keeps (k : Text) (r : AdminRecord) (n : ℕ) (m : Table) : Type 0 where
  pub sorted : IsSorted m
  pub remembered : IsRemembered k r n m

-- A record of another request is made, and the table pruned.
pub recorded-Keeps :
    (k j : Text) (r q : AdminRecord) (n : ℕ) (m : Table)
    → suc n ≤ dedup_max_entries
    → q.request_ts ≤ r.request_ts + dedup_ttl_secs
    → (k ≟ j) ≡ false
    → Keeps k r n m
    → Keeps k r (suc n) (prune_dedup q.request_ts (insert j q m))
recorded-Keeps k j r q n m h live other a = record {
  sorted = prune_dedup-IsSorted q.request_ts (insert j q m) (insert-IsSorted j q m a.sorted);
  remembered =
      prune_dedup-IsRemembered q.request_ts k r (suc n) (insert j q m) h live
        (insert-IsSorted j q m a.sorted)
        (record {
          there = get-insert j k q m ∙ rw other a.remembered.there;
          at = At-insert k j r.raft_index q m (inl other) a.remembered.at;
          few = omega (arith, newer-insert j r.raft_index q m, a.remembered.few);
        });
}

pub more-Keeps :
    (k : Text) (r : AdminRecord) (n : ℕ) (m : Table) → Keeps k r n m → Keeps k r (suc n) m
more-Keeps k r n m a = record {
  sorted = a.sorted;
  remembered = record {
    there = a.remembered.there;
    at = a.remembered.at;
    few = omega (arith, a.remembered.few);
  };
}

Indexed-newer : (i : ℕ) (m : Table) → Indexed i m → newer i m ≡ 0
unfolding newer
Indexed-newer i [] h = refl
Indexed-newer i ((j, w) ∷ m) h = ground (arith, h, Indexed-newer i m)

unknown-At : (k : Text) (i : ℕ) (m : Table) → get k m ≡ none → At k i m
unfolding get
unknown-At k i [] h = tt
unknown-At k i ((j, w) ∷ m) h = ground (arith, h, unknown-At k i m)

-- A new record is kept, as the only one that is as new.
pub first-Keeps :
    (k : Text) (r : AdminRecord) (m : Table)
    → IsSorted m
    → Indexed r.raft_index m
    → get k m ≡ none
    → Keeps k r 1 (prune_dedup r.request_ts (insert k r m))
first-Keeps k r m sorted indexed fresh = record {
  sorted = prune_dedup-IsSorted r.request_ts (insert k r m) (insert-IsSorted k r m sorted);
  remembered =
      prune_dedup-IsRemembered r.request_ts k r 1 (insert k r m) (omega arith) (omega arith)
        (insert-IsSorted k r m sorted)
        (record {
          there = get-insert k k r m ∙ rw (≟_self k) refl;
          at = At-insert k k r.raft_index r m (inr refl) (unknown-At k r.raft_index m fresh);
          few =
              omega (arith, newer-insert k r.raft_index r m, Indexed-newer r.raft_index m indexed);
        });
}
