-- ===== src/Policy/Dedup.antt =====
-- The table of administrators' requests: pruning bounds it, and never drops the newest record.
use nexus_auth.Prelude.{
  ℕ, zero, suc, ◌≤◌, ◌<◌, ◌≡◌, refl, ◌∙◌, ◌⊎◌, Bool, true, false, none, some, [], ◌∷◌, Text, arith,
  length, ltb, is_some, if◌then◌else◌, Bool-cases, inl, inr,
}
use nexus_auth.Order.{◌≟◌, ≟_iff, ≟_self, text_ord}
use nexus_auth.BTree.{BTreeMap, get, insert, remove, retain}
use nexus_auth.BTree.Lookup.{get-insert, get-remove}
use nexus_auth.BTree.Sorted.{
  IsSorted, insert-IsSorted, remove-IsSorted, retain-IsSorted, get-retain,
}
use nexus_auth.Policy.Types.{AdminRecord}
use nexus_auth.Policy.Apply.{
  dedup_max_entries, oldest, oldest_from, evict_oldest, is_live, prune_dedup,
}

abbrev pub Table : Type 0
Table = BTreeMap Text AdminRecord

length-remove-le : (k : Text) (m : Table) → length (remove k m) ≤ length m
unfolding remove
length-remove-le k [] = omega arith
length-remove-le k ((j, w) ∷ m) = ground (arith, length-remove-le k m)

length-remove-lt :
    (k : Text) (m : Table) → is_some (get k m) ≡ true → length (remove k m) < length m
unfolding remove get
length-remove-lt k [] h = ground arith
length-remove-lt k ((j, w) ∷ m) h = ground (arith, length-remove-lt k m, length-remove-le k m)

-- The key that is found is one of the table's, or the one to begin with.
oldest_from-key :
    (best : Text) (least : ℕ) (m : Table) (k : Text)
    → is_some (get k m) ≡ false
    → oldest_from best least m ≡ k
    → best ≡ k
unfolding oldest_from get
oldest_from-key best least [] k h e = e
oldest_from-key best least ((j, w) ∷ m) k h e = ground (
  arith,
  oldest_from-key (if ltb w.raft_index least then j else best)
      (if ltb w.raft_index least then w.raft_index else least) m k,
  ≟_iff k j,
)

oldest-key : (m : Table) (k : Text) → oldest m ≡ some k → is_some (get k m) ≡ true
unfolding oldest get
oldest-key [] k e = ground arith
oldest-key ((j, w) ∷ m) k e = elim (Bool-cases (is_some (get k m))) [
  | inl there ↦ ground arith
  | inr not_there ↦ ground (arith, oldest_from-key j w.raft_index m k not_there, ≟_iff k j)
]

-- The rounds that the fuel allows are enough to reach the bound.
evict_oldest-bounded :
    (fuel : ℕ) (m : Table) → length m ≤ fuel → length (evict_oldest fuel m) ≤ dedup_max_entries
unfolding evict_oldest oldest
evict_oldest-bounded zero m h = omega arith
evict_oldest-bounded (suc fuel) [] h = ground arith
evict_oldest-bounded (suc fuel) (e ∷ m) h =
    elim (Bool-cases (ltb dedup_max_entries (length (e ∷ m)))) [
      | inr fits ↦ rw (fits, evict_oldest) (ground arith)
      | inl over ↦
          let k = oldest_from e.0 e.1.raft_index m in
          rw (over, evict_oldest)
            (evict_oldest-bounded fuel (remove k (e ∷ m)) (
              omega
                (arith, length-remove-lt k (e ∷ m) (oldest-key (e ∷ m) k (unfold oldest in refl)))))
    ]

-- The entry at `k` has the index `i`, and every other entry a lower one.
abbrev NewestEntry : Text → ℕ → Text → AdminRecord → Type 0
NewestEntry k i j w =
    ((w.raft_index < i) × ((k ≟ j) ≡ false)) ⊎ ((w.raft_index ≡ i) × ((k ≟ j) ≡ true))

abbrev pub Newest : Text → ℕ → Table → Type 0
Newest k i [] = Unit
Newest k i ((j, w) ∷ m) = NewestEntry k i j w × Newest k i m

-- Every index lies below `i`.
abbrev pub Indexed : ℕ → Table → Type 0
Indexed i [] = Unit
Indexed i ((j, w) ∷ m) = (w.raft_index < i) × Indexed i m

oldest_from-ne :
    (best : Text) (least : ℕ) (m : Table) (k : Text) (i : ℕ)
    → (k ≟ best) ≡ false
    → least < i
    → Newest k i m
    → (k ≟ oldest_from best least m) ≡ false
unfolding oldest_from
oldest_from-ne best least [] k i h l n = h
oldest_from-ne best least ((j, w) ∷ m) k i h l n = ground (
  arith,
  oldest_from-ne (if ltb w.raft_index least then j else best)
      (if ltb w.raft_index least then w.raft_index else least) m k i,
)

-- In a table of two entries or more, the newest is not the oldest.
oldest-ne :
    (e d : Text × AdminRecord) (m : Table) (k : Text) (i : ℕ)
    → IsSorted (e ∷ d ∷ m)
    → Newest k i (e ∷ d ∷ m)
    → (k ≟ oldest_from e.0 e.1.raft_index (d ∷ m)) ≡ false
unfolding oldest_from
oldest-ne (a, v) (b, w) m k i s n = ground (
  arith,
  oldest_from-ne (if ltb w.raft_index v.raft_index then b else a)
      (if ltb w.raft_index v.raft_index then w.raft_index else v.raft_index) m k i,
  ≟_iff k a,
  ≟_iff k b,
  ≟_iff a b,
)

remove-Newest : (k j : Text) (i : ℕ) (m : Table) → Newest k i m → Newest k i (remove j m)
unfolding remove
remove-Newest k j i [] n = tt
remove-Newest k j i ((b, w) ∷ m) n = ground (arith, remove-Newest k j i m n.1)

retain-Newest :
    (k : Text) (p : AdminRecord → Bool) (i : ℕ) (m : Table) → Newest k i m → Newest k i (retain p m)
unfolding retain
retain-Newest k p i [] n = tt
retain-Newest k p i ((b, w) ∷ m) n = ground (arith, retain-Newest k p i m n.1)

evict_oldest-keeps :
    (fuel : ℕ) (m : Table) (k : Text) (i : ℕ)
    → IsSorted m
    → Newest k i m
    → get k (evict_oldest fuel m) ≡ get k m
unfolding evict_oldest oldest
evict_oldest-keeps zero m k i s n = refl
evict_oldest-keeps (suc fuel) [] k i s n = ground arith
evict_oldest-keeps (suc fuel) (e ∷ []) k i s n = ground arith
evict_oldest-keeps (suc fuel) (e ∷ d ∷ m) k i s n =
    elim (Bool-cases (ltb dedup_max_entries (length (e ∷ d ∷ m)))) [
      | inr fits ↦ rw (fits, evict_oldest)
      | inl over ↦
          let j = oldest_from e.0 e.1.raft_index (d ∷ m) in
          rw (over, evict_oldest)
            (evict_oldest-keeps fuel (remove j (e ∷ d ∷ m)) k i (remove-IsSorted j (e ∷ d ∷ m) s)
                (remove-Newest k j i (e ∷ d ∷ m) n)
              ∙ get-remove j k (e ∷ d ∷ m)
              ∙ rw (oldest-ne e d m k i s n))
    ]

Indexed-Newest : (k : Text) (i : ℕ) (m : Table) → get k m ≡ none → Indexed i m → Newest k i m
unfolding get
Indexed-Newest k i [] h x = tt
Indexed-Newest k i ((j, w) ∷ m) h x = ground (arith, Indexed-Newest k i m)

insert-Newest :
    (k : Text) (i : ℕ) (r : AdminRecord) (m : Table)
    → r.raft_index ≡ i
    → Newest k i m
    → Newest k i (insert k r m)
unfolding insert
insert-Newest k i r [] e n = (inr (e, ≟_self k), tt)
insert-Newest k i r ((j, w) ∷ m) e n = ground (arith, insert-Newest k i r m e n.1, ≟_self k)

-- The record that was just made survives the pruning, whatever the table holds.
pub prune_dedup-newest :
    (k : Text) (r : AdminRecord) (m : Table)
    → IsSorted m
    → Indexed r.raft_index m
    → get k m ≡ none
    → get k (prune_dedup r.request_ts (insert k r m)) ≡ some r
unfolding prune_dedup
prune_dedup-newest k r m s x h =
    let full = insert k r m in
    let s' = insert-IsSorted k r m s in
    evict_oldest-keeps _ (retain (is_live r.request_ts) full) k r.raft_index
      (retain-IsSorted _ full s')
      (retain-Newest k _ r.raft_index full
        (insert-Newest k r.raft_index r m refl (Indexed-Newest k r.raft_index m h x)))
    ∙ get-retain k (is_live r.request_ts) full s'
    ∙ rw (get-insert k k r m, ≟_self k) (unfold is_live in ground arith)

pub prune_dedup-bounded : (now : ℕ) (m : Table) → length (prune_dedup now m) ≤ dedup_max_entries
unfolding prune_dedup
prune_dedup-bounded now m = evict_oldest-bounded _ (retain (is_live now) m) (omega arith)
