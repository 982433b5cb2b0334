-- ===== src/BTree/Sorted.antt =====
-- The keys of a map rise strictly, which every operation keeps, and two such maps with the same
-- lookups are equal.
use Prim.Native.Nat.Ordering.{lt}
use nexus_auth.Prelude.{
  ◌+◌, ◌≤◌, ◌≡◌, refl, Bool, Option, none, some, [], ◌∷◌, arith, if◌then◌else◌, is_some, length,
}
use nexus_auth.Order.{Ord, ≟_iff, ≟_self}
use nexus_auth.BTree.{BTreeMap, get, insert, remove, retain}

abbrev pub keep {ℓ} : {V : Type ℓ} → (V → Bool) → Option V → Option V
keep p none = none
keep p (some v) = if p v then some v else none

module _ {ℓ κ} {K : Type ℓ} {V : Type κ} ⦃o : Ord K⦄ where
  abbrev pub Above : K → BTreeMap K V → Type 0
  Above k [] = Unit
  Above k ((j, w) ∷ m) = (o.cmp k j ≡ lt) × Above k m

  abbrev pub IsSorted : BTreeMap K V → Type 0
  IsSorted [] = Unit
  IsSorted ((k, v) ∷ m) = Above k m × IsSorted m

  Above-chain : (k j : K) (m : BTreeMap K V) → o.cmp k j ≡ lt → Above j m → Above k m
  Above-chain k j [] h a = tt
  Above-chain k j ((i, w) ∷ m) h a = (o.cmp_chain k j i h a.0, Above-chain k j m h a.1)

  Above-insert :
      (k j : K) (v : V) (m : BTreeMap K V) → o.cmp k j ≡ lt → Above k m → Above k (insert j v m)
  unfolding insert
  Above-insert k j v [] h a = (h, tt)
  Above-insert k j v ((i, w) ∷ m) h a = ground (arith, Above-insert k j v m h a.1)

  Above-eq : (k j : K) (m : BTreeMap K V) → k ≡ j → Above j m → Above k m
  Above-eq k j m e a = rw e a

  pub insert-IsSorted : (k : K) (v : V) (m : BTreeMap K V) → IsSorted m → IsSorted (insert k v m)
  unfolding insert
  insert-IsSorted k v [] s = (tt, tt)
  insert-IsSorted k v ((j, w) ∷ m) s = ground (
    arith,
    insert-IsSorted k v m s.1,
    Above-chain k j m,
    Above-eq k j m,
    o.cmp_sound k j,
    o.cmp_flip' k j,
    Above-insert j k v m,
  )

  Above-remove : (k j : K) (m : BTreeMap K V) → Above k m → Above k (remove j m)
  unfolding remove
  Above-remove k j [] a = tt
  Above-remove k j ((i, w) ∷ m) a = ground (arith, Above-remove k j m a.1)

  pub remove-IsSorted : (k : K) (m : BTreeMap K V) → IsSorted m → IsSorted (remove k m)
  unfolding remove
  remove-IsSorted k [] s = tt
  remove-IsSorted k ((j, w) ∷ m) s = ground (arith, remove-IsSorted k m s.1, Above-remove j k m s.0)

  Above-retain : (k : K) (p : V → Bool) (m : BTreeMap K V) → Above k m → Above k (retain p m)
  unfolding retain
  Above-retain k p [] a = tt
  Above-retain k p ((i, w) ∷ m) a = ground (arith, Above-retain k p m a.1)

  pub retain-IsSorted : (p : V → Bool) (m : BTreeMap K V) → IsSorted m → IsSorted (retain p m)
  unfolding retain
  retain-IsSorted p [] s = tt
  retain-IsSorted p ((j, w) ∷ m) s = ground (arith, retain-IsSorted p m s.1, Above-retain j p m s.0)

  -- A key below all others is not there.
  pub get-Above : (k : K) (m : BTreeMap K V) → Above k m → get k m ≡ none
  unfolding get
  get-Above k [] a = refl
  get-Above k ((j, w) ∷ m) a = ground (arith, get-Above k m a.1)

  pub get-retain :
      (k : K) (p : V → Bool) (m : BTreeMap K V) → IsSorted m → get k (retain p m) ≡ keep p (get k m)
  unfolding get retain
  get-retain k p [] s = refl
  get-retain k p ((j, w) ∷ m) s = ground (arith, get-retain k p m s.1, ≟_iff k j, get-Above j m s.0)

  pub length-insert :
      (k : K) (v : V) (m : BTreeMap K V)
      → IsSorted m
      → length (insert k v m) ≡ (if is_some (get k m) then length m else length m + 1)
  unfolding insert get
  length-insert k v [] s = refl
  length-insert k v ((j, w) ∷ m) s =
      ground (
        arith,
        length-insert k v m s.1,
        get-Above k m,
        Above-chain k j m,
        o.cmp_sound k j,
        ≟_iff k j,
      )

  pub length-retain-le : (p : V → Bool) (m : BTreeMap K V) → length (retain p m) ≤ length m
  unfolding retain
  length-retain-le p [] = omega arith
  length-retain-le p ((j, w) ∷ m) = ground (arith, length-retain-le p m)

  pub length-remove :
      (k : K) (m : BTreeMap K V)
      → IsSorted m
      → length (remove k m) + (if is_some (get k m) then 1 else 0) ≡ length m
  unfolding remove get
  length-remove k [] s = refl
  length-remove k ((j, w) ∷ m) s =
      ground (arith, length-remove k m s.1, ≟_iff k j, get-Above j m s.0)

  same_rest :
      (k : K) (v : V) (m : BTreeMap K V) (j : K) (w : V) (n : BTreeMap K V)
      → k ≡ j
      → Above k m
      → Above j n
      → ((i : K) → get i ((k, v) ∷ m) ≡ get i ((j, w) ∷ n))
      → (i : K) → get i m ≡ get i n
  unfolding get
  same_rest k v m j w n e a b h i = ground (
    arith,
    h i,
    ≟_iff i k,
    ≟_iff i j,
    get-Above i m,
    get-Above i n,
    Above-eq i k m,
    Above-eq i j n,
  )

  -- Two maps with the same lookups are one.
  pub ext : (m n : BTreeMap K V) → IsSorted m → IsSorted n → ((k : K) → get k m ≡ get k n) → m ≡ n
  unfolding get
  ext [] [] s t h = refl
  ext [] ((j, w) ∷ n) s t h = ground (arith, h j, ≟_self j)
  ext ((k, v) ∷ m) [] s t h = ground (arith, h k, ≟_self k)
  ext ((k, v) ∷ m) ((j, w) ∷ n) s t h = ground (
    arith,
    h k,
    h j,
    ≟_self k,
    ≟_self j,
    o.cmp_sound k j,
    o.cmp_flip' k j,
    Above-chain k j n,
    Above-chain j k m,
    get-Above k n,
    get-Above j m,
    λ (e : k ≡ j). ext m n s.1 t.1 (same_rest k v m j w n e s.0 t.0 h),
  )
