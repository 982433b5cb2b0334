-- ===== src/BTree/Sets.antt =====
-- Sets: membership after each operation, the order that collecting keeps, and equality as sets.
use nexus_auth.Prelude.{
  ◌≡◌, ◌↔◌, refl, Bool, true, false, ◌||◌, List, [], ◌∷◌, arith, if◌then◌else◌,
}
use nexus_auth.Order.{Ord, ◌≟◌, ≟_iff}
use nexus_auth.BTree.{BTreeSet, get, remove, contains, add, collect, set_eq}
use nexus_auth.BTree.Lookup.{get-insert, get-remove}
use nexus_auth.BTree.Sorted.{IsSorted, insert-IsSorted}

-- `iter().any(|x| x == k)`
module _ {ℓ} {K : Type ℓ} ⦃o : Ord K⦄ where
  unfoldable pub listed : K → List K → Bool
  listed k [] = false
  listed k (x ∷ xs) = k ≟ x || listed k xs

  pub contains-add : (k j : K) (s : BTreeSet K) → contains j (add k s) ≡ j ≟ k || contains j s
  contains-add k j s = ground (arith, get-insert k j tt s)

  pub contains-remove :
      (k j : K) (s : BTreeSet K) → contains j (remove k s) ≡ (if j ≟ k then false else contains j s)
  contains-remove k j s = ground (arith, get-remove k j s)

  pub contains-collect : (k : K) (xs : List K) → contains k (collect xs) ≡ listed k xs
  unfolding collect listed get
  contains-collect k [] = refl
  contains-collect k (x ∷ xs) = ground (arith, contains-add x k (collect xs), contains-collect k xs)

  pub collect-IsSorted : (xs : List K) → IsSorted (collect xs)
  unfolding collect
  collect-IsSorted [] = tt
  collect-IsSorted (x ∷ xs) = insert-IsSorted x tt (collect xs) (collect-IsSorted xs)

  -- The comparison of two sets tells exactly whether they are equal.
  pub set_eq_iff : (s t : BTreeSet K) → (set_eq s t ≡ true) ↔ (s ≡ t)
  unfolding set_eq
  set_eq_iff [] [] = ground arith
  set_eq_iff [] (y ∷ ys) = ground arith
  set_eq_iff (x ∷ xs) [] = ground arith
  set_eq_iff ((x, a) ∷ xs) ((y, b) ∷ ys) = ground (arith, set_eq_iff xs ys, ≟_iff x y)
