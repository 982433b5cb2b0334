-- ===== src/BTree/Lookup.antt =====
-- What a lookup finds after each operation, in the form of an `if`, with no side condition.
use nexus_auth.Prelude.{◌≡◌, refl, none, some, [], ◌∷◌, arith, if◌then◌else◌}
use nexus_auth.Order.{Ord, ◌≟◌, ≟_iff}
use nexus_auth.BTree.{BTreeMap, get, insert, remove}

module _ {ℓ κ} {K : Type ℓ} {V : Type κ} ⦃o : Ord K⦄ where
  pub get-insert :
      (k j : K) (v : V) (m : BTreeMap K V)
      → get j (insert k v m) ≡ (if j ≟ k then some v else get j m)
  unfolding get insert
  get-insert k j v [] = refl
  get-insert k j v ((i, w) ∷ m) =
      ground (arith, get-insert k j v m, o.cmp_sound k i, ≟_iff j k, ≟_iff j i)

  pub get-remove :
      (k j : K) (m : BTreeMap K V) → get j (remove k m) ≡ (if j ≟ k then none else get j m)
  unfolding get remove
  get-remove k j [] = ground arith
  get-remove k j ((i, w) ∷ m) = ground (arith, get-remove k j m, ≟_iff j k, ≟_iff j i, ≟_iff k i)
