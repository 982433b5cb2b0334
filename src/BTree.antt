-- ===== src/BTree.antt =====
-- `BTreeMap` and `BTreeSet` of the standard library, which the source keeps its services, tombstones,
-- tokens and deduplication records in: entries in the order of their keys. A set is a map to `Unit`.
pub mod Lookup
pub mod Sorted
pub mod Sets
use Prim.Native.Nat.Ordering.{lt, eq, gt}
use nexus_auth.Prelude.{
  Bool, true, false, Option, none, some, List, [], ◌∷◌, if◌then◌else◌, is_some,
}
use nexus_auth.Order.{Ord, ◌≟◌}

abbrev pub BTreeMap {ℓ κ} : Type ℓ → Type κ → Type (ℓ ⊔ κ)
BTreeMap K V = List (K × V)

abbrev pub BTreeSet {ℓ} : Type ℓ → Type ℓ
BTreeSet K = BTreeMap K (Unit {0})

module _ {ℓ κ} {K : Type ℓ} {V : Type κ} ⦃o : Ord K⦄ where
  unfoldable pub get : K → BTreeMap K V → Option V
  get k [] = none
  get k ((j, v) ∷ m) = if k ≟ j then some v else get k m

  abbrev pub contains_key : K → BTreeMap K V → Bool
  contains_key k m = is_some (get k m)

  unfoldable pub insert : K → V → BTreeMap K V → BTreeMap K V
  insert k v [] = (k, v) ∷ []
  insert k v ((j, w) ∷ m) = elim (o.cmp k j) [
    | lt ↦ (k, v) ∷ (j, w) ∷ m
    | eq ↦ (k, v) ∷ m
    | gt ↦ (j, w) ∷ insert k v m
  ]

  unfoldable pub remove : K → BTreeMap K V → BTreeMap K V
  remove k [] = []
  remove k ((j, w) ∷ m) = let rest = remove k m in if k ≟ j then rest else (j, w) ∷ rest

  -- `map.retain(|_, v| p(v))`
  unfoldable pub retain : (V → Bool) → BTreeMap K V → BTreeMap K V
  retain p [] = []
  retain p ((j, w) ∷ m) = let rest = retain p m in if p w then (j, w) ∷ rest else rest

unfoldable pub keys {ℓ κ} : {K : Type ℓ} {V : Type κ} → BTreeMap K V → List K
keys [] = []
keys ((k, v) ∷ m) = k ∷ keys m

module _ {ℓ} {K : Type ℓ} ⦃o : Ord K⦄ where
  abbrev pub contains : K → BTreeSet K → Bool
  contains k s = is_some (get k s)

  abbrev pub add : K → BTreeSet K → BTreeSet K
  add k s = insert k tt s

  -- `iter().cloned().collect()` into a `BTreeSet`
  unfoldable pub collect : List K → BTreeSet K
  collect [] = []
  collect (k ∷ ks) = add k (collect ks)

  -- `a == b` of two sets, element by element
  unfoldable pub set_eq : BTreeSet K → BTreeSet K → Bool
  set_eq [] [] = true
  set_eq [] (y ∷ ys) = false
  set_eq (x ∷ xs) [] = false
  set_eq (x ∷ xs) (y ∷ ys) = if x.0 ≟ y.0 then set_eq xs ys else false
