-- ===== src/Order/Max.antt =====
-- The greater of two values of an ordered type: a semilattice.
use Prim.Native.Nat.Ordering.{lt, eq, gt}
use nexus_auth.Prelude.{◌≡◌, arith}
use nexus_auth.Order.{Ord}

abbrev pub max_of {ℓ} : {K : Type ℓ} ⦃o : Ord K⦄ → K → K → K
max_of ⦃o⦄ a b = elim (o.cmp a b) [ lt ↦ b | eq ↦ a | gt ↦ a ]

module _ {ℓ} {K : Type ℓ} ⦃o : Ord K⦄ where
  pub max_of_self : (a : K) → max_of a a ≡ a
  max_of_self a = ground (arith, o.cmp_self a)

  pub max_of_comm : (a b : K) → max_of a b ≡ max_of b a
  max_of_comm a b = ground (arith, o.cmp_sound a b, o.cmp_flip a b, o.cmp_flip' a b, o.cmp_self a)

  pub max_of_assoc : (a b c : K) → max_of (max_of a b) c ≡ max_of a (max_of b c)
  max_of_assoc a b c = ground (
    arith,
    o.cmp_chain a b c,
    o.cmp_sound a b,
    o.cmp_sound b c,
    o.cmp_sound a c,
    o.cmp_flip a b,
    o.cmp_flip b c,
    o.cmp_flip a c,
    o.cmp_flip' a b,
    o.cmp_flip' b c,
    o.cmp_flip' a c,
    o.cmp_chain c b a,
    o.cmp_self a,
    o.cmp_flip c a,
    o.cmp_flip' c a,
  )
