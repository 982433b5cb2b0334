-- ===== src/Order.antt =====
-- `Ord` with the laws that the trait asks of `cmp`: the keys of the source's maps and sets are
-- `String`s, compared by their bytes, and node ids.
pub mod Max
use Prim.Native.Nat.{compare}
use Prim.Native.Nat.Ordering.{lt, eq, gt}
use nexus_auth.Prelude.{ℕ, ◌≡◌, refl, ◌↔◌, Bool, true, false, [], ◌∷◌, arith, Ordering, Text}

pub record Ord {ℓ} (K : Type ℓ) : Type ℓ where
  pub cmp : K → K → Ordering
  pub cmp_self : (a : K) → cmp a a ≡ eq
  pub cmp_sound : (a b : K) → cmp a b ≡ eq → a ≡ b
  pub cmp_flip : (a b : K) → cmp a b ≡ lt → cmp b a ≡ gt
  pub cmp_flip' : (a b : K) → cmp a b ≡ gt → cmp b a ≡ lt
  pub cmp_chain : (a b c : K) → cmp a b ≡ lt → cmp b c ≡ lt → cmp a c ≡ lt

-- `a == b`, read off the order.
infix 50 ◌≟◌
abbrev pub ◌≟◌ {ℓ} : {K : Type ℓ} ⦃o : Ord K⦄ → K → K → Bool
◌≟◌ ⦃o⦄ a b = elim (o.cmp a b) [ eq ↦ true | _ ↦ false ]

module _ {ℓ} {K : Type ℓ} ⦃o : Ord K⦄ where
  pub ≟_iff : (a b : K) → ((a ≟ b) ≡ true) ↔ (a ≡ b)
  ≟_iff a b = ground (arith, o.cmp_sound a b, o.cmp_self a)

  pub ≟_self : (a : K) → (a ≟ a) ≡ true
  ≟_self a = (≟_iff a a).1 refl

pub compare_self : (a : ℕ) → compare a a ≡ eq
compare_self a = ground arith

pub compare_sound : (a b : ℕ) → compare a b ≡ eq → a ≡ b
compare_sound a b h = ground arith

pub compare_flip : (a b : ℕ) → compare a b ≡ lt → compare b a ≡ gt
compare_flip a b h = ground arith

pub compare_flip' : (a b : ℕ) → compare a b ≡ gt → compare b a ≡ lt
compare_flip' a b h = ground arith

pub compare_chain : (a b c : ℕ) → compare a b ≡ lt → compare b c ≡ lt → compare a c ≡ lt
compare_chain a b c h k = ground arith

instance abbrev pub nat_ord : Ord ℕ
nat_ord = record {
  cmp = compare;
  cmp_self = compare_self;
  cmp_sound = compare_sound;
  cmp_flip = compare_flip;
  cmp_flip' = compare_flip';
  cmp_chain = compare_chain;
}

-- Texts compare byte by byte.
unfoldable pub cmp_text : Text → Text → Ordering
cmp_text [] [] = eq
cmp_text [] (y ∷ ys) = lt
cmp_text (x ∷ xs) [] = gt
cmp_text (x ∷ xs) (y ∷ ys) = elim (compare x y) [ lt ↦ lt | gt ↦ gt | eq ↦ cmp_text xs ys ]

pub cmp_text_self : (a : Text) → cmp_text a a ≡ eq
unfolding cmp_text
cmp_text_self [] = refl
cmp_text_self (x ∷ xs) = ground (arith, cmp_text_self xs)

pub cmp_text_sound : (a b : Text) → cmp_text a b ≡ eq → a ≡ b
unfolding cmp_text
cmp_text_sound [] [] h = refl
cmp_text_sound [] (y ∷ ys) h = ground arith
cmp_text_sound (x ∷ xs) [] h = ground arith
cmp_text_sound (x ∷ xs) (y ∷ ys) h = ground (arith, cmp_text_sound xs ys)

pub cmp_text_flip : (a b : Text) → cmp_text a b ≡ lt → cmp_text b a ≡ gt
unfolding cmp_text
cmp_text_flip [] [] h = ground arith
cmp_text_flip [] (y ∷ ys) h = refl
cmp_text_flip (x ∷ xs) [] h = ground arith
cmp_text_flip (x ∷ xs) (y ∷ ys) h = ground (arith, cmp_text_flip xs ys)

pub cmp_text_flip' : (a b : Text) → cmp_text a b ≡ gt → cmp_text b a ≡ lt
unfolding cmp_text
cmp_text_flip' [] [] h = ground arith
cmp_text_flip' [] (y ∷ ys) h = ground arith
cmp_text_flip' (x ∷ xs) [] h = refl
cmp_text_flip' (x ∷ xs) (y ∷ ys) h = ground (arith, cmp_text_flip' xs ys)

pub cmp_text_chain : (a b c : Text) → cmp_text a b ≡ lt → cmp_text b c ≡ lt → cmp_text a c ≡ lt
unfolding cmp_text
cmp_text_chain [] [] c h k = ground arith
cmp_text_chain [] (y ∷ ys) [] h k = ground arith
cmp_text_chain [] (y ∷ ys) (z ∷ zs) h k = refl
cmp_text_chain (x ∷ xs) [] c h k = ground arith
cmp_text_chain (x ∷ xs) (y ∷ ys) [] h k = ground arith
cmp_text_chain (x ∷ xs) (y ∷ ys) (z ∷ zs) h k = ground (arith, cmp_text_chain xs ys zs)

instance abbrev pub text_ord : Ord Text
text_ord = record {
  cmp = cmp_text;
  cmp_self = cmp_text_self;
  cmp_sound = cmp_text_sound;
  cmp_flip = cmp_text_flip;
  cmp_flip' = cmp_text_flip';
  cmp_chain = cmp_text_chain;
}
