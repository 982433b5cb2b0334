-- ===== src/Auth/Sort.antt =====
-- `sort_unstable` of a list of strings, and the join of them by commas.
use Prim.Native.Nat.Ordering.{lt, eq, gt}
use nexus_auth.Prelude.{◌≡◌, refl, ap, ◌∙◌, List, [], ◌∷◌, ◌++◌, Text, Bytes, arith}
use nexus_auth.Order.{
  text_ord, cmp_text, cmp_text_sound, cmp_text_flip, cmp_text_flip', cmp_text_self, cmp_text_chain,
}
use mathlib.Core.List.{Permᴰ}

unfoldable pub place : Text → List Text → List Text
place x [] = x ∷ []
place x (y ∷ ys) = elim (cmp_text x y) [ lt ↦ x ∷ y ∷ ys | eq ↦ x ∷ y ∷ ys | gt ↦ y ∷ place x ys ]

unfoldable pub sort : List Text → List Text
unfolding place
sort [] = []
sort (x ∷ xs) = place x (sort xs)

-- `members.join(",")`
unfoldable pub join : List Text → Bytes
join [] = []
join (x ∷ []) = x
join (x ∷ y ∷ ys) = x ++ (b',' ∷ join (y ∷ ys))

place_swap : (x y : Text) (l : List Text) → place x (place y l) ≡ place y (place x l)
unfolding place
place_swap x y [] =
    ground (arith, cmp_text_sound x y, cmp_text_flip x y, cmp_text_flip' x y, cmp_text_self x)
place_swap x y (z ∷ l) = ground (
  arith,
  place_swap x y l,
  cmp_text_sound x y,
  cmp_text_flip x y,
  cmp_text_flip' x y,
  cmp_text_self x,
  cmp_text_self y,
  cmp_text_sound x z,
  cmp_text_sound y z,
  cmp_text_flip x z,
  cmp_text_flip y z,
  cmp_text_flip' x z,
  cmp_text_flip' y z,
  cmp_text_chain x y z,
  cmp_text_chain y x z,
  cmp_text_chain z x y,
  cmp_text_chain z y x,
  cmp_text_chain x z y,
  cmp_text_chain y z x,
)

-- Sorting forgets the order of a list.
pub sort-Perm : {xs ys : List Text} → Permᴰ xs ys → sort xs ≡ sort ys
unfolding sort
sort-Perm Permᴰ.nil = refl
sort-Perm (Permᴰ.cons {a} {b} {l₁} {l₂} e p) =
    ap (place a) (sort-Perm p) ∙ ap (λ x. place x (sort l₂)) e
sort-Perm (Permᴰ.swap {a} {b} {a'} {b'} {l} e f) =
    place_swap a b (sort l)
    ∙ ap (λ x. place x (place a (sort l))) f
    ∙ ap (λ x. place a' (place x (sort l))) e
sort-Perm (Permᴰ.trans p r) = sort-Perm p ∙ sort-Perm r
