-- ===== src/Replay/Invariant.antt =====
-- The set and the queue of the guard hold the same nonces, each once, within the capacity.
use nexus_auth.Prelude.{
  ℕ, ◌≤◌, ◌≡◌, refl, sym, ◌∙◌, false, ◌||◌, List, [], ◌∷◌, ◌++◌, arith, Text, length, ltb,
  Bool-cases, inl, inr, is_empty,
}
use nexus_auth.Order.{≟_iff, text_ord}
use nexus_auth.BTree.{BTreeSet, get, contains, add, remove}
use nexus_auth.BTree.Sets.{listed, contains-add, contains-remove}
use nexus_auth.Replay.{ReplayGuard, new_guard, evict, check_and_insert_at, check_all}

abbrev pub Distinct : List Text → Type 0
Distinct [] = Unit
Distinct (x ∷ xs) = (listed x xs ≡ false) × Distinct xs

-- The set holds what the queue lists.
abbrev pub Agrees : BTreeSet Text → List Text → Type 0
Agrees seen order = (n : Text) → contains n seen ≡ listed n order

pub record IsConsistent (limit : ℕ) (g : ReplayGuard) : Type 0 where
  pub agrees : Agrees g.seen g.order
  pub distinct : Distinct g.order
  pub bounded : length g.order ≤ limit

pub listed-append :
    (k : Text) (xs ys : List Text) → listed k (xs ++ ys) ≡ listed k xs || listed k ys
unfolding listed
listed-append k [] ys = refl
listed-append k (x ∷ xs) ys = ground (arith, listed-append k xs ys)

Distinct-snoc :
    (xs : List Text) (n : Text) → Distinct xs → listed n xs ≡ false → Distinct (xs ++ n ∷ [])
unfolding listed
Distinct-snoc [] n d h = (refl, tt)
Distinct-snoc (x ∷ xs) n d h =
    ground (arith, Distinct-snoc xs n d.1, listed-append x xs (n ∷ []), ≟_iff n x, ≟_iff x n)

Agrees-snoc :
    (seen : BTreeSet Text) (order : List Text) (n : Text)
    → Agrees seen order
    → Agrees (add n seen) (order ++ n ∷ [])
unfolding listed
Agrees-snoc seen order n a k =
    ground (arith, a k, contains-add n k seen, listed-append k order (n ∷ []))

Agrees-pop :
    (seen : BTreeSet Text) (old : Text) (order : List Text)
    → Agrees seen (old ∷ order)
    → listed old order ≡ false
    → Agrees (remove old seen) order
unfolding listed
Agrees-pop seen old order a h n = ground (arith, a n, contains-remove old n seen, ≟_iff n old)

-- Eviction keeps the agreement, and leaves at most `limit` nonces.
evict-IsConsistent :
    (limit : ℕ) (seen : BTreeSet Text) (order : List Text)
    → Agrees seen order
    → Distinct order
    → IsConsistent limit (evict limit seen order)
unfolding evict
evict-IsConsistent limit seen [] a d = record { agrees = a; distinct = d; bounded = omega arith }
evict-IsConsistent limit seen (old ∷ order) a d =
    elim (Bool-cases (ltb limit (length (old ∷ order)))) [
      | inl over ↦
          rw (over, evict)
            (evict-IsConsistent limit (remove old seen) order (Agrees-pop seen old order a d.0) d.1)
      | inr fits ↦ rw (fits, evict) (record { agrees = a; distinct = d; bounded = ground arith })
    ]

pub new_guard-IsConsistent : (limit : ℕ) → IsConsistent limit new_guard
unfolding new_guard listed get
new_guard-IsConsistent limit = record { agrees = λ n. refl; distinct = tt; bounded = omega arith }

pub check_and_insert-IsConsistent :
    (limit : ℕ) (n : Text) (g : ReplayGuard)
    → IsConsistent limit g
    → IsConsistent limit (check_and_insert_at limit n g).1
unfolding check_and_insert_at
check_and_insert-IsConsistent limit n g v = elim (Bool-cases (is_empty n)) [
  | inl blank ↦ rw blank v
  | inr given ↦ elim (Bool-cases (contains n g.seen)) [
    | inl old ↦ rw (given, old) v
    | inr new ↦
        rw (given, new)
          (evict-IsConsistent limit (add n g.seen) (g.order ++ n ∷ [])
            (Agrees-snoc g.seen g.order n v.agrees)
            (Distinct-snoc g.order n v.distinct (sym (v.agrees n) ∙ new)))
  ]
]

-- Let a guard be consistent: its set and queue agree, hold no nonce twice and stay within the
-- capacity. Whatever nonces are presented, it still is.
pub check_all-IsConsistent :
    (limit : ℕ) (ns : List Text) (g : ReplayGuard)
    → IsConsistent limit g
    → IsConsistent limit (check_all limit ns g)
unfolding check_all
check_all-IsConsistent limit [] g v = v
check_all-IsConsistent limit (n ∷ ns) g v =
    check_all-IsConsistent limit ns _ (check_and_insert-IsConsistent limit n g v)
