-- ===== src/Replay/Window.antt =====
-- What the guard answers, and how long it remembers.
use mathlib.Core.List.{append_assoc}
use nexus_auth.Prelude.{
  ℕ, ◌+◌, ◌≤◌, ◌<◌, ◌≡◌, refl, ap, subst, ◌∙◌, true, false, List, [], ◌∷◌, ◌++◌, arith, Text,
  length, length-append, ltb, Bool-cases, inl, inr, Result, Done, ok, err, is_empty, if◌then◌else◌,
}
use nexus_auth.Order.{≟_self, text_ord}
use nexus_auth.BTree.{BTreeSet, contains, add, remove}
use nexus_auth.BTree.Sets.{listed}
use nexus_auth.Replay.{
  ReplayGuard, ReplayError, empty, replay, max_seen_nonces, evict, check_and_insert_at,
  check_and_insert, check_all,
}
use nexus_auth.Replay.Invariant.{
  IsConsistent, listed-append, check_and_insert-IsConsistent, check_all-IsConsistent,
}

-- The answer, told by the queue: an empty nonce and a listed one are refused, and the guard is then
-- as it was; any other is accepted.
unfoldable pub answer : ReplayGuard → Text → Result ReplayError Done
answer g n = if is_empty n then err empty else if listed n g.order then err replay else ok tt

pub check_and_insert-answer :
    (limit : ℕ) (n : Text) (g : ReplayGuard)
    → IsConsistent limit g
    → (check_and_insert_at limit n g).0 ≡ answer g n
unfolding check_and_insert_at answer
check_and_insert-answer limit n g v = ground (arith, v.agrees n)

-- `n` stands in the queue with at most `k` nonces behind it.
pub record Recent (n : Text) (k : ℕ) (order : List Text) : Type 0 where
  pub older : List Text
  pub newer : List Text
  pub splits : order ≡ older ++ n ∷ newer
  pub few : length newer ≤ k

Recent-snoc :
    (n x : Text) (k : ℕ) (order : List Text) → Recent n k order → Recent n (k + 1) (order ++ x ∷ [])
Recent-snoc n x k order r = record {
  older = r.older;
  newer = r.newer ++ x ∷ [];
  splits = ap (λ o. o ++ x ∷ []) r.splits ∙ append_assoc r.older (n ∷ r.newer) (x ∷ []);
  few = omega (arith, r.few, length-append r.newer (x ∷ []));
}

Recent-newest : (n : Text) (order : List Text) → Recent n 0 (order ++ n ∷ [])
Recent-newest n order = record { older = order; newer = []; splits = refl; few = omega arith }

-- The queue loses nonces at its old end only.
evict-Recent :
    (limit k : ℕ) (n : Text) (seen : BTreeSet Text) (older newer : List Text)
    → length newer ≤ k
    → k < limit
    → Recent n k (evict limit seen (older ++ n ∷ newer)).order
unfolding evict
evict-Recent limit k n seen [] newer few room = elim (Bool-cases (ltb limit (length (n ∷ newer)))) [
  | inl over ↦ absurd (ground arith)
  | inr fits ↦ rw (fits, evict) (record { older = []; newer = newer; splits = refl; few = few })
]
evict-Recent limit k n seen (x ∷ older) newer few room =
    elim (Bool-cases (ltb limit (length (x ∷ older ++ n ∷ newer)))) [
      | inl over ↦ rw (over, evict) (evict-Recent limit k n (remove x seen) older newer few room)
      | inr fits ↦
          rw (fits, evict) (record { older = x ∷ older; newer = newer; splits = refl; few = few })
    ]

evict-Recent' :
    (limit k : ℕ) (n : Text) (seen : BTreeSet Text) (order : List Text)
    → Recent n k order
    → k < limit
    → Recent n k (evict limit seen order).order
evict-Recent' limit k n seen order r room =
    rw r.splits (evict-Recent limit k n seen r.older r.newer r.few room)

Recent-le : (n : Text) (k l : ℕ) (order : List Text) → Recent n k order → k ≤ l → Recent n l order
Recent-le n k l order r h = record {
  older = r.older;
  newer = r.newer;
  splits = r.splits;
  few = omega (arith, r.few);
}

check_and_insert-Recent :
    (limit k : ℕ) (n x : Text) (g : ReplayGuard)
    → Recent n k g.order
    → k + 1 < limit
    → Recent n (k + 1) (check_and_insert_at limit x g).1.order
unfolding check_and_insert_at
check_and_insert-Recent limit k n x g r room = elim (Bool-cases (is_empty x)) [
  | inl blank ↦ rw blank (Recent-le n k (k + 1) g.order r (omega arith))
  | inr given ↦ elim (Bool-cases (contains x g.seen)) [
    | inl old ↦ rw (given, old) (Recent-le n k (k + 1) g.order r (omega arith))
    | inr new ↦
        rw (given, new)
          (evict-Recent' limit (k + 1) n (add x g.seen) (g.order ++ x ∷ [])
            (Recent-snoc n x k g.order r) room)
  ]
]

check_all-Recent :
    (limit k total : ℕ) (n : Text) (ns : List Text) (g : ReplayGuard)
    → Recent n k g.order
    → k + length ns ≤ total
    → total < limit
    → Recent n total (check_all limit ns g).order
unfolding check_all
check_all-Recent limit k total n [] g r h room = Recent-le n k total g.order r (omega arith)
check_all-Recent limit k total n (x ∷ ns) g r h room =
    check_all-Recent limit (k + 1) total n ns _
      (check_and_insert-Recent limit k n x g r (omega arith)) (omega arith) room

Recent-listed : (n : Text) (k : ℕ) (order : List Text) → Recent n k order → listed n order ≡ true
unfolding listed
Recent-listed n k order r =
    rw r.splits (ground (arith, listed-append n r.older (n ∷ r.newer), ≟_self n))

accepted-Recent :
    (limit : ℕ) (n : Text) (g g' : ReplayGuard)
    → check_and_insert_at limit n g ≡ (ok tt, g')
    → 0 < limit
    → (is_empty n ≡ false) × Recent n 0 g'.order
unfolding check_and_insert_at
accepted-Recent limit n g g' e pos = elim (Bool-cases (is_empty n)) [
  | inl blank ↦ absurd (ground arith)
  | inr given ↦ elim (Bool-cases (contains n g.seen)) [
    | inl old ↦ absurd (ground arith)
    | inr new ↦
        let same : evict limit (add n g.seen) (g.order ++ n ∷ []) ≡ g' = ground arith in
        (
          given,
          subst (λ h. Recent n 0 h.order) same
              (evict-Recent' limit 0 n (add n g.seen) (g.order ++ n ∷ []) (Recent-newest n g.order)
                pos),
        )
  ]
]

after-IsConsistent :
    (limit : ℕ) (n : Text) (g g' : ReplayGuard)
    → IsConsistent limit g
    → check_and_insert_at limit n g ≡ (ok tt, g')
    → IsConsistent limit g'
after-IsConsistent limit n g g' v e =
    subst (λ r. IsConsistent limit r.1) e (check_and_insert-IsConsistent limit n g v)

-- Let a nonce be accepted by a guard that is consistent. It is refused as a replay, as long as
-- fewer than ten thousand nonces have been presented since.
pub replay_refused :
    (n : Text) (ns : List Text) (g g' : ReplayGuard)
    → IsConsistent max_seen_nonces g
    → check_and_insert n g ≡ (ok tt, g')
    → length ns < max_seen_nonces
    → (check_and_insert n (check_all max_seen_nonces ns g')).0 ≡ err replay
unfolding check_and_insert
replay_refused n ns g g' v accepted few =
    let since = accepted-Recent max_seen_nonces n g g' accepted (omega arith) in
    let later = check_all max_seen_nonces ns g' in
    let kept = check_all-Recent max_seen_nonces 0 (length ns) n ns g' since.1 (omega arith) few in
    check_and_insert-answer max_seen_nonces n later (
      check_all-IsConsistent max_seen_nonces ns g'
        (after-IsConsistent max_seen_nonces n g g' v accepted))
    ∙ (unfold answer in rw (since.0, Recent-listed n (length ns) later.order kept))
