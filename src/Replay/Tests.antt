-- ===== src/Replay/Tests.antt =====
-- The guard on small inputs.
use nexus_auth.Prelude.{◌≡◌, refl, [], ◌∷◌, Text, ok, err, arith}
use nexus_auth.Order.{text_ord, cmp_text}
use nexus_auth.BTree.{get, insert}
use nexus_auth.Replay.{
  ReplayGuard, replay, new_guard, evict, check_and_insert, check_and_insert_at, check_all,
  max_seen_nonces,
}
use nexus_auth.Replay.Invariant.{IsConsistent, new_guard-IsConsistent, check_all-IsConsistent}
use nexus_auth.Replay.Window.{answer, check_and_insert-answer, replay_refused}

abbrev one : Text
one = 49 ∷ []

abbrev two : Text
two = 50 ∷ []

abbrev one_seen : ReplayGuard
one_seen = record { seen = (one, tt) ∷ []; order = one ∷ [] }

one_accepted : check_and_insert one new_guard ≡ (ok tt, one_seen)
unfolding check_and_insert check_and_insert_at new_guard evict get insert
one_accepted = refl

-- A guard that remembers two nonces takes the first again after two others.
forgotten :
    (check_and_insert_at 2 one (check_all 2 (one ∷ two ∷ (51 ∷ []) ∷ []) new_guard)).0 ≡ ok tt
unfolding check_and_insert_at check_all new_guard evict get insert nexus_auth.BTree.remove cmp_text
forgotten = refl

replay_refused_example :
    (check_and_insert one (check_all max_seen_nonces (two ∷ one ∷ []) one_seen)).0 ≡ err replay
replay_refused_example =
    replay_refused one (two ∷ one ∷ []) new_guard one_seen (new_guard-IsConsistent max_seen_nonces)
      one_accepted (omega arith)

check_all-IsConsistent_example : IsConsistent 2 (check_all 2 (one ∷ two ∷ one ∷ []) new_guard)
check_all-IsConsistent_example =
    check_all-IsConsistent 2 (one ∷ two ∷ one ∷ []) new_guard (new_guard-IsConsistent 2)

check_and_insert-answer_example : (check_and_insert_at 2 one new_guard).0 ≡ answer new_guard one
check_and_insert-answer_example = check_and_insert-answer 2 one new_guard (new_guard-IsConsistent 2)
