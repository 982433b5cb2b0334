-- ===== src/Replay.antt =====
-- src/replay.rs: the bounded set of nonces that have been seen, shared by every authenticator.
pub mod Invariant
pub mod Window
mod Tests
use nexus_auth.Prelude.{
  ℕ, Bool, true, false, List, [], ◌∷◌, ◌++◌, Text, is_empty, length, leb, ltb, Result, Done, ok,
  err, if◌then◌else◌,
}
use nexus_auth.Order.{text_ord}
use nexus_auth.BTree.{BTreeSet, contains, add, remove}

abbrev pub max_seen_nonces : ℕ
max_seen_nonces = 10000

pub data ReplayError : Type 0 where
  empty replay : ReplayError

pub record ReplayGuard : Type 0 where
  pub seen : BTreeSet Text
  pub order : List Text

-- `ReplayGuard::default()`
unfoldable pub new_guard : ReplayGuard
new_guard = record { seen = []; order = [] }

-- `while self.order.len() > MAX_SEEN_NONCES`: the oldest nonce leaves the queue and the set.
unfoldable pub evict : ℕ → BTreeSet Text → List Text → ReplayGuard
evict limit seen [] = record { seen = seen; order = [] }
evict limit seen (old ∷ order) = elim (ltb limit (length (old ∷ order))) [
  | true ↦ evict limit (remove old seen) order
  | false ↦ record { seen = seen; order = old ∷ order }
]

-- The guard for a given capacity; the source fixes it to `max_seen_nonces`.
unfoldable pub check_and_insert_at : ℕ → Text → ReplayGuard → Result ReplayError Done × ReplayGuard
check_and_insert_at limit nonce g =
    if is_empty nonce
    then (err empty, g)
    else if contains nonce g.seen
    then (err replay, g)
    else (ok tt, evict limit (add nonce g.seen) (g.order ++ nonce ∷ []))

unfoldable pub check_and_insert : Text → ReplayGuard → Result ReplayError Done × ReplayGuard
unfolding check_and_insert_at
check_and_insert = check_and_insert_at max_seen_nonces

-- A history of calls, whatever each returns.
unfoldable pub check_all : ℕ → List Text → ReplayGuard → ReplayGuard
check_all limit [] g = g
check_all limit (n ∷ ns) g = check_all limit ns (check_and_insert_at limit n g).1
