-- ===== src/Prelude/Word.antt =====
-- `u64` and `u32` arithmetic as the source writes it: `saturating_add`, `saturating_sub`,
-- `abs_diff`, and `+` that wraps in a release build.
use Prim.Native.Nat.{ℕ, ◌+◌, ◌-◌, ◌%◌, ◌≤◌, ◌<◌, min}
use mathlib.Core.Path.{◌≡◌}
use native.Mathlib.Omega.{arith}

abbrev pub u64_mod : ℕ
u64_mod = 18446744073709551616

abbrev pub u64_max : ℕ
u64_max = 18446744073709551615

abbrev pub u32_max : ℕ
u32_max = 4294967295

-- `a.saturating_add(b)` on `u64`
unfoldable pub saturating_add : ℕ → ℕ → ℕ
saturating_add a b = min (a + b) u64_max

-- `a.saturating_add(b)` on `u32`
unfoldable pub saturating_add32 : ℕ → ℕ → ℕ
saturating_add32 a b = min (a + b) u32_max

-- `a + 1` on `u64`, which wraps
unfoldable pub wrapping_suc : ℕ → ℕ
wrapping_suc a = (a + 1) % u64_mod

-- `a.abs_diff(b)`
unfoldable pub abs_diff : ℕ → ℕ → ℕ
abs_diff a b = (a - b) + (b - a)

pub saturating_add_lt : (a : ℕ) → a < u64_max → saturating_add a 1 ≡ a + 1
unfolding saturating_add
saturating_add_lt a h = omega arith

pub saturating_add_bounds :
    (a : ℕ) → a ≤ u64_max → (a ≤ saturating_add a 1) × (saturating_add a 1 ≤ u64_max)
unfolding saturating_add
saturating_add_bounds a h = omega arith

pub wrapping_suc_lt : (a : ℕ) → a < u64_max → wrapping_suc a ≡ a + 1
unfolding wrapping_suc
wrapping_suc_lt a h = omega arith
