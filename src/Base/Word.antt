-- ===== src/Base/Word.antt =====
-- 64-bit unsigned words: u64, and usize on a 64-bit target.
use Prim.Native.Nat.{ℕ, ◌+◌, ◌-◌, ◌*◌, ◌%◌, ◌^◌, ◌<◌, min}
use mathlib.Core.Path.{◌≡◌}
use native.Mathlib.Omega.{arith}

abbrev pub u64_mod : ℕ
u64_mod = 2 ^ 64

abbrev pub u64_max : ℕ
u64_max = 2 ^ 64 - 1

-- `+` as the release profile compiles it: it wraps around.
unfoldable pub wrapping_add : ℕ → ℕ → ℕ
wrapping_add a b = (a + b) % u64_mod

unfoldable pub saturating_add : ℕ → ℕ → ℕ
saturating_add a b = min (a + b) u64_max

unfoldable pub saturating_mul : ℕ → ℕ → ℕ
saturating_mul a b = min (a * b) u64_max

-- `-` on the native numbers stops at 0, as saturating_sub does.
unfoldable pub saturating_sub : ℕ → ℕ → ℕ
saturating_sub a b = a - b

pub wrapping_add-lt : (a b : ℕ) → wrapping_add a b < u64_mod
unfolding wrapping_add
wrapping_add-lt a b = omega arith

pub wrapping_add_small : (a b : ℕ) → a + b < u64_mod → wrapping_add a b ≡ a + b
unfolding wrapping_add
wrapping_add_small a b h = omega arith
