-- ===== src/Base/Words.antt =====
-- `usize` on a 64-bit target. A value is a number below `usize_mod`; the operations that the
-- sources call are the wrapping `+` and the saturating ones. `saturating_sub` is `◌-◌`.
use Prim.Native.Nat.{ℕ, ◌+◌, ◌-◌, ◌%◌, ◌^◌, ◌<◌, min}
use mathlib.Core.Path.{◌≡◌}
use mathlib.Core.Bool.{Bool, true, false}
use native.Mathlib.Omega.{arith}
use nifi_lens.Base.Tests.{ltb, ◌==◌}

abbrev pub usize_mod : ℕ
usize_mod = 2 ^ 64

abbrev pub usize_max : ℕ
usize_max = usize_mod - 1

-- `a + b`: a release build wraps around.
abbrev pub usize_add : ℕ → ℕ → ℕ
usize_add a b = (a + b) % usize_mod

-- `a - b` where the source does not saturate.
abbrev pub usize_sub : ℕ → ℕ → ℕ
usize_sub a b = (a + usize_mod - b) % usize_mod

abbrev pub saturating_add : ℕ → ℕ → ℕ
saturating_add a b = min (a + b) usize_max

-- A signed number (`i32`, `i64`): `negsuc n` is -(n + 1).
pub data ℤ : Type 0 where
  pos : ℕ → ℤ
  negsuc : ℕ → ℤ

pub usize_add_small : (a b : ℕ) → a + b < usize_mod → usize_add a b ≡ a + b
usize_add_small a b h = omega arith

-- `a < b` on signed numbers.
abbrev pub ltb_ℤ : ℤ → ℤ → Bool
ltb_ℤ (pos a) (pos b) = ltb a b
ltb_ℤ (pos a) (negsuc b) = false
ltb_ℤ (negsuc a) (pos b) = true
ltb_ℤ (negsuc a) (negsuc b) = ltb b a

abbrev pub eq_ℤ : ℤ → ℤ → Bool
eq_ℤ (pos a) (pos b) = a == b
eq_ℤ (negsuc a) (negsuc b) = a == b
eq_ℤ _ _ = false
