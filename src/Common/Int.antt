-- ===== src/Common/Int.antt =====
-- The whole numbers that a setting may hold; a negative one switches a limit off.
use Prim.Native.Nat.{ℕ, ◌-◌}
use mathlib.Core.Bool.{Bool, true, false}
use korail_ktx_macro_telegra.Common.Tests.{ltb}

-- `negsuc n` is -(n + 1).
pub data ℤ : Type 0 where
  pos : ℕ → ℤ
  negsuc : ℕ → ℤ

abbrev pub is_negative : ℤ → Bool
is_negative (pos n) = false
is_negative (negsuc n) = true

-- `n < z`
abbrev pub below : ℕ → ℤ → Bool
below n (pos m) = ltb n m
below n (negsuc m) = false

-- `max(0, z - n)`
abbrev pub left_of : ℤ → ℕ → ℕ
left_of (pos m) n = m - n
left_of (negsuc m) n = 0
