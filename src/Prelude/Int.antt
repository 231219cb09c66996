-- ===== src/Prelude/Int.antt =====
-- Signed integers over the native numbers: the values of the source's `int` and `int32_t`.
use Prim.Native.Nat.{ℕ, ◌+◌, ◌-◌, ◌%◌, ◌<◌}
use mathlib.Core.Path.{◌≡◌}
use mathlib.Core.Logic.{◌↔◌}
use mathlib.Core.Bool.{Bool, false}
use native.Mathlib.Omega.{arith}
use ece_391_linux_kernel_cla.Prelude.Tests.{leb, ltb, ◌==◌, if◌then◌else◌}

-- `negsuc n` is -(n + 1).
pub data ℤ : Type 0 where
  pos : ℕ → ℤ
  negsuc : ℕ → ℤ

abbrev pub sub_ℕ : ℕ → ℕ → ℤ
sub_ℕ a b = if leb b a then pos (a - b) else negsuc (b - a - 1)

-- The value -1 by which the kernel reports failure.
abbrev pub minus_one : ℤ
minus_one = negsuc 0

abbrev pub is_zero : ℤ → Bool
is_zero (pos n) = n == 0
is_zero (negsuc n) = false

-- `x > 0`
abbrev pub is_pos : ℤ → Bool
is_pos (pos n) = ltb 0 n
is_pos (negsuc n) = false

-- A byte read as a signed char.
unfoldable pub s8 : ℕ → ℤ
s8 b = if ltb b 128 then pos b else negsuc (255 - b)

-- The difference of two signed chars, as an int.
unfoldable pub sub_s8 : ℕ → ℕ → ℤ
unfolding s8
sub_s8 a b = elim (s8 a) [
  | pos m ↦ elim (s8 b) [ pos n ↦ sub_ℕ m n | negsuc n ↦ pos (m + n + 1) ]
  | negsuc m ↦ elim (s8 b) [ pos n ↦ negsuc (m + n) | negsuc n ↦ sub_ℕ n m ]
]

pub sub_s8-eq_zero : (a b : ℕ) → a < 256 → b < 256 → (sub_s8 a b ≡ pos 0) ↔ (a ≡ b)
unfolding sub_s8
sub_s8-eq_zero a b ha hb = (λ h. ground arith, λ h. ground arith)

-- A 32-bit word read as a signed integer.
unfoldable pub s32 : ℕ → ℤ
s32 n = if ltb n 2147483648 then pos n else negsuc (4294967295 - n)

-- A signed integer in a 32-bit register.
unfoldable pub to_u32 : ℤ → ℕ
to_u32 (pos n) = n % 4294967296
to_u32 (negsuc n) = 4294967295 - n % 4294967296
