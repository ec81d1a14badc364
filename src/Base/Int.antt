-- ===== src/Base/Int.antt =====
-- The signed types `int`, `long` and `long long`, as integers over the native numbers.
use Prim.Native.Nat.{ℕ, suc, ◌-◌}
use mathlib.Core.Bool.{Bool, false}
use btb.Base.Tests.{◌==◌, ltb, if◌then◌else◌}

-- `negsuc n` is -(n + 1).
pub data ℤ : Type 0 where
  pos : ℕ → ℤ
  negsuc : ℕ → ℤ

abbrev pub pos_part : ℤ → ℕ
pos_part (pos n) = n
pos_part (negsuc n) = 0

abbrev pub neg_part : ℤ → ℕ
neg_part (pos n) = 0
neg_part (negsuc n) = suc n

-- `x++` and `x--`.
abbrev pub incr : ℤ → ℤ
incr (pos n) = pos (suc n)
incr (negsuc n) = if ltb 0 n then negsuc (n - 1) else pos 0

abbrev pub decr : ℤ → ℤ
decr (pos n) = if ltb 0 n then pos (n - 1) else negsuc 0
decr (negsuc n) = negsuc (suc n)

-- Is it above zero, and below zero?
abbrev pub is_positive : ℤ → Bool
is_positive a = ltb 0 (pos_part a)

abbrev pub is_negative : ℤ → Bool
is_negative a = ltb 0 (neg_part a)

abbrev pub same_int : ℤ → ℤ → Bool
same_int (pos m) (pos n) = m == n
same_int (negsuc m) (negsuc n) = m == n
same_int _ _ = false
