-- ===== src/Prelude/Integers.antt =====
-- The integers over the native numbers, for signed counters and 64-bit values.
use Prim.Native.Nat.{ℕ, zero, suc}
use mathlib.Core.Bool.{Bool, true, false}

pub data ℤ : Type 0 where
  pos : ℕ → ℤ
  negsuc : ℕ → ℤ

abbrev pub ℤ_suc : ℤ → ℤ
ℤ_suc (pos n) = pos (suc n)
ℤ_suc (negsuc zero) = pos 0
ℤ_suc (negsuc (suc n)) = negsuc n

abbrev pub ℤ_pred : ℤ → ℤ
ℤ_pred (pos zero) = negsuc 0
ℤ_pred (pos (suc n)) = pos n
ℤ_pred (negsuc n) = negsuc (suc n)

abbrev pub is_zero : ℤ → Bool
is_zero (pos zero) = true
is_zero (pos (suc n)) = false
is_zero (negsuc n) = false
