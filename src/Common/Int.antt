-- ===== src/Common/Int.antt =====
-- Integers over the native numbers, for the `int` results of the C functions.
use Prim.Native.Nat.{ℕ}

-- `negsuc n` is -(n + 1).
pub data ℤ : Type 0 where
  pos : ℕ → ℤ
  negsuc : ℕ → ℤ
