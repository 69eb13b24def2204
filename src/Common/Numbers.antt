-- ===== src/Common/Numbers.antt =====
-- The signed integers.
use Prim.Native.Nat.{ℕ}

-- `negsuc n` is minus one minus `n`.
pub data ℤ : Type 0 where
  pos negsuc : ℕ → ℤ
