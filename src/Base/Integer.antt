-- ===== src/Base/Integer.antt =====
-- Signed numbers, before any check of their range: `pos n` is n, and `negsuc n` is -(n + 1).
use Prim.Native.Nat.{ℕ}

pub data ℤ : Type 0 where
  pos negsuc : ℕ → ℤ
