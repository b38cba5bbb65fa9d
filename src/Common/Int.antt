-- ===== src/Common/Int.antt =====
-- The int of C++, as far as the program compares it: `negsuc n` is -(n + 1).
use Prim.Native.Nat.{ℕ}

pub data ℤ : Type 0 where
  pos negsuc : ℕ → ℤ
