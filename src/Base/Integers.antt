-- ===== src/Base/Integers.antt =====
-- Signed numbers: Go's int, int64 and time.Duration.
use Prim.Native.Nat.{ℕ}

pub data ℤ : Type 0 where
  pos : ℕ → ℤ
  negsuc : ℕ → ℤ
