-- ===== src/Prelude/Int.antt =====
-- Signed numbers, for durations that may be zero or negative.
use Prim.Native.Nat.{ℕ}

-- `negsuc n` is -(n + 1).
pub data ℤ : Type 0 where
  pos : ℕ → ℤ
  negsuc : ℕ → ℤ
