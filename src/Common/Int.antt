-- ===== src/Common/Int.antt =====
-- Signed integers of the source, as far as indices and error codes need them.
use Prim.Native.Nat.{ℕ}

-- `negsuc n` is -(n + 1).
pub data ℤ : Type 0 where
  pos : ℕ → ℤ
  negsuc : ℕ → ℤ

-- The error code -1.
abbrev pub minus_one : ℤ
minus_one = negsuc 0
