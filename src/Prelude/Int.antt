-- ===== src/Prelude/Int.antt =====
-- Go's `int` and `int64`, as far as a sign is looked at.
use Prim.Native.Nat.{ℕ}

pub data ℤ : Type 0 where
  pos : ℕ → ℤ
  negsuc : ℕ → ℤ
