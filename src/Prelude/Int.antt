-- ===== src/Prelude/Int.antt =====
-- Python's `int`, and the numbers that a protobuf field holds.
use Prim.Native.Nat.{ℕ, ◌^◌, ◌<◌}

-- `negsuc n` is -(n + 1).
pub data ℤ : Type 0 where
  pos : ℕ → ℤ
  negsuc : ℕ → ℤ

abbrev pub InInt32 : ℤ → Type 0
InInt32 (pos n) = n < 2 ^ 31
InInt32 (negsuc n) = n < 2 ^ 31

abbrev pub InUint64 : ℤ → Type 0
InUint64 (pos n) = n < 2 ^ 64
InUint64 (negsuc n) = ⊥
