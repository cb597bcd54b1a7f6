-- ===== src/Common/Int.antt =====
-- Signed integers, for Go's int32 and int64 values. `negsuc n` is -(n + 1).
use Prim.Native.Nat.{ℕ, ◌-◌, ◌%◌, ◌^◌, suc}
use docker_in_k8s.Common.Tests.{ltb, if◌then◌else◌}

pub data ℤ : Type 0 where
  pos : ℕ → ℤ
  negsuc : ℕ → ℤ

-- int32(n) of an unsigned or a non-negative value.
unfoldable pub int32 : ℕ → ℤ
int32 n = let low = n % 2 ^ 32 in if ltb low (2 ^ 31) then pos low else negsuc (2 ^ 32 - suc low)

-- int32(n) of a signed value.
unfoldable pub int32_of : ℤ → ℤ
unfolding int32
int32_of (pos n) = int32 n
int32_of (negsuc n) = int32 (2 ^ 32 - suc (n % 2 ^ 32))
