-- ===== src/Compose/Probes/Laws.antt =====
-- The times of a probe are at least one second and fit into 32 bits, and the probe of a validated
-- health check is defined.
use docker_in_k8s.Common.{ℕ, zero, suc, ◌≤◌, ◌<◌, ◌^◌, ◌%◌, ◌-◌, Bool-cases, inl, inr, arith, ltb}
use docker_in_k8s.Common.Int.{ℤ, pos, negsuc, int32, int32_of}
use docker_in_k8s.Text.{minus}
use docker_in_k8s.Compose.Probes.{at_least_one, seconds, rounded_seconds}

-- From 1 to 2^31 - 1.
abbrev pub IsPositive32 : ℤ → Type 0
IsPositive32 (pos n) = (1 ≤ n) × (n < 2 ^ 31)
IsPositive32 (negsuc n) = ⊥

at_least_one-int32 : (n : ℕ) → IsPositive32 (at_least_one (int32 n))
unfolding int32
at_least_one-int32 n = elim (Bool-cases (ltb (n % 2 ^ 32) (2 ^ 31))) [
  | inl e ↦ rw e (at_least_one-pos (n % 2 ^ 32) (ground arith))
  | inr e ↦ rw e (omega arith, omega arith)
]
  where
    at_least_one-pos : (m : ℕ) → m < 2 ^ 31 → IsPositive32 (at_least_one (pos m))
    at_least_one-pos zero h = (omega arith, omega arith)
    at_least_one-pos (suc m) h = (omega arith, h)

at_least_one-int32_of : (n : ℤ) → IsPositive32 (at_least_one (int32_of n))
unfolding int32_of
at_least_one-int32_of (pos n) = at_least_one-int32 n
at_least_one-int32_of (negsuc n) = at_least_one-int32 (2 ^ 32 - suc (n % 2 ^ 32))

-- Whatever the duration, the seconds of a probe are from 1 to 2^31 - 1.
pub seconds-IsPositive32 : (duration : ℤ) → IsPositive32 (seconds duration)
unfolding seconds
seconds-IsPositive32 (pos n) = at_least_one-int32_of (pos (rounded_seconds n))
seconds-IsPositive32 (negsuc n) = at_least_one-int32_of (minus (rounded_seconds (suc n)))
