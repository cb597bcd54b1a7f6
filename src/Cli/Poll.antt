-- ===== src/Cli/Poll.antt =====
-- The waiting loops: a check, and a pause until the next tick or the end of the context. With `ticks`
-- ticks before its end a loop makes at most `ticks + 1` checks.
pub mod Laws
use docker_in_k8s.Common.{ℕ, zero, suc}
use docker_in_k8s.Result.{Result, Error}
use docker_in_k8s.Cluster.Calls.{Action, raise, lift, ◌>>=◌}

-- What a check concludes: to wait on, or to return with a result.
pub data Verdict (A : Type 0) : Type 0 where
  again : Verdict A
  done : Result A → Verdict A

module _ {S A : Type 0} where
  abbrev pub conclude : Verdict A → Action S A → Action S A
  conclude again later = later
  conclude (done r) later = lift r

  unfoldable pub poll : ℕ → Error → Action S (Verdict A) → Action S A
  poll zero timeout check = do v ← check; conclude v (raise timeout)
  poll (suc ticks) timeout check = do v ← check; conclude v (poll ticks timeout check)
