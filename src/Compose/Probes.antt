-- ===== src/Compose/Probes.antt =====
-- translateResources, translateProbe and seconds.
pub mod Laws
use docker_in_k8s.Common.{
  ℕ, zero, suc, ◌+◌, ◌-◌, ◌*◌, ◌/◌, ◌^◌, Bool, Option, none, some, List, [], ◌∷◌, ◌++◌,
  if◌then◌else◌,
}
use Prim.Native.Nat.{min}
use docker_in_k8s.Common.Int.{ℤ, pos, negsuc, int32, int32_of}
use docker_in_k8s.Text.{Text, codes, ◌==◌, join, minus}
use docker_in_k8s.Dicts.{Dict}
use docker_in_k8s.Api.Types.{Quantity, parsed, binary_si, ResourceRequirements, Probe}
use docker_in_k8s.Compose.Project.{ComposeResource, Deploy, HealthCheck}

-- `duration.Round(time.Second) / time.Second` of as many nanoseconds, on either side of zero: halves go
-- away from zero, and what does not fit into 64 bits is the largest duration.
unfoldable pub rounded_seconds : ℕ → ℕ
rounded_seconds n = min ((n + 500000000) / 1000000000) ((2 ^ 63 - 1) / 1000000000)

abbrev pub at_least_one : ℤ → ℤ
at_least_one (pos zero) = pos 1
at_least_one (pos (suc n)) = pos (suc n)
at_least_one (negsuc n) = pos 1

unfoldable pub seconds : ℤ → ℤ
unfolding rounded_seconds int32_of
seconds (pos n) = at_least_one (int32_of (pos (rounded_seconds n)))
seconds (negsuc n) = at_least_one (int32_of (minus (rounded_seconds (suc n))))

abbrev cpu_entry : Option Text → Dict Quantity
cpu_entry none = []
cpu_entry (some cpus) = (codes "cpu", parsed cpus) ∷ []

abbrev memory_entry : ℤ → Dict Quantity
memory_entry (pos (suc n)) = (codes "memory", binary_si (suc n)) ∷ []
memory_entry _ = []

-- The closure `convert`.
unfoldable pub convert : Option ComposeResource → Dict Quantity
convert none = []
convert (some value) = cpu_entry value.cpus ++ memory_entry value.memory_bytes

unfoldable pub translate_resources : Option Deploy → ResourceRequirements
unfolding convert
translate_resources none = record { limits = []; requests = [] }
translate_resources (some deploy) = record {
  limits = convert deploy.limits;
  requests = convert deploy.reservations;
}

abbrev pub seconds_or : ℤ → Option ℤ → ℤ
seconds_or default none = default
seconds_or default (some duration) = seconds duration

abbrev retries_or : ℤ → Option ℕ → ℤ
retries_or default none = default
retries_or default (some retries) = int32 retries

-- translateProbe of a test, none where Test[0] panics. strings.Join with a space.
unfoldable pub probe_for : HealthCheck → List Text → Option Probe
unfolding seconds
probe_for health [] = none
probe_for health (form ∷ command) = some (record {
  command =
      if form == codes "CMD-SHELL"
      then codes "/bin/sh" ∷ codes "-c" ∷ join command b' ' ∷ []
      else command;
  timeout_seconds = seconds_or (pos 1) health.timeout;
  period_seconds = seconds_or (pos 30) health.interval;
  failure_threshold = retries_or (pos 3) health.retries;
  initial_delay_seconds = seconds_or (pos 0) health.start_period;
})

unfoldable pub translate_probe : HealthCheck → Option Probe
unfolding probe_for
translate_probe health = probe_for health health.test
