-- ===== src/Tests/Fleet.antt =====
-- A cluster with one container at most, which takes the phase of its desired state at once.
use docker_in_k8s.Common.{ℕ, Option, none, some, List, [], ◌∷◌, if◌then◌else◌}
use docker_in_k8s.Text.{Text, codes, ◌==◌}
use docker_in_k8s.Result.{ok}
use docker_in_k8s.Api.Json.{nested_string}
use docker_in_k8s.Api.Container.{DockerContainer}
use docker_in_k8s.Api.Status.{phase_map}
use docker_in_k8s.Cluster.{Cluster, Resource, found}
use docker_in_k8s.Tests.Concrete.{zero_digest}
use docker_in_k8s.Tests.Memory.{fixed}

abbrev pub Fleet : Type 0
Fleet = Option DockerContainer

abbrev named : Text → Fleet → Fleet
named n none = none
named n (some o) = if o.name == n then some o else none

abbrev members : Fleet → List DockerContainer
members none = []
members (some o) = o ∷ []

-- The container behind a pass of the controller.
abbrev pub settle : DockerContainer → DockerContainer
settle o = record o {
  status = phase_map zero_digest o (nested_string o.spec (codes "desiredState"));
}

-- A container that is created is given an identity.
abbrev pub admit : DockerContainer → DockerContainer
admit o = record o { uid = codes "uid-9" }

abbrev fleet_store : Resource Fleet DockerContainer
fleet_store = record {
  get = λ n s. (found (named n s), s);
  list = λ k v s. (ok (members s), s);
  create = λ o s. (ok (admit o), some (settle (admit o)));
  update = λ o s. (ok o, some (settle o));
  delete = λ n grace s. (ok tt, none);
}

abbrev pub fleet : Cluster
fleet = record {
  State = Fleet;
  containers = λ ns. fleet_store;
  update_status = λ ns o s. (ok o, s);
  pods = λ ns. fixed (λ n. none);
  services = λ ns. fixed (λ n. none);
  config_maps = λ ns. fixed (λ n. none);
  claims = λ ns. fixed (λ n. none);
  secrets = λ ns. fixed (λ n. none);
}

-- A wait may be ended after two ticks.
abbrev pub two_ticks : Fleet → ℕ
two_ticks s = 2
