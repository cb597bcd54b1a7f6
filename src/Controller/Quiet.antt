-- ===== src/Controller/Quiet.antt =====
-- What a cluster does that nobody else changes, and what the server leaves of a Pod as it was sent.
use docker_in_k8s.Common.{ℕ, ◌≡◌, Option, List, [], ◌∷◌, map}
use docker_in_k8s.Common.Int.{ℤ}
use docker_in_k8s.Text.{Text}
use docker_in_k8s.Result.{ok, Pairwise}
use docker_in_k8s.Api.Types.{ContainerSpec, ContainerPort, Container, Pod}
use docker_in_k8s.Api.Container.{DockerContainer}
use docker_in_k8s.Cluster.{Cluster, IsStore}

abbrev pub port_numbers : List ContainerPort → List ℤ
port_numbers = map (λ (x : ContainerPort). x.container_port)

-- The fields of a container that the server does not fill in. It does fill in the protocols of ports,
-- the requests of resources and the settings of probes.
pub record SameContainer (sent stored : Container) : Type 0 where
  pub name : stored.name ≡ sent.name
  pub image : stored.image ≡ sent.image
  pub command : stored.command ≡ sent.command
  pub args : stored.args ≡ sent.args
  pub stdin : stored.stdin ≡ sent.stdin
  pub tty : stored.tty ≡ sent.tty
  pub env : stored.env ≡ sent.env
  pub working_dir : stored.working_dir ≡ sent.working_dir
  pub ports : port_numbers stored.ports ≡ port_numbers sent.ports
  pub volume_mounts : stored.volume_mounts ≡ sent.volume_mounts

abbrev pub SameContainers : List Container → List Container → Type 0
SameContainers = Pairwise SameContainer

-- What the server leaves of a Pod as it was sent, where no admission hook changes it.
abbrev pub SamePod : Pod → Pod → Type 0
SamePod sent stored =
    (stored.annotations ≡ sent.annotations)
    × (stored.spec.restart_policy ≡ sent.spec.restart_policy)
    × SameContainers sent.spec.containers stored.spec.containers

-- The containers of a Pod that runs a spec: one, with what the spec says.
abbrev pub RunsIn : ContainerSpec → List Container → Type 0
RunsIn sp [] = ⊥
RunsIn sp (main ∷ []) =
    (main.image ≡ sp.image)
    × (main.command ≡ sp.command)
    × (main.args ≡ sp.args)
    × (main.stdin ≡ sp.stdin)
    × (main.tty ≡ sp.tty)
    × (main.env ≡ sp.env)
    × (main.working_dir ≡ sp.working_dir)
    × (port_numbers main.ports ≡ port_numbers sp.ports)
RunsIn sp (main ∷ next ∷ rest) = ⊥

abbrev pub Runs : ContainerSpec → Pod → Type 0
Runs sp pod = RunsIn sp pod.spec.containers

-- A cluster whose Pods nobody else creates, changes or deletes, where a deleted Pod is gone at once
-- (it has no grace period to wait for) and the update of a status succeeds.
pub record IsQuiet (c : Cluster) (pod_at : c.State → Text → Text → Option Pod) : Type 0 where
  pub pods : (ns : Text) → IsStore (c.pods ns) (λ s n. pod_at s ns n) (λ q. q.name) SamePod
  pub status :
      (s : c.State) (ns : Text) (o : DockerContainer)
      → (o' : DockerContainer) × (s' : c.State) × (c.update_status ns o s ≡ (ok o', s'))
        × ((m n : Text) → pod_at s' m n ≡ pod_at s m n)

-- The finalizers of the containers, which nobody else changes either: an update stores those that are
-- sent, where a container that is deleted and has none left is gone and has none, and a deletion of a
-- Pod leaves them.
pub record IsHeld (c : Cluster) (finalizers_at : c.State → Text → Text → List Text) : Type 0 where
  pub update :
      (s : c.State) (o : DockerContainer)
      → (o' : DockerContainer) × (s' : c.State) × ((c.containers o.namespace).update o s
          ≡ (ok o', s'))
        × (finalizers_at s' o.namespace o.name ≡ o.finalizers)
  pub delete :
      (s s' : c.State) (ns n : Text) (grace : Option ℕ)
      → (c.pods ns).delete n grace s ≡ (ok tt, s')
      → (m k : Text) → finalizers_at s' m k ≡ finalizers_at s m k
