-- ===== src/Api/Pod/Laws.antt =====
-- What every Pod of a container is like, whatever the container's spec.
use docker_in_k8s.Common.{
  ◌≡◌, refl, ap, true, false, Option, none, some, List, [], ◌∷◌, map, arith, All, if◌then◌else◌,
}
use docker_in_k8s.Text.{Text, codes, ◌==◌}
use docker_in_k8s.Dicts.{lookup, text_at, or_else, lookup-merge}
use docker_in_k8s.Api.Types.{
  ContainerSpec, Mount, Volume, VolumeSource, empty_dir, VolumeMount, Container, Pod, name_label,
  managed_by_label, managed_by_value, config_hash_anno,
}
use docker_in_k8s.Api.Container.{DockerContainer}
use docker_in_k8s.Api.Platform.{Platform}
use docker_in_k8s.Api.Pod.{volume_source, Mounted, mount_one, mount_all, spec_hash, pod_for}

-- Storage of the cluster's that a workload may be given: no directory of the node.
abbrev pub IsShared : VolumeSource → Type 0
IsShared (empty_dir medium) = ⊥
IsShared _ = Unit

volume_source-IsShared : (m : Mount) (s : VolumeSource) → volume_source m ≡ some s → IsShared s
unfolding volume_source
volume_source-IsShared m (empty_dir medium) e = ground arith
volume_source-IsShared m s e = tt

-- The settings that confine a workload.
pub record IsConfined (pod : Pod) : Type 0 where
  pub no_token : pod.spec.automount_service_account_token ≡ false
  pub unprivileged :
      All (λ (c : Container). c.allow_privilege_escalation ≡ false) pod.spec.containers
  pub no_capabilities :
      All (λ (c : Container). c.dropped_capabilities ≡ codes "ALL" ∷ []) pod.spec.containers
  pub not_root : pod.spec.run_as_non_root ≡ true
  pub shared : All (λ (v : Volume). IsShared v.source) pod.spec.volumes
  -- Each mount of the container is one of the Pod's volumes, in order.
  pub mounted :
      All
        (λ (c : Container).
          map (λ (m : VolumeMount). m.name) c.volume_mounts
          ≡ map (λ (v : Volume). v.name) pod.spec.volumes)
        pod.spec.containers

mount_one-names :
    (m : Mount) (s : Option VolumeSource) (rest : Mounted)
    → map (λ (m : VolumeMount). m.name) rest.volume_mounts
      ≡ map (λ (v : Volume). v.name) rest.volumes
    → map (λ (m : VolumeMount). m.name) (mount_one m s rest).volume_mounts
      ≡ map (λ (v : Volume). v.name) (mount_one m s rest).volumes
mount_one-names m none rest e = e
mount_one-names m (some s) rest e = ap (λ (names : List Text). m.name ∷ names) e

mount_all-names :
    (ms : List Mount)
    → map (λ (m : VolumeMount). m.name) (mount_all ms).volume_mounts
      ≡ map (λ (v : Volume). v.name) (mount_all ms).volumes
unfolding mount_all
mount_all-names [] = refl
mount_all-names (m ∷ ms) = mount_one-names m (volume_source m) _ (mount_all-names ms)

mount_one-IsShared :
    (m : Mount) (s : Option VolumeSource) (rest : Mounted)
    → volume_source m ≡ s
    → All (λ (v : Volume). IsShared v.source) rest.volumes
    → All (λ (v : Volume). IsShared v.source) (mount_one m s rest).volumes
mount_one-IsShared m none rest e h = h
mount_one-IsShared m (some s) rest e h = (volume_source-IsShared m s e, h)

mount_all-IsShared :
    (ms : List Mount) → All (λ (v : Volume). IsShared v.source) (mount_all ms).volumes
unfolding mount_all
mount_all-IsShared [] = tt
mount_all-IsShared (m ∷ ms) = mount_one-IsShared m (volume_source m) _ refl (mount_all-IsShared ms)

module _ (p : Platform) (obj : DockerContainer) (spec : ContainerSpec) where
  -- Every Pod has no service account token, no capabilities, no privilege escalation and no root
  -- user, its volumes are claims, config maps and secrets, and the mounts of its container are
  -- its volumes in order.
  pub pod_for-IsConfined : IsConfined (pod_for p obj spec)
  unfolding pod_for
  pod_for-IsConfined = record {
    no_token = refl;
    unprivileged = (refl, tt);
    no_capabilities = (refl, tt);
    not_root = refl;
    shared = mount_all-IsShared spec.mounts;
    mounted = (mount_all-names spec.mounts, tt);
  }

  -- The Pod carries every label of the spec and, unless these say otherwise, the managed-by label
  -- and the container's name.
  pub pod_for-labels :
      (key : Text)
      → lookup key (pod_for p obj spec).labels
        ≡ or_else (lookup key spec.labels) (
            if key == managed_by_label
            then some managed_by_value
            else if key == name_label
            then some obj.name
            else none)
  unfolding pod_for lookup
  pod_for-labels key =
      lookup-merge key ((managed_by_label, managed_by_value) ∷ (name_label, obj.name) ∷ [])
        spec.labels

-- The desired state is no part of the hash: to stop or start a container is no change of its spec.
pub spec_hash_of_state :
    (p : Platform) (spec : ContainerSpec) (state : Text)
    → spec_hash p (record spec { desired_state = state }) ≡ spec_hash p spec
unfolding spec_hash
spec_hash_of_state p spec state = refl

-- The Pod carries the digest of the spec that it is made from.
pub pod_for-hash :
    (p : Platform) (obj : DockerContainer) (spec : ContainerSpec)
    → text_at config_hash_anno (pod_for p obj spec).annotations ≡ spec_hash p spec
unfolding pod_for text_at ◌==◌
pod_for-hash p obj spec = refl
