-- ===== src/Api/Pod.antt =====
-- PodFor, SpecHash and keyToPathItems: the Pod that runs a container.
pub mod Laws
use docker_in_k8s.Common.{
  true, false, Option, none, some, List, [], ◌∷◌, ◌++◌, map, take, if◌then◌else◌,
}
use docker_in_k8s.Text.{Text, codes, ◌==◌, sort_texts}
use docker_in_k8s.Dicts.{Dict, merge, keys, text_at}
use docker_in_k8s.Api.Types.{
  ContainerSpec, Mount, KeyToPath, Volume, VolumeSource, persistent_volume_claim, config_map,
  secret, VolumeMount, Container, PodSpec, Pod, PodStatus, group, version, kind, managed_by_label,
  managed_by_value, name_label, config_hash_anno,
}
use docker_in_k8s.Api.Ids.{pod_name}
use docker_in_k8s.Api.Container.{DockerContainer}
use docker_in_k8s.Api.Platform.{Platform}

unfoldable pub key_to_path_items : Dict Text → List KeyToPath
key_to_path_items items =
    map (λ k. record { key = k; path = text_at k items }) (sort_texts (keys items))

-- The switch over a mount's type; none for the types that the loop skips.
unfoldable pub volume_source : Mount → Option VolumeSource
volume_source mount =
    if mount.type == codes "pvc"
    then some (persistent_volume_claim mount.source mount.read_only)
    else if mount.type == codes "configMap"
    then some (config_map mount.source (key_to_path_items mount.items))
    else if mount.type == codes "secret"
    then some (secret mount.source (key_to_path_items mount.items))
    else none

pub record Mounted : Type 0 where
  pub volumes : List Volume
  pub volume_mounts : List VolumeMount

abbrev mount_one : Mount → Option VolumeSource → Mounted → Mounted
mount_one mount none rest = rest
mount_one mount (some source) rest = record {
  volumes = record { name = mount.name; source = source } ∷ rest.volumes;
  volume_mounts =
      record {
        name = mount.name;
        mount_path = mount.target;
        read_only = mount.read_only;
        sub_path = mount.sub_path;
      }
      ∷ rest.volume_mounts;
}

-- The loop over spec.Mounts.
unfoldable pub mount_all : List Mount → Mounted
mount_all [] = record { volumes = []; volume_mounts = [] }
mount_all (mount ∷ mounts) = mount_one mount (volume_source mount) (mount_all mounts)

module _ (p : Platform) where
  -- The digest of the spec without its desired state.
  unfoldable pub spec_hash : ContainerSpec → Text
  spec_hash spec = take 16 (p.sha (p.marshal (record spec { desired_state = [] })))

  abbrev pub pod_labels : Text → ContainerSpec → Dict Text
  pod_labels name spec =
      merge ((managed_by_label, managed_by_value) ∷ (name_label, name) ∷ []) spec.labels

  abbrev main_container : ContainerSpec → Mounted → Container
  main_container spec mounted = record {
    name = codes "main";
    image = spec.image;
    command = spec.command;
    args = spec.args;
    stdin = spec.stdin;
    tty = spec.tty;
    env = spec.env;
    working_dir = spec.working_dir;
    ports = spec.ports;
    volume_mounts = mounted.volume_mounts;
    resources = spec.resources;
    readiness = spec.readiness;
    liveness = spec.liveness;
    startup = spec.startup;
    allow_privilege_escalation = false;
    dropped_capabilities = codes "ALL" ∷ [];
  }

  abbrev pub no_status : PodStatus
  no_status = record {
    phase = [];
    reason = [];
    message = [];
    start_time = none;
    conditions = [];
    container_statuses = [];
  }

  unfoldable pub pod_for : DockerContainer → ContainerSpec → Pod
  unfolding mount_all
  pod_for obj spec =
      let mounted = mount_all spec.mounts in
      record {
        name = pod_name p.sha obj.name obj.uid;
        namespace = obj.namespace;
        labels = pod_labels obj.name spec;
        annotations = (config_hash_anno, spec_hash spec) ∷ [];
        owner_references =
            record {
              api_version = group ++ codes "/" ++ version;
              kind = kind;
              name = obj.name;
              uid = obj.uid;
              controller = true;
            }
            ∷ [];
        spec = record {
          automount_service_account_token = false;
          restart_policy = codes "Never";
          termination_grace_period_seconds = 10;
          volumes = mounted.volumes;
          run_as_non_root = true;
          run_as_user = 65532;
          fs_group = 65532;
          seccomp_profile = codes "RuntimeDefault";
          containers = main_container spec mounted ∷ [];
        };
        status = no_status;
      }
