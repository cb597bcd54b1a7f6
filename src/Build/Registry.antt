-- ===== src/Build/Registry.antt =====
-- buildRegistryConfiguration: what the BuildKit container mounts.
pub mod Laws
use docker_in_k8s.Common.{Bool, true, false, List, [], ◌∷◌, ◌++◌, if◌then◌else◌, is_nil}
use docker_in_k8s.Text.{Text, codes}
use docker_in_k8s.Api.Types.{
  EnvVar, KeyToPath, VolumeSource, persistent_volume_claim, secret, empty_dir, Volume, VolumeMount,
}

pub record RegistryOptions : Type 0 where
  pub auth_secret : Text
  pub ca_secret : Text
  pub cache_pvc : Text
  pub secrets : Bool

pub record RegistryConfiguration : Type 0 where
  pub env : List EnvVar
  pub mounts : List VolumeMount
  pub volumes : List Volume

abbrev mount : Text → Text → Bool → Text → VolumeMount
mount name path read_only sub_path = record {
  name = name;
  mount_path = path;
  read_only = read_only;
  sub_path = sub_path;
}

abbrev volume : Text → VolumeSource → Volume
volume name source = record { name = name; source = source }

abbrev key_to_path : Text → Text → KeyToPath
key_to_path key path = record { key = key; path = path }

abbrev pub base_configuration : Text → Text → RegistryConfiguration
base_configuration cache_pvc dockerfile = record {
  env =
      record { name = codes "DOCKERFILE"; value = dockerfile }
      ∷ record { name = codes "BUILDKITD_FLAGS"; value = codes "--oci-worker-no-process-sandbox" }
      ∷ [];
  mounts =
      mount (codes "workspace") (codes "/workspace") false []
      ∷ mount (codes "buildkit") (codes "/home/user/.local/share/buildkit") false []
      ∷ [];
  volumes =
      volume (codes "workspace") (empty_dir [])
      ∷ volume (codes "buildkit")
          (if is_nil cache_pvc then empty_dir [] else persistent_volume_claim cache_pvc false)
      ∷ [];
}

abbrev pub add_auth : Text → RegistryConfiguration → RegistryConfiguration
add_auth auth_secret r = record {
  env = r.env ++ record { name = codes "DOCKER_CONFIG"; value = codes "/run/dockube/docker" } ∷ [];
  mounts = r.mounts ++ mount (codes "registry-auth") (codes "/run/dockube/docker") true [] ∷ [];
  volumes =
      r.volumes
      ++ volume (codes "registry-auth")
          (secret auth_secret (key_to_path (codes ".dockerconfigjson") (codes "config.json") ∷ []))
        ∷ [];
}

abbrev pub add_ca : Text → RegistryConfiguration → RegistryConfiguration
add_ca ca_secret r = record r {
  mounts =
      r.mounts
      ++ mount (codes "registry-ca") (codes "/etc/ssl/certs/dockube-registry-ca.crt") true
          (codes "ca.crt")
        ∷ [];
  volumes =
      r.volumes
      ++ volume (codes "registry-ca")
          (secret ca_secret (key_to_path (codes "ca.crt") (codes "ca.crt") ∷ []))
        ∷ [];
}

abbrev pub add_secrets : RegistryConfiguration → RegistryConfiguration
add_secrets r = record r {
  mounts = r.mounts ++ mount (codes "build-secrets") (codes "/run/dockube/secrets") false [] ∷ [];
  volumes = r.volumes ++ volume (codes "build-secrets") (empty_dir (codes "Memory")) ∷ [];
}

unfoldable pub build_registry_configuration : Text → RegistryOptions → RegistryConfiguration
build_registry_configuration dockerfile o =
    let base = base_configuration o.cache_pvc dockerfile in
    let with_auth = if is_nil o.auth_secret then base else add_auth o.auth_secret base in
    let with_ca = if is_nil o.ca_secret then with_auth else add_ca o.ca_secret with_auth in
    if o.secrets then add_secrets with_ca else with_ca
