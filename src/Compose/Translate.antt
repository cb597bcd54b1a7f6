-- ===== src/Compose/Translate.antt =====
-- translate and translateService: a validated project as a plan.
pub mod Laws
use docker_in_k8s.Common.{
  ℕ, suc, Bool, true, false, Option, none, some, List, [], ◌∷◌, ◌++◌, is_nil, if◌then◌else◌,
}
use docker_in_k8s.Text.{Text, codes, print_nat}
use docker_in_k8s.Dicts.{Dict, lookup, map_values}
use docker_in_k8s.Result.{Result, ok, err, message, traverse, ◌>>=◌}
use docker_in_k8s.Api.Types.{
  EnvVar, Mount, Probe, ContainerSpec, name_label, project_label, service_label,
}
use docker_in_k8s.Api.Platform.{Platform}
use docker_in_k8s.Cluster.{Service}
use docker_in_k8s.Compose.Names.{dns_name}
use docker_in_k8s.Compose.Plan.{Plan, ServicePlan, VolumePlan, ConfigPlan, object_labels}
use docker_in_k8s.Compose.Project.{
  Project, ServiceConfig, VolumeSettings, FileSettings, VolumeMountConfig, FileReference,
  HealthCheck,
}
use docker_in_k8s.Compose.Resources.{
  FileObjectConfig, VolumeConfig, sorted_keys, plan_volumes, plan_configs, plan_secrets,
  find_secret, find_volume, find_config, find_config_hash,
}
use docker_in_k8s.Compose.Ports.{translate_ports}
use docker_in_k8s.Compose.Probes.{translate_resources, translate_probe}

-- The elements with their index, from a number on.
abbrev pub enumerate {ℓ} : {A : Type ℓ} → ℕ → List A → List (ℕ × A)
enumerate n [] = []
enumerate n (x ∷ xs) = (n, x) ∷ enumerate (suc n) xs

-- The variables of an environment that have a value.
abbrev env_entry : Text → Option (Option Text) → List EnvVar
env_entry key (some (some value)) = record { name = key; value = value } ∷ []
env_entry key _ = []

unfoldable pub env_vars : Dict (Option Text) → List Text → List EnvVar
env_vars environment [] = []
env_vars environment (key ∷ keys) =
    env_entry key (lookup key environment) ++ env_vars environment keys

abbrev target_or : Text → Text → Text
target_or target default = if is_nil target then default else target

-- The bodies of the three loops over what a service mounts.
unfoldable pub volume_mount : List VolumePlan → ℕ × VolumeMountConfig → Result Mount
volume_mount volumes (index, volume) =
    let claim = find_volume volumes volume.source in
    if is_nil claim
    then err (message (codes "service references unknown volume"))
    else ok (record {
      name = codes "volume-" ++ print_nat index;
      type = codes "pvc";
      source = claim;
      target = volume.target;
      read_only = volume.read_only;
      sub_path = [];
      items = [];
      content_hash = [];
    })

unfoldable pub config_mount : List ConfigPlan → ℕ × FileReference → Result Mount
config_mount configs (index, ref) =
    let cm = find_config configs ref.source in
    if is_nil cm
    then err (message (codes "service references unknown config"))
    else ok (record {
      name = codes "config-" ++ print_nat index;
      type = codes "configMap";
      source = cm;
      target = target_or ref.target (b'/' ∷ ref.source);
      read_only = true;
      sub_path = codes "content";
      items = (codes "content", codes "content") ∷ [];
      content_hash = find_config_hash configs ref.source;
    })

unfoldable pub secret_mount : Dict FileObjectConfig → ℕ × FileReference → Result Mount
secret_mount secrets (index, ref) =
    let secret = find_secret secrets ref.source in
    if is_nil secret
    then err (message (codes "service references unknown secret"))
    else ok (record {
      name = codes "secret-" ++ print_nat index;
      type = codes "secret";
      source = secret;
      target = target_or ref.target (codes "/run/secrets/" ++ ref.source);
      read_only = true;
      sub_path = ref.source;
      items = (ref.source, ref.source) ∷ [];
      content_hash = [];
    })

unfoldable pub translate_mounts :
    List VolumePlan → List ConfigPlan → Dict FileObjectConfig → ServiceConfig → Result (List Mount)
translate_mounts volumes configs secrets service = do
  ms1 ← traverse (volume_mount volumes) (enumerate 0 service.volumes)
  ms2 ← traverse (config_mount configs) (enumerate 0 service.configs)
  ms3 ← traverse (secret_mount secrets) (enumerate 0 service.secrets)
  ok (ms1 ++ (ms2 ++ ms3))

-- The probes for readiness and liveness, and the one for the start. A panic of translateProbe is an error
-- here.
pub record Probes : Type 0 where
  pub check : Option Probe
  pub startup : Option Probe

abbrev with_start : Option Probe → HealthCheck → Result Probes
with_start none health = err (message (codes "index out of range"))
with_start (some probe) health = ok (record {
  check = some probe;
  startup = elim health.start_period [ none ↦ none | some duration ↦ some probe ];
})

unfoldable pub translate_probes : Option HealthCheck → Result Probes
translate_probes none = ok (record { check = none; startup = none })
translate_probes (some health) =
    if health.disable
    then ok (record { check = none; startup = none })
    else with_start (translate_probe health) health

abbrev pub service_container : Platform → Text → Text → Text
service_container p project name = dns_name p.lower p.sha (project ++ b'-' ∷ name)

module _ (p : Platform) (namespace : Text) (project : Text) where
  unfoldable pub service_plan : Text → ServiceConfig → List Mount → Probes → ServicePlan
  service_plan name service mounts probes =
      let ports = translate_ports service.ports service.expose in
      record {
        name = name;
        container_name = service_container p project name;
        spec = record {
          image = service.image;
          command = service.entrypoint;
          args = service.command;
          desired_state = codes "Running";
          stdin = service.stdin_open;
          tty = service.tty;
          env = env_vars service.environment (sorted_keys service.environment);
          working_dir = service.working_dir;
          ports = ports.containers;
          mounts = mounts;
          resources = translate_resources service.deploy;
          readiness = probes.check;
          liveness = probes.check;
          startup = probes.startup;
          labels = (project_label, project) ∷ (service_label, name) ∷ [];
        };
        service = record {
          name = dns_name p.lower p.sha name;
          namespace = namespace;
          labels = object_labels project ++ (service_label, name) ∷ [];
          resource_version = [];
          selector = (name_label, service_container p project name) ∷ [];
          ports = ports.services;
          cluster_ip = if is_nil ports.services then codes "None" else [];
          settings = [];
        };
      }

  module _ (volumes : List VolumePlan) (configs : List ConfigPlan)
      (secrets : Dict FileObjectConfig) where
    unfoldable pub translate_service : Text → ServiceConfig → Result ServicePlan
    unfolding service_plan translate_mounts translate_probes
    translate_service name service = do
      mounts ← translate_mounts volumes configs secrets service
      probes ← translate_probes service.health_check
      ok (service_plan name service mounts probes)

    -- project.Services[name] of a name of the project.
    unfoldable pub translate_named : Dict ServiceConfig → Text → Result ServicePlan
    translate_named services name = elim (lookup name services) [
      | none ↦ err (message (codes "no such service"))
      | some service ↦ translate_service name service
    ]

abbrev pub volumes_of : Project → Dict VolumeConfig
volumes_of project = map_values (λ (v : VolumeSettings). v.volume) project.volumes

abbrev pub files_of : Dict FileSettings → Dict FileObjectConfig
files_of = map_values (λ (f : FileSettings). f.file)

unfoldable pub translate :
    Platform → (Text → Option Text) → (Text → Result Text) → Project → Text → Text → Result Plan
unfolding translate_named
translate p lookup_env read_file project namespace normalized =
    let name = dns_name p.lower p.sha project.name in
    let volumes = plan_volumes p name (volumes_of project) in
    let secrets = files_of project.secrets in
    do
      configs ← plan_configs p name lookup_env read_file namespace (files_of project.configs)
      services ←
          traverse (translate_named p namespace name volumes configs secrets project.services)
            (sorted_keys project.services)
      ok (record {
        name = name;
        services = services;
        volumes = volumes;
        configs = configs;
        secrets = plan_secrets secrets;
        normalized = normalized;
      })
