-- ===== src/Compose/Validate.antt =====
-- validate and validateServiceFields: what of a Compose project is supported.
pub mod Laws
use docker_in_k8s.Common.{
  ℕ, ◌&&◌, ◌||◌, not, Bool, true, false, Option, none, some, List, [], ◌∷◌, ◌++◌, is_nil, any, eqb,
  if◌then◌else◌,
}
use docker_in_k8s.Common.Int.{ℤ, pos, negsuc}
use docker_in_k8s.Text.{Text, codes, ◌==◌, is_one_of, cut}
use docker_in_k8s.Dicts.{Dict, lookup}
use docker_in_k8s.Result.{Result, ok, err, Error, message, wrap, ◌>>=◌, ◌>>◌}
use docker_in_k8s.Api.Platform.{Platform}
use docker_in_k8s.Compose.Names.{dns_name}
use docker_in_k8s.Compose.Plan.{Plan}
use docker_in_k8s.Compose.Translate.{translate}
use docker_in_k8s.Compose.Project.{
  Project, ServiceConfig, StructField, NetworkConfig, VolumeSettings, FileSettings,
  VolumeMountConfig, VolumeOptions, PortConfig, Deploy, ComposeResource, HealthCheck,
}

abbrev pub Check : Type 0
Check = Result (Unit {0})

abbrev unsupported : Text → Error
unsupported field = message (codes "unsupported Compose field: " ++ field)

-- `if test { return e }`
abbrev pub reject : Bool → Error → Check
reject true e = err e
reject false e = ok tt

unfoldable pub check_each {ℓ} : {A : Type ℓ} → (A → Check) → List A → Check
check_each check [] = ok tt
check_each check (x ∷ xs) = do check x; check_each check xs

abbrev pub given : Text → Bool
given t = not (is_nil t)

abbrev pub allowed_fields : List Text
allowed_fields =
    codes "Name"
    ∷ codes "Command"
    ∷ codes "Configs"
    ∷ codes "CustomLabels"
    ∷ codes "DependsOn"
    ∷ codes "Deploy"
    ∷ codes "Entrypoint"
    ∷ codes "Environment"
    ∷ codes "EnvFiles"
    ∷ codes "Expose"
    ∷ codes "HealthCheck"
    ∷ codes "Image"
    ∷ codes "Networks"
    ∷ codes "Ports"
    ∷ codes "Secrets"
    ∷ codes "StdinOpen"
    ∷ codes "Tty"
    ∷ codes "Volumes"
    ∷ codes "WorkingDir"
    ∷ []

abbrev tag_of : StructField → Text
tag_of field =
    let tag = (cut field.yaml b',').before in
    if is_nil tag || tag == codes "-" then field.name else tag

abbrev pub is_allowed : StructField → Bool
is_allowed field = is_one_of field.name allowed_fields || field.zero

unfoldable pub validate_service_fields : Text → List StructField → Check
validate_service_fields name [] = ok tt
validate_service_fields name (field ∷ fields) = do
  reject (not (is_allowed field))
      (unsupported (codes "service " ++ name ++ codes " " ++ tag_of field))
  validate_service_fields name fields

-- A field of the service that is not zero, or not empty.
unfoldable pub is_set : Text → List StructField → Bool
is_set name fields = any (λ (f : StructField). f.name == name && not f.zero) fields

unfoldable pub is_filled : Text → List StructField → Bool
is_filled name fields = any (λ (f : StructField). f.name == name && not f.empty) fields

unfoldable pub check_network : Text → Text × NetworkConfig → Check
check_network project (name, network) =
    reject
      (not (name == codes "default")
        || network.others
        || not (network.name == project ++ codes "_default"))
      (unsupported (codes "network " ++ name ++ codes " configuration"))

unfoldable pub check_volume : Text × VolumeSettings → Check
check_volume (name, volume) = do
  reject (given volume.driver && not (volume.driver == codes "local"))
      (unsupported (codes "volume " ++ name ++ codes " driver"))
  reject volume.driver_opts (unsupported (codes "volume " ++ name ++ codes " driver_opts"))

unfoldable pub check_config : Text × FileSettings → Check
check_config (name, config) = do
  reject config.external (unsupported (codes "external config " ++ name))
  reject (given config.driver || config.driver_opts || given config.template_driver)
      (unsupported (codes "config " ++ name ++ codes " driver options"))
  reject (is_nil config.file.file && is_nil config.file.content && is_nil config.file.environment)
      (message (codes "config must define file, content, or environment"))

unfoldable pub check_secret : Text × FileSettings → Check
check_secret (name, secret) = do
  reject (not secret.external)
      (message (codes "secret must be external and reference an existing Kubernetes Secret"))
  reject
      (given secret.file.file
        || given secret.file.content
        || given secret.file.environment
        || given secret.driver)
      (unsupported (codes "inline secret " ++ name))

abbrev in_service : Text → Text → Error
in_service name what = unsupported (codes "service " ++ name ++ b' ' ∷ what)

abbrev has_restart_policy : Option Deploy → Bool
has_restart_policy none = false
has_restart_policy (some deploy) = deploy.restart_policy

abbrev is_one : ℤ → Bool
is_one (pos n) = eqb n 1
is_one (negsuc n) = false

-- The settings of a service that no workload has, from its logging to its tmpfs.
unfoldable pub check_settings : Text → ServiceConfig → Check
check_settings name service =
    let set = λ (field : Text). is_set field service.fields in
    let filled = λ (field : Text). is_filled field service.fields in
    do
      reject (set (codes "Logging") || set (codes "LogDriver") || filled (codes "LogOpt"))
          (in_service name (codes "logging"))
      reject (set (codes "Build")) (in_service name (codes "build"))
      reject (set (codes "Privileged")) (in_service name (codes "privileged"))
      reject
          (filled (codes "Devices") || filled (codes "DeviceCgroupRules") || filled (codes "Gpus"))
          (in_service name (codes "devices"))
      reject (set (codes "NetworkMode") || set (codes "Net"))
          (in_service name (codes "network_mode"))
      reject (set (codes "Pid") || set (codes "Ipc") || set (codes "Uts"))
          (in_service name (codes "host namespaces"))
      reject (set (codes "User")) (in_service name (codes "user"))
      reject (set (codes "ContainerName")) (in_service name (codes "container_name"))
      reject (set (codes "Restart") || has_restart_policy service.deploy)
          (in_service name (codes "restart policy"))
      reject (not (is_one service.scale)) (in_service name (codes "replicas other than 1"))
      reject
          (filled (codes "CapAdd")
            || filled (codes "CapDrop")
            || filled (codes "SecurityOpt")
            || filled (codes "Sysctls"))
          (in_service name (codes "security overrides"))
      reject
          (filled (codes "ExtraHosts")
            || filled (codes "DNS")
            || filled (codes "DNSOpts")
            || filled (codes "DNSSearch")
            || set (codes "Hostname")
            || set (codes "DomainName"))
          (in_service name (codes "DNS/host overrides"))
      reject (filled (codes "Tmpfs") || filled (codes "VolumesFrom"))
          (in_service name (codes "non-named volumes"))

abbrev has_options : Option VolumeOptions → Bool
has_options none = false
has_options (some options) = options.no_copy || given options.subpath

unfoldable pub check_volume_mount : Text → VolumeMountConfig → Check
check_volume_mount name volume = do
  reject (not (volume.type == codes "volume") || is_nil volume.source)
      (in_service name (codes "host, anonymous, tmpfs, image, or CSI mounts"))
  reject (has_options volume.volume) (in_service name (codes "volume options"))

abbrev pub is_missing {ℓ} : {A : Type ℓ} → Option A → Bool
is_missing none = true
is_missing (some a) = false

unfoldable pub check_dependency : Dict ServiceConfig → Text → Text × Text → Check
check_dependency services name (dependency, condition) = do
  reject (is_missing (lookup dependency services))
      (message (codes "service depends on unknown service"))
  reject (given condition && not (condition == codes "service_started"))
      (in_service name (codes "depends_on condition"))

abbrev has_others : Option ComposeResource → Bool
has_others none = false
has_others (some resources) = resources.others

unfoldable pub check_deploy : Text → Option Deploy → Check
check_deploy name none = ok tt
check_deploy name (some deploy) = do
  reject deploy.others (in_service name (codes "deploy settings other than resources"))
  reject (has_others deploy.limits) (in_service name (codes "non-CPU/memory resources"))
  reject (has_others deploy.reservations) (in_service name (codes "non-CPU/memory resources"))

-- A test of a form that the program runs.
abbrev pub is_command_test : List Text → Bool
is_command_test (form ∷ word ∷ words) = form == codes "CMD" || form == codes "CMD-SHELL"
is_command_test _ = false

unfoldable pub check_health : Text → Option HealthCheck → Check
check_health name none = ok tt
check_health name (some health) =
    reject (not health.disable && not (is_command_test health.test))
      (in_service name (codes "healthcheck form"))

unfoldable pub check_port : Text → PortConfig → Check
check_port name port =
    reject
      (eqb port.target 0
        || port.protocol == codes "sctp"
        || given port.host_ip
        || (given port.mode && not (port.mode == codes "ingress")))
      (in_service name (codes "port options"))

module _ (p : Platform) where
  unfoldable pub validate_service : Dict ServiceConfig → Text × ServiceConfig → Check
  unfolding check_each
  validate_service services (name, service) = do
    reject (not (dns_name p.lower p.sha name == name))
        (message (codes "service name is not a valid Kubernetes DNS name"))
    validate_service_fields name service.fields
    reject (is_nil service.image) (message (codes "image is required; build is unsupported"))
    check_settings name service
    check_each (check_volume_mount name) service.volumes
    check_each (check_dependency services name) service.depends_on
    check_deploy name service.deploy
    check_health name service.health_check
    check_each (check_port name) service.ports

  unfoldable pub validate : Project → Check
  unfolding check_each validate_service
  validate project = do
    reject (is_nil project.services) (message (codes "compose project has no enabled services"))
    reject project.models (unsupported (codes "top-level models"))
    check_each (check_network project.name) project.networks
    check_each check_volume project.volumes
    check_each check_config project.configs
    check_each check_secret project.secrets
    check_each (validate_service project.services) project.services

-- The part of Load behind the parser: `parsed` is what LoadProject returns, `marshal` MarshalYAML.
unfoldable pub load :
    Platform
    → (Text → Option Text)
    → (Text → Result Text)
    → (Project → Result Text)
    → Result Project
    → Text
    → Result Plan
unfolding validate
load p lookup_env read_file marshal parsed namespace = do
  project ← wrap (codes "compose config") parsed
  validate p project
  normalized ← marshal project
  translate p lookup_env read_file project namespace normalized
