-- ===== src/Api/Types.antt =====
-- The Kubernetes types that the program fills in, the constants of internal/api/container.go, and
-- its ContainerSpec, Mount and ContainerStatus.
-- A time is the text that the program formats it to, and a quantity is how it was made.
use docker_in_k8s.Common.{ℕ, Bool, Option, List}
use docker_in_k8s.Common.Int.{ℤ}
use docker_in_k8s.Text.{Text, codes}
use docker_in_k8s.Dicts.{Dict}

abbrev pub group : Text
group = codes "dockube.io"

abbrev pub version : Text
version = codes "v1alpha1"

abbrev pub kind : Text
kind = codes "DockerContainer"

abbrev pub managed_by_label : Text
managed_by_label = codes "app.kubernetes.io/managed-by"

abbrev pub name_label : Text
name_label = codes "dockube.io/container-name"

abbrev pub project_label : Text
project_label = codes "dockube.io/compose-project"

abbrev pub service_label : Text
service_label = codes "dockube.io/compose-service"

abbrev pub config_hash_anno : Text
config_hash_anno = codes "dockube.io/config-hash"

abbrev pub managed_by_value : Text
managed_by_value = codes "dockube"

abbrev pub finalizer : Text
finalizer = codes "dockube.io/container-cleanup"

pub record EnvVar : Type 0 where
  pub name : Text
  pub value : Text

pub record ContainerPort : Type 0 where
  pub name : Text
  pub container_port : ℤ
  pub protocol : Text

-- resource.MustParse of a text, or resource.NewQuantity in BinarySI. Quantities that are made in
-- different ways may have one value and one canonical form.
pub data Quantity : Type 0 where
  parsed : Text → Quantity
  binary_si : ℕ → Quantity

pub record ResourceRequirements : Type 0 where
  pub limits : Dict Quantity
  pub requests : Dict Quantity

-- A probe that runs a command.
pub record Probe : Type 0 where
  pub command : List Text
  pub timeout_seconds : ℤ
  pub period_seconds : ℤ
  pub failure_threshold : ℤ
  pub initial_delay_seconds : ℤ

pub record Mount : Type 0 where
  pub name : Text
  pub type : Text
  pub source : Text
  pub target : Text
  pub read_only : Bool
  pub sub_path : Text
  pub items : Dict Text
  pub content_hash : Text

pub record ContainerSpec : Type 0 where
  pub image : Text
  pub command : List Text
  pub args : List Text
  pub desired_state : Text
  pub stdin : Bool
  pub tty : Bool
  pub env : List EnvVar
  pub working_dir : Text
  pub ports : List ContainerPort
  pub mounts : List Mount
  pub resources : ResourceRequirements
  pub readiness : Option Probe
  pub liveness : Option Probe
  pub startup : Option Probe
  pub labels : Dict Text

pub record ContainerStatus : Type 0 where
  pub id : Text
  pub phase : Text
  pub pod_name : Text
  pub reason : Text
  pub created_at : Text
  pub started_at : Text
  pub finished_at : Text
  pub exit_code : ℤ
  pub has_exit_code : Bool
  pub resource_version : Text

pub record KeyToPath : Type 0 where
  pub key : Text
  pub path : Text

pub data VolumeSource : Type 0 where
  persistent_volume_claim : Text → Bool → VolumeSource
  config_map : Text → List KeyToPath → VolumeSource
  secret : Text → List KeyToPath → VolumeSource
  empty_dir : Text → VolumeSource

pub record Volume : Type 0 where
  pub name : Text
  pub source : VolumeSource

pub record VolumeMount : Type 0 where
  pub name : Text
  pub mount_path : Text
  pub read_only : Bool
  pub sub_path : Text

pub record OwnerReference : Type 0 where
  pub api_version : Text
  pub kind : Text
  pub name : Text
  pub uid : Text
  pub controller : Bool

pub record Container : Type 0 where
  pub name : Text
  pub image : Text
  pub command : List Text
  pub args : List Text
  pub stdin : Bool
  pub tty : Bool
  pub env : List EnvVar
  pub working_dir : Text
  pub ports : List ContainerPort
  pub volume_mounts : List VolumeMount
  pub resources : ResourceRequirements
  pub readiness : Option Probe
  pub liveness : Option Probe
  pub startup : Option Probe
  pub allow_privilege_escalation : Bool
  pub dropped_capabilities : List Text

pub record PodSpec : Type 0 where
  pub automount_service_account_token : Bool
  pub restart_policy : Text
  pub termination_grace_period_seconds : ℕ
  pub volumes : List Volume
  pub run_as_non_root : Bool
  pub run_as_user : ℕ
  pub fs_group : ℕ
  pub seccomp_profile : Text
  pub containers : List Container

pub record Waiting : Type 0 where
  pub reason : Text
  pub message : Text

pub record Terminated : Type 0 where
  pub exit_code : ℤ
  pub finished_at : Text
  pub reason : Text

pub record ContainerState : Type 0 where
  pub waiting : Option Waiting
  pub terminated : Option Terminated

pub record PodCondition : Type 0 where
  pub type : Text
  pub status : Text
  pub reason : Text
  pub message : Text

pub record PodStatus : Type 0 where
  pub phase : Text
  pub reason : Text
  pub message : Text
  pub start_time : Option Text
  pub conditions : List PodCondition
  pub container_statuses : List ContainerState

pub record Pod : Type 0 where
  pub name : Text
  pub namespace : Text
  pub labels : Dict Text
  pub annotations : Dict Text
  pub owner_references : List OwnerReference
  pub spec : PodSpec
  pub status : PodStatus
