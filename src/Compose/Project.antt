-- ===== src/Compose/Project.antt =====
-- A loaded Compose project, as compose-go gives it: of its types the records have the fields that are
-- read. A map is a list of its entries in the order in which Go iterates over it.
use docker_in_k8s.Common.{ℕ, Bool, Option, List}
use docker_in_k8s.Common.Int.{ℤ}
use docker_in_k8s.Text.{Text}
use docker_in_k8s.Dicts.{Dict}
use docker_in_k8s.Compose.Resources.{VolumeConfig, FileObjectConfig}

-- What reflection says of a field of a struct: its name and its yaml tag, whether it has the zero value
-- of its type, and whether it is nil or empty.
pub record StructField : Type 0 where
  pub name : Text
  pub yaml : Text
  pub zero : Bool
  pub empty : Bool

pub record PortConfig : Type 0 where
  pub target : ℕ
  pub published : Text
  pub protocol : Text
  pub host_ip : Text
  pub mode : Text

pub record VolumeOptions : Type 0 where
  pub no_copy : Bool
  pub subpath : Text

pub record VolumeMountConfig : Type 0 where
  pub type : Text
  pub source : Text
  pub target : Text
  pub read_only : Bool
  pub volume : Option VolumeOptions

pub record FileReference : Type 0 where
  pub source : Text
  pub target : Text

-- `cpus` is a positive NanoCPUs as strconv.FormatFloat prints it.
pub record ComposeResource : Type 0 where
  pub cpus : Option Text
  pub memory_bytes : ℤ
  pub others : Bool

-- `others` is set where another setting than the resources and the restart policy is.
pub record Deploy : Type 0 where
  pub others : Bool
  pub restart_policy : Bool
  pub limits : Option ComposeResource
  pub reservations : Option ComposeResource

-- A duration is in nanoseconds.
pub record HealthCheck : Type 0 where
  pub disable : Bool
  pub test : List Text
  pub timeout : Option ℤ
  pub interval : Option ℤ
  pub retries : Option ℕ
  pub start_period : Option ℤ

-- `fields` are all fields of the struct, `scale` is GetScale().
pub record ServiceConfig : Type 0 where
  pub fields : List StructField
  pub image : Text
  pub entrypoint : List Text
  pub command : List Text
  pub stdin_open : Bool
  pub tty : Bool
  pub working_dir : Text
  pub environment : Dict (Option Text)
  pub scale : ℤ
  pub ports : List PortConfig
  pub expose : List Text
  pub volumes : List VolumeMountConfig
  pub configs : List FileReference
  pub secrets : List FileReference
  pub depends_on : Dict Text
  pub deploy : Option Deploy
  pub health_check : Option HealthCheck

-- `others` is set where a field that the program does not support is.
pub record NetworkConfig : Type 0 where
  pub name : Text
  pub others : Bool

pub record VolumeSettings : Type 0 where
  pub volume : VolumeConfig
  pub driver : Text
  pub driver_opts : Bool

pub record FileSettings : Type 0 where
  pub file : FileObjectConfig
  pub external : Bool
  pub driver : Text
  pub driver_opts : Bool
  pub template_driver : Text

pub record Project : Type 0 where
  pub name : Text
  pub models : Bool
  pub networks : Dict NetworkConfig
  pub volumes : Dict VolumeSettings
  pub configs : Dict FileSettings
  pub secrets : Dict FileSettings
  pub services : Dict ServiceConfig
