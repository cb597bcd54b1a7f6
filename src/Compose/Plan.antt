-- ===== src/Compose/Plan.antt =====
-- The plan of a Compose project, which translate makes and Apply carries out.
use docker_in_k8s.Common.{Bool, List, [], ◌∷◌}
use docker_in_k8s.Text.{Text}
use docker_in_k8s.Dicts.{Dict}
use docker_in_k8s.Api.Types.{ContainerSpec, managed_by_label, managed_by_value, project_label}
use docker_in_k8s.Cluster.{Service, ConfigMap}

pub record ServicePlan : Type 0 where
  pub name : Text
  pub container_name : Text
  pub spec : ContainerSpec
  pub service : Service

pub record VolumePlan : Type 0 where
  pub name : Text
  pub claim_name : Text
  pub external : Bool

pub record ConfigPlan : Type 0 where
  pub content_hash : Text
  pub name : Text
  pub config_map : ConfigMap

pub record Plan : Type 0 where
  pub name : Text
  pub services : List ServicePlan
  pub volumes : List VolumePlan
  pub configs : List ConfigPlan
  pub secrets : List Text
  pub normalized : Text

-- The labels of objectMeta.
abbrev pub object_labels : Text → Dict Text
object_labels project = (managed_by_label, managed_by_value) ∷ (project_label, project) ∷ []
