-- ===== src/Api/Container.antt =====
-- The DockerContainer custom resource, as an unstructured object: metadata, spec and status.
use docker_in_k8s.Common.{Bool, false, List, [], ◌∷◌, none}
use docker_in_k8s.Text.{Text}
use docker_in_k8s.Dicts.{Dict, merge}
use docker_in_k8s.Api.Types.{ContainerSpec, managed_by_label, managed_by_value}
use docker_in_k8s.Api.Json.{JsonMap}

-- `deleting` is set where the deletion timestamp is.
pub record DockerContainer : Type 0 where
  pub name : Text
  pub namespace : Text
  pub uid : Text
  pub resource_version : Text
  pub creation_timestamp : Text
  pub deleting : Bool
  pub labels : Dict Text
  pub finalizers : List Text
  pub spec : JsonMap
  pub status : JsonMap

-- NewContainer: what the server fills in is empty.
unfoldable pub new_container :
    (ContainerSpec → JsonMap) → Text → Text → ContainerSpec → DockerContainer
unfolding merge
new_container spec_map name namespace spec = record {
  name = name;
  namespace = namespace;
  uid = [];
  resource_version = [];
  creation_timestamp = [];
  deleting = false;
  labels = merge ((managed_by_label, managed_by_value) ∷ []) spec.labels;
  finalizers = [];
  spec = spec_map spec;
  status = λ k. none;
}
