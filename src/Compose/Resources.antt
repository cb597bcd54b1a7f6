-- ===== src/Compose/Resources.antt =====
-- internal/compose/project.go: the volumes, configs and secrets of a plan (the loops of translate,
-- configContent, sortedKeys) and the functions that find them. Of the types of compose-go the records
-- have the fields that are read.
pub mod Laws
pub mod Members
use docker_in_k8s.Common.{
  ℕ, Bool, true, false, not, Option, none, some, List, [], ◌∷◌, ◌++◌, map, if◌then◌else◌, is_nil,
}
use docker_in_k8s.Text.{Text, codes, ◌==◌, sort_texts}
use docker_in_k8s.Dicts.{Dict, lookup, keys}
use docker_in_k8s.Result.{Result, ok, err, message, wrap, traverse, ◌>>=◌}
use docker_in_k8s.Api.Platform.{Platform}
use docker_in_k8s.Cluster.{ConfigMap}
use docker_in_k8s.Compose.Names.{dns_name, short_hash}
use docker_in_k8s.Compose.Plan.{VolumePlan, ConfigPlan, object_labels}

pub record VolumeConfig : Type 0 where
  pub name : Text
  pub external : Bool

pub record FileObjectConfig : Type 0 where
  pub name : Text
  pub content : Text
  pub environment : Text
  pub file : Text

unfoldable pub sorted_keys {ℓ} : {A : Type ℓ} → Dict A → List Text
sorted_keys values = sort_texts (keys values)

abbrev text_or_error : Option Text → Result Text
text_or_error none = err (message (codes "environment variable is not set"))
text_or_error (some value) = ok value

-- configContent; `read_file` is os.ReadFile of the cleaned path.
unfoldable pub config_content :
    (Text → Option Text) → (Text → Result Text) → FileObjectConfig → Result Text
config_content lookup_env read_file config =
    if not (is_nil config.content)
    then ok config.content
    else if not (is_nil config.environment)
    then text_or_error (lookup_env config.environment)
    else read_file config.file

abbrev no_file : FileObjectConfig
no_file = record { name = []; content = []; environment = []; file = [] }

-- m[name] of a Go map: the zero value where there is none.
abbrev config_at : Option FileObjectConfig → FileObjectConfig
config_at none = no_file
config_at (some config) = config

module _ (p : Platform) (project : Text) where
  abbrev name_for : Text → Text
  name_for name = dns_name p.lower p.sha (project ++ (b'-' ∷ name))

  -- The body of the loop over the volumes, with a volume's configuration.
  unfoldable pub volume_plan : Text → Option VolumeConfig → VolumePlan
  volume_plan name none = record { name = name; claim_name = name_for name; external = false }
  volume_plan name (some volume) = record {
    name = name;
    claim_name = if is_nil volume.name then name_for name else dns_name p.lower p.sha volume.name;
    external = volume.external;
  }

  unfoldable pub plan_volumes : Dict VolumeConfig → List VolumePlan
  plan_volumes volumes = map (λ name. volume_plan name (lookup name volumes)) (sorted_keys volumes)

  abbrev pub config_plan : Text → Text → Text → ConfigPlan
  config_plan namespace name content = record {
    content_hash = short_hash p.sha content;
    name = name;
    config_map = record {
      name = dns_name p.lower p.sha (project ++ (codes "-config-" ++ name));
      namespace = namespace;
      labels = object_labels project;
      contents = (codes "content", content) ∷ [];
    };
  }

  module _ (lookup_env : Text → Option Text) (read_file : Text → Result Text)
      (namespace : Text) where
    unfoldable pub plan_config : Dict FileObjectConfig → Text → Result ConfigPlan
    plan_config configs name = do
      content ←
          wrap (codes "config")
            (config_content lookup_env read_file (config_at (lookup name configs)))
      ok (config_plan namespace name content)

    unfoldable pub plan_configs : Dict FileObjectConfig → Result (List ConfigPlan)
    plan_configs configs = traverse (plan_config configs) (sorted_keys configs)

-- The name of the Kubernetes Secret behind a secret.
abbrev secret_name_or : Text → Option FileObjectConfig → Text
secret_name_or name none = []
secret_name_or name (some secret) = if is_nil secret.name then name else secret.name

unfoldable pub find_secret : Dict FileObjectConfig → Text → Text
find_secret secrets name = secret_name_or name (lookup name secrets)

unfoldable pub plan_secrets : Dict FileObjectConfig → List Text
plan_secrets secrets = map (find_secret secrets) (sorted_keys secrets)

unfoldable pub find_volume : List VolumePlan → Text → Text
find_volume [] name = []
find_volume (volume ∷ volumes) name =
    let rest = find_volume volumes name in if volume.name == name then volume.claim_name else rest

unfoldable pub find_config : List ConfigPlan → Text → Text
find_config [] name = []
find_config (config ∷ configs) name =
    let rest = find_config configs name in
    if config.name == name then config.config_map.name else rest

unfoldable pub find_config_hash : List ConfigPlan → Text → Text
find_config_hash [] name = []
find_config_hash (config ∷ configs) name =
    let rest = find_config_hash configs name in
    if config.name == name then config.content_hash else rest
