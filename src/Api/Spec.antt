-- ===== src/Api/Spec.antt =====
-- specMap, Spec and SetSpec: a container's spec as the JSON map of the resource, and back.
pub mod RoundTrip
use docker_in_k8s.Common.{
  ◌≡◌, ◌≢◌, Bool, true, false, Option, none, some, List, [], ◌∷◌, if◌then◌else◌, is_nil,
}
use docker_in_k8s.Text.{Text, codes, ◌==◌}
use docker_in_k8s.Result.{Result, ok, err, message}
use docker_in_k8s.Api.Types.{
  EnvVar, ContainerPort, ResourceRequirements, Probe, Mount, ContainerSpec,
}
use docker_in_k8s.Api.Json.{
  Json, null, bool, text, object, Fields, end, field, JsonMap, nested_string, nested_bool,
  nested_string_slice, Codec, IsCodec, ◌>>=◌, write_list, read_list, text_codec, write_map,
  read_map, read_field,
}
use docker_in_k8s.Api.Container.{DockerContainer}

-- encoding/json at the types of k8s.io/api.
pub record KubeCodecs : Type 0 where
  pub env_var : Codec EnvVar
  pub container_port : Codec ContainerPort
  pub resources : Codec ResourceRequirements
  pub probe : Codec Probe

abbrev pub no_resources : ResourceRequirements
no_resources = record { limits = []; requests = [] }

-- Their round trips. A quantity is written in its canonical form, so that 1048576 is read back as 1Mi:
-- what is read of resources is `canonical` of them, which has a quantity for each one that was written,
-- and so nothing for none.
pub record IsKubeCodecs (k : KubeCodecs) : Type 0 where
  pub env_var : IsCodec k.env_var
  pub container_port : IsCodec k.container_port
  pub probe : IsCodec k.probe
  pub canonical : ResourceRequirements → ResourceRequirements
  pub resources :
      (r : ResourceRequirements) → k.resources.decode (k.resources.encode r) ≡ some (canonical r)
  pub resources_not_null : (r : ResourceRequirements) → k.resources.encode r ≢ null
  pub canonical_lem : canonical no_resources ≡ no_resources

-- Mount has no JSON tags: its fields are written under their Go names.
abbrev write_mount : Mount → Json
write_mount m = object (
    field (codes "Name") (text m.name) (
      field (codes "Type") (text m.type) (
        field (codes "Source") (text m.source) (
          field (codes "Target") (text m.target) (
            field (codes "ReadOnly") (bool m.read_only) (
              field (codes "SubPath") (text m.sub_path) (
                field (codes "Items") (write_map m.items)
                  (field (codes "ContentHash") (text m.content_hash) end))))))))

get : Text → Fields → Option Json
get k end = none
get k (field j v fs) = if k == j then some v else get k fs

abbrev as_text : Json → Option Text
as_text (text t) = some t
as_text _ = none

abbrev as_bool : Json → Option Bool
as_bool (bool b) = some b
as_bool _ = none

read_mount_fields : Fields → Option Mount
unfolding get
read_mount_fields fs = do
  name ← read_field as_text [] (get (codes "Name") fs)
  type ← read_field as_text [] (get (codes "Type") fs)
  source ← read_field as_text [] (get (codes "Source") fs)
  target ← read_field as_text [] (get (codes "Target") fs)
  read_only ← read_field as_bool false (get (codes "ReadOnly") fs)
  sub_path ← read_field as_text [] (get (codes "SubPath") fs)
  items ← read_field read_map [] (get (codes "Items") fs)
  content_hash ← read_field as_text [] (get (codes "ContentHash") fs)
  some (record {
    name = name;
    type = type;
    source = source;
    target = target;
    read_only = read_only;
    sub_path = sub_path;
    items = items;
    content_hash = content_hash;
  })

read_mount : Json → Option Mount
unfolding read_mount_fields
read_mount (object fs) = read_mount_fields fs
read_mount _ = none

unfoldable pub mount_codec : Codec Mount
unfolding read_mount
mount_codec = record { encode = write_mount; decode = read_mount }

-- A field tagged omitempty.
abbrev omit_empty : Bool → Json → Option Json
omit_empty true j = none
omit_empty false j = some j

abbrev write_pointer {ℓ} : {A : Type ℓ} → Codec A → Option A → Option Json
write_pointer c none = none
write_pointer c (some a) = some (c.encode a)

abbrev pub read_pointer {ℓ} : {A : Type ℓ} → Codec A → Option Json → Option (Option A)
read_pointer c none = some none
read_pointer c (some null) = some none
read_pointer c (some j) = do a ← c.decode j; some (some a)

-- The second struct that Spec unmarshals into.
pub record Extended : Type 0 where
  pub env : List EnvVar
  pub working_dir : Text
  pub ports : List ContainerPort
  pub mounts : List Mount
  pub resources : ResourceRequirements
  pub readiness : Option Probe
  pub liveness : Option Probe
  pub startup : Option Probe
  pub labels : List (Text × Text)

-- The ContainerSpec that Spec returns, from the map and what was unmarshalled of it.
unfoldable pub assemble : JsonMap → Option Extended → Result ContainerSpec
assemble m none = err (message (codes "decode extended container spec"))
assemble m (some extended) =
    let desired_state = nested_string m (codes "desiredState") in
    ok (record {
      image = nested_string m (codes "image");
      command = nested_string_slice m (codes "command");
      args = nested_string_slice m (codes "args");
      desired_state = if is_nil desired_state then codes "Running" else desired_state;
      stdin = nested_bool m (codes "stdin");
      tty = nested_bool m (codes "tty");
      env = extended.env;
      working_dir = extended.working_dir;
      ports = extended.ports;
      mounts = extended.mounts;
      resources = extended.resources;
      readiness = extended.readiness;
      liveness = extended.liveness;
      startup = extended.startup;
      labels = extended.labels;
    })

module _ (k : KubeCodecs) where
  unfoldable pub spec_map : ContainerSpec → JsonMap
  spec_map s key =
      if key == codes "image"
      then some (text s.image)
      else if key == codes "command"
      then some (write_list text_codec s.command)
      else if key == codes "args"
      then some (write_list text_codec s.args)
      else if key == codes "desiredState"
      then some (text s.desired_state)
      else if key == codes "stdin"
      then some (bool s.stdin)
      else if key == codes "tty"
      then some (bool s.tty)
      else if key == codes "env"
      then omit_empty (is_nil s.env) (write_list k.env_var s.env)
      else if key == codes "workingDir"
      then omit_empty (is_nil s.working_dir) (text s.working_dir)
      else if key == codes "ports"
      then omit_empty (is_nil s.ports) (write_list k.container_port s.ports)
      else if key == codes "mounts"
      then omit_empty (is_nil s.mounts) (write_list mount_codec s.mounts)
      else if key == codes "resources"
      then some (k.resources.encode s.resources)
      else if key == codes "readiness"
      then write_pointer k.probe s.readiness
      else if key == codes "liveness"
      then write_pointer k.probe s.liveness
      else if key == codes "startup"
      then write_pointer k.probe s.startup
      else if key == codes "labels"
      then omit_empty (is_nil s.labels) (write_map s.labels)
      else none

  unfoldable pub read_extended : JsonMap → Option Extended
  read_extended m = do
    env ← read_field (read_list k.env_var) [] (m (codes "env"))
    working_dir ← read_field as_text [] (m (codes "workingDir"))
    ports ← read_field (read_list k.container_port) [] (m (codes "ports"))
    mounts ← read_field (read_list mount_codec) [] (m (codes "mounts"))
    resources ← read_field k.resources.decode no_resources (m (codes "resources"))
    readiness ← read_pointer k.probe (m (codes "readiness"))
    liveness ← read_pointer k.probe (m (codes "liveness"))
    startup ← read_pointer k.probe (m (codes "startup"))
    labels ← read_field read_map [] (m (codes "labels"))
    some (record {
      env = env;
      working_dir = working_dir;
      ports = ports;
      mounts = mounts;
      resources = resources;
      readiness = readiness;
      liveness = liveness;
      startup = startup;
      labels = labels;
    })

  -- Spec
  unfoldable pub spec : DockerContainer → Result ContainerSpec
  spec obj =
      if is_nil (nested_string obj.spec (codes "image"))
      then err (message (codes "spec.image is required"))
      else assemble obj.spec (read_extended obj.spec)

  -- SetSpec
  unfoldable pub set_spec : DockerContainer → ContainerSpec → DockerContainer
  set_spec obj s = record obj { spec = spec_map s }
