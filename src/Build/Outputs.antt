-- ===== src/Build/Outputs.antt =====
-- normalizeBuildOutputs and buildOutputNameAttribute
pub mod Laws
use docker_in_k8s.Common.{
  ℕ, ◌+◌, Bool, true, false, ◌&&◌, ◌||◌, not, List, [], ◌∷◌, ◌++◌, if◌then◌else◌, is_nil,
}
use docker_in_k8s.Text.{
  Text, codes, ◌==◌, is_one_of, Parts, cut, split, join, contains_char, print_nat,
}
use docker_in_k8s.Dicts.{Dict, insert, text_at}
use docker_in_k8s.Result.{Result, ok, err, message, ◌>>=◌}

pub record BuildOutput : Type 0 where
  pub kind : Text
  pub spec : Text
  pub client_path : Text
  pub pod_path : Text

unfoldable pub build_output_name_attribute : Text → Text
build_output_name_attribute name =
    if contains_char name b','
    then b'"' ∷ (codes "name=" ++ (name ++ b'"' ∷ []))
    else codes "name=" ++ name

abbrev insecure_suffix : Bool → Text
insecure_suffix insecure = if insecure then codes ",registry.insecure=true" else []

unfoldable pub registry_output : Text → Bool → BuildOutput
unfolding build_output_name_attribute
registry_output name insecure = record {
  kind = codes "registry";
  spec =
      codes "type=image,"
      ++ (build_output_name_attribute name ++ (codes ",push=true" ++ insecure_suffix insecure));
  client_path = [];
  pod_path = [];
}

-- The loop over the fields of a specification.
unfoldable pub read_attributes : List Text → Dict Text → Result (Dict Text)
read_attributes [] attributes = ok attributes
read_attributes (field ∷ fields) attributes =
    let parts = cut field b'=' in
    let rest = read_attributes fields (insert parts.before parts.after attributes) in
    if not parts.found
    then err (message (codes "invalid --output; expected type=TYPE,dest=PATH"))
    else rest

abbrev pub file_kinds : List Text
file_kinds = codes "oci" ∷ codes "docker" ∷ codes "tar" ∷ codes "local" ∷ []

unfoldable pub pod_path : ℕ → Text → Text
pod_path index kind =
    codes "/workspace/.dockube-output-"
    ++ (print_nat index ++ (if kind == codes "local" then [] else codes ".tar"))

unfoldable pub destination_of : Dict Text → Text
destination_of attributes =
    let dest = text_at (codes "dest") attributes in
    if is_nil dest then text_at (codes "destination") attributes else dest

unfoldable pub registry_name : List Text → Dict Text → Text
registry_name tags attributes =
    let name = text_at (codes "name") attributes in if is_nil name then join tags b',' else name

unfoldable pub file_output : ℕ → Text → Text → BuildOutput
unfolding pod_path
file_output index kind destination = record {
  kind = kind;
  spec = codes "type=" ++ (kind ++ (codes ",dest=" ++ pod_path index kind));
  client_path = destination;
  pod_path = pod_path index kind;
}

-- A specification's output, and the file index behind it.
pub record Numbered : Type 0 where
  pub output : BuildOutput
  pub next : ℕ

module _ (tags : List Text) (insecure : Bool) where
  unfoldable pub output_of : ℕ → Dict Text → Result Numbered
  output_of index attributes =
      let kind = text_at (codes "type") attributes in
      let name = registry_name tags attributes in
      let destination = destination_of attributes in
      if kind == codes "registry" || kind == codes "image"
      then (if is_nil name
          then err (message (codes "registry output requires name=... or at least one --tag"))
          else ok (record { output = registry_output name insecure; next = index }))
      else if not (is_one_of kind file_kinds)
      then err (message (codes "unsupported output type"))
      else if is_nil destination
      then err (message (codes "output requires dest=PATH"))
      else if destination == codes "-"
      then err (message (codes "dest=- is not yet supported"))
      else ok (record { output = file_output index kind destination; next = index + 1 })

  unfoldable pub parse_output : ℕ → Text → Result Numbered
  parse_output index value = do
    attributes ← read_attributes (split value b',') []
    output_of index attributes

  -- The loop over the specifications.
  unfoldable pub parse_outputs : ℕ → List Text → Result (List BuildOutput)
  parse_outputs index [] = ok []
  parse_outputs index (value ∷ values) = do
    first ← parse_output index value
    rest ← parse_outputs first.next values
    ok (first.output ∷ rest)

unfoldable pub normalize_build_outputs :
    List Text → Bool → List Text → Bool → Bool → Result (List BuildOutput)
normalize_build_outputs values push tags insecure output_optional =
    if is_nil values && (not push && not output_optional)
    then err (message (codes "dockube has no local image store; use --push or --output"))
    else if push
    then (if is_nil tags
        then err (message (codes "an image name is required with --tag when --push is used"))
        else do
          outputs ← parse_outputs tags insecure 0 values
          ok (registry_output (join tags b',') insecure ∷ outputs))
    else parse_outputs tags insecure 0 values
