-- ===== src/Build/Annotations.antt =====
-- applyBuildAnnotations
pub mod Laws
use docker_in_k8s.Common.{
  Bool, true, false, not, ◌||◌, List, [], ◌∷◌, ◌++◌, map, any, if◌then◌else◌, is_nil,
}
use docker_in_k8s.Text.{Text, codes, ◌==◌, is_one_of, Parts, cut, split, join, contains_char}
use docker_in_k8s.Result.{Result, ok, err, message, traverse, ◌>>=◌}
use docker_in_k8s.Build.Outputs.{BuildOutput}

abbrev pub first_part : List Text → Text
first_part [] = []
first_part (part ∷ parts) = part

abbrev pub annotation_targets : List Text
annotation_targets =
    codes "manifest" ∷ codes "manifest-descriptor" ∷ codes "index" ∷ codes "index-descriptor" ∷ []

-- strings.Split(location, "[")[0]
abbrev pub target_base : Text → Text
target_base location = first_part (split location b'[')

-- The checks behind the cuts, and the annotation as BuildKit reads it.
unfoldable pub locate_annotation : Text → Parts → Result Text
locate_annotation location pair =
    let assignment = b'.' ∷ (pair.before ++ b'=' ∷ pair.after) in
    if not pair.found || is_nil pair.before
    then err (message (codes "invalid annotation; expected [TYPE:]KEY=VALUE"))
    else if is_nil location
    then ok (codes "annotation" ++ assignment)
    else if not (is_one_of (target_base location) annotation_targets)
    then err (message (codes "invalid annotation target"))
    else ok (codes "annotation-" ++ (location ++ assignment))

-- The body of the loop over the values.
unfoldable pub parse_annotation : Text → Result Text
parse_annotation value =
    let parts = cut value b':' in
    if contains_char value b','
    then err (message (codes "annotation contains an unsupported comma"))
    else if parts.found
    then locate_annotation parts.before (cut parts.after b'=')
    else locate_annotation [] (cut value b'=')

abbrev pub is_image : BuildOutput → Bool
is_image o = is_one_of o.kind (codes "registry" ∷ codes "oci" ∷ codes "docker" ∷ [])

unfoldable pub annotate : List Text → BuildOutput → BuildOutput
annotate annotations o =
    if is_image o then record o { spec = o.spec ++ b',' ∷ join annotations b',' } else o

-- The loop over the outputs, and the check behind it.
unfoldable pub annotate_all : List BuildOutput → List Text → Result (List BuildOutput)
annotate_all outputs annotations =
    if not (any is_image outputs)
    then err (message (codes "--annotation requires a registry, OCI, or Docker image output"))
    else ok (map (annotate annotations) outputs)

unfoldable pub apply_build_annotations : List BuildOutput → List Text → Result (List BuildOutput)
apply_build_annotations outputs [] = ok outputs
apply_build_annotations outputs (value ∷ values) = do
  annotations ← traverse parse_annotation (value ∷ values)
  annotate_all outputs annotations
