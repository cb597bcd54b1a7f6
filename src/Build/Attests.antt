-- ===== src/Build/Attests.antt =====
-- normalizeBuildAttests
pub mod Laws
use docker_in_k8s.Common.{Bool, true, false, not, List, [], ◌∷◌, ◌++◌, map, if◌then◌else◌, is_nil}
use docker_in_k8s.Text.{Text, codes, ◌==◌, is_one_of, split, join, has_prefix, trim_prefix}
use docker_in_k8s.Result.{Result, ok, err, message, ◌>>=◌}
use docker_in_k8s.Build.Repeats.{each_once}

-- What --provenance and --sbom add to the values of --attest.
unfoldable pub provenance_values : Text → List Text
provenance_values provenance =
    if is_nil provenance
    then []
    else if provenance == codes "true"
    then codes "type=provenance,mode=min" ∷ []
    else if provenance == codes "false"
    then codes "type=provenance,disabled=true" ∷ []
    else (codes "type=provenance," ++ provenance) ∷ []

unfoldable pub sbom_values : Text → List Text
sbom_values sbom =
    if is_nil sbom
    then []
    else if sbom == codes "true"
    then codes "type=sbom" ∷ []
    else if sbom == codes "false"
    then codes "type=sbom,disabled=true" ∷ []
    else (codes "type=sbom," ++ sbom) ∷ []

abbrev pub attest_kinds : List Text
attest_kinds = codes "provenance" ∷ codes "sbom" ∷ []

pub record Attestation : Type 0 where
  pub kind : Text
  pub attributes : List Text

-- What BuildKit's frontend is told of an attestation.
unfoldable pub print_attestation : Attestation → Text
print_attestation a = codes "attest:" ++ (a.kind ++ b'=' ∷ join a.attributes b',')

-- The checks of the loop, on the attributes of a value and the kinds seen.
unfoldable pub checked_attest : List Text → List Text → Result Attestation
checked_attest seen [] = err (message (codes "invalid attestation; type must be first"))
checked_attest seen (type ∷ attributes) =
    let kind = trim_prefix type (codes "type=") in
    if not (has_prefix type (codes "type="))
    then err (message (codes "invalid attestation; type must be first"))
    else if not (is_one_of kind attest_kinds)
    then err (message (codes "unsupported attestation type"))
    else if is_one_of kind seen
    then err (message (codes "duplicate attestation"))
    else ok (record { kind = kind; attributes = attributes })

abbrev attest_step : List Text → Text → Result Attestation
attest_step seen value = checked_attest seen (split value b',')

unfoldable pub normalize_build_attests : List Text → Text → Text → Result (List Text)
normalize_build_attests values provenance sbom = do
  attestations ←
      each_once (λ a. a.kind) attest_step []
        (values ++ (provenance_values provenance ++ sbom_values sbom))
  ok (map print_attestation attestations)
