-- ===== src/Build/Attests/Laws.antt =====
-- The attestations of a build: at most one of each kind.
use docker_in_k8s.Common.{
  ◌≡◌, sym, true, false, List, [], ◌∷◌, ◌++◌, arith, All, All-map_of, Distinct, length, map,
}
use docker_in_k8s.Text.{Text, is_one_of, split}
use docker_in_k8s.Result.{ok, >>=-eq-ok, ok-injective}
use docker_in_k8s.Build.Repeats.{each_once, each_once-Distinct}
use docker_in_k8s.Build.Attests.{
  Attestation, print_attestation, checked_attest, attest_kinds, normalize_build_attests,
  provenance_values, sbom_values,
}

checked_attest_facts :
    (seen attributes : List Text) (a : Attestation)
    → checked_attest seen attributes ≡ ok a
    → (is_one_of a.kind seen ≡ false) × (is_one_of a.kind attest_kinds ≡ true)
unfolding checked_attest
checked_attest_facts seen [] a h = cc
checked_attest_facts seen (type ∷ attributes) a h = ground arith

-- What is accepted is printed from attestations of different kinds, each provenance or sbom, one
-- for each value that is given.
pub normalize_build_attests-Distinct :
    (values : List Text) (provenance sbom : Text) (attests : List Text)
    → normalize_build_attests values provenance sbom ≡ ok attests
    → (as' : List Attestation) × (attests ≡ map print_attestation as')
      × (length as' ≡ length (values ++ (provenance_values provenance ++ sbom_values sbom)))
      × Distinct (map (λ (a : Attestation). a.kind) as')
      × All (λ (a : Attestation). is_one_of a.kind attest_kinds ≡ true) as'
unfolding normalize_build_attests
normalize_build_attests-Distinct values provenance sbom attests h =
    let (as', accepted, e) =
      >>=-eq-ok
        (each_once (λ (a : Attestation). a.kind)
          (λ seen value. checked_attest seen (split value b',')) []
          (values ++ (provenance_values provenance ++ sbom_values sbom)))
        _ h in
    let (sized, distinct, news) =
      each_once-Distinct (λ (a : Attestation). a.kind)
        (λ seen value. checked_attest seen (split value b','))
        (λ a. is_one_of a.kind attest_kinds ≡ true)
        (λ seen value a e. checked_attest_facts seen (split value b',') a e) []
        (values ++ (provenance_values provenance ++ sbom_values sbom)) as' accepted in
    (as', sym (ok-injective e), sized, distinct, All-map_of (λ a. λ n. n.1) as' news)
