-- ===== src/Cli/Lookup/Laws.antt =====
-- A container that a lookup finds is the only one with the ID prefix.
use docker_in_k8s.Common.{
  ◌≡◌, refl, filter, ◌∙◌, List, [], ◌∷◌, false, is_nil, All, Bool-cases, inl, inr,
}
use docker_in_k8s.Text.{Text}
use docker_in_k8s.Result.{Result, ok, err}
use docker_in_k8s.Api.Platform.{Platform}
use docker_in_k8s.Api.Container.{DockerContainer}
use docker_in_k8s.Cli.Lookup.{ambiguous, no_such, has_id_prefix, match_ids}

-- What there is to say of the containers that have the prefix.
abbrev pub of_matches : Text → List DockerContainer → Result Text
of_matches value [] = err (no_such value)
of_matches value (obj ∷ []) = ok obj.name
of_matches value (obj ∷ obj' ∷ more) = err (ambiguous value)

abbrev pub Named : DockerContainer → Type 0
Named obj = is_nil obj.name ≡ false

module _ (p : Platform) (value : Text) where
  -- The rest of the loop behind a match.
  abbrev of_more : Text → List DockerContainer → Result Text
  of_more match [] = ok match
  of_more match (obj ∷ more) = err (ambiguous value)

  behind_match :
      (match : Text) (items : List DockerContainer)
      → is_nil match ≡ false
      → match_ids p value match items ≡ of_more match (filter (has_id_prefix p value) items)
  unfolding match_ids filter
  behind_match match [] h = rw h refl
  behind_match match (obj ∷ items) h = elim (Bool-cases (has_id_prefix p value obj)) [
    | inl e ↦ rw (e, h) refl
    | inr e ↦ rw e (behind_match match items h)
  ]

  of_more-of_matches :
      (obj : DockerContainer) (more : List DockerContainer)
      → of_more obj.name more ≡ of_matches value (obj ∷ more)
  of_more-of_matches obj [] = refl
  of_more-of_matches obj (obj' ∷ more) = refl

  -- If all containers are named, the lookup by an ID prefix gives the name of the only container
  -- that has the prefix, the error of an unknown container if there is none, and the error of an
  -- ambiguous prefix if there are several.
  pub match_ids-eq-of_matches :
      (items : List DockerContainer)
      → All Named items
      → match_ids p value [] items ≡ of_matches value (filter (has_id_prefix p value) items)
  unfolding match_ids filter
  match_ids-eq-of_matches [] h = refl
  match_ids-eq-of_matches (obj ∷ items) (named, h) = elim (Bool-cases (has_id_prefix p value obj)) [
    | inl e ↦ rw e (behind_match obj.name items named ∙ of_more-of_matches obj _)
    | inr e ↦ rw e (match_ids-eq-of_matches items h)
  ]
