-- ===== src/Build/Annotations/Laws.antt =====
-- Which annotations are accepted, and what they change of the outputs.
use docker_in_k8s.Common.{
  ℕ, ◌≡◌, ◌≢◌, ◌⊎◌, ||-eq-false, ne-nil_of_is_nil, refl, sym, ◌∙◌, ap, subst, Bool, true, false,
  not, ◌||◌, List, [], ◌∷◌, ◌++◌, map, any, arith, All, if◌then◌else◌, eqb, is_nil, Bool-cases, inl,
  inr,
}
use docker_in_k8s.Text.{
  Text, codes, join, is_one_of, is_one_of-All, Parts, cut, cut_lem, cut-append, Lacks, split,
  contains_char,
}
use docker_in_k8s.Text.{grow}
use docker_in_k8s.Result.{
  Result, ok, err, message, traverse, >>=-eq-ok, ok-injective, behind_test, Pairwise,
  traverse-Pairwise,
}
use docker_in_k8s.Build.Outputs.{BuildOutput}
use docker_in_k8s.Build.Annotations.{
  first_part, annotate_all, target_base, annotation_targets, locate_annotation, parse_annotation,
  is_image, annotate, apply_build_annotations,
}

first_part-grow : (x : ℕ) (s : Text) → eqb x b'[' ≡ false → target_base (x ∷ s) ≡ x ∷ target_base s
unfolding split
first_part-grow x s h =
    elim (split s b'[')
      as (λ r. first_part (if eqb x b'[' then [] ∷ r else grow x r) ≡ x ∷ first_part r) [
        | [] ↦ rw h refl
        | part ∷ parts ↦ rw h refl
      ]

-- A target's base holds what stands before its first bracket.
target_base-append : (s t : Text) → Lacks b'[' s → target_base (s ++ t) ≡ s ++ target_base t
target_base-append [] t h = refl
target_base-append (x ∷ s) t h =
    first_part-grow x (s ++ t) (ground (arith, h.0))
    ∙ ap (λ (u : Text). x ∷ u) (target_base-append s t h.1)

not_Lacks : (c : ℕ) (s t : Text) → ¬ Lacks c (s ++ c ∷ t)
not_Lacks c [] t h = h.0 refl
not_Lacks c (x ∷ s) t h = not_Lacks c s t h.1

targets_without_equals : All (Lacks b'=') annotation_targets
targets_without_equals = ground arith

not_target :
    (key rest : Text)
    → Lacks b'[' key
    → is_one_of (target_base (key ++ b'=' ∷ rest)) annotation_targets ≡ false
not_target key rest h =
    elim (Bool-cases (is_one_of (target_base (key ++ b'=' ∷ rest)) annotation_targets)) [
      | inr e ↦ e
      | inl e ↦ absurd (
          not_Lacks b'=' key (target_base rest) (
            subst (Lacks b'=')
              (target_base-append key (b'=' ∷ rest) h
                ∙ ap (λ (u : Text). key ++ u) (first_part-grow b'=' rest refl))
              (is_one_of-All (Lacks b'=') _ annotation_targets e targets_without_equals)))
    ]

abbrev pub is_err : Result Text → Bool
is_err (ok t) = false
is_err (err e) = true

abbrev pub IsRefused : Result Text → Type 0
IsRefused r = is_err r ≡ true

IsRefused-target :
    (location : Text) (pair : Parts)
    → is_nil location ≡ false
    → is_one_of (target_base location) annotation_targets ≡ false
    → IsRefused (locate_annotation location pair)
unfolding locate_annotation
IsRefused-target location pair given other =
    elim (Bool-cases (not pair.found || is_nil pair.before)) [
      | inl e ↦ rw e refl
      | inr e ↦ rw (e, given, other) refl
    ]

is_nil-append : (s : Text) (c : ℕ) (t : Text) → is_nil (s ++ c ∷ t) ≡ false
is_nil-append [] c t = refl
is_nil-append (x ∷ s) c t = refl

-- An annotation KEY=BEFORE:AFTER is refused where neither KEY nor BEFORE has a colon and KEY has
-- no opening bracket.
pub parse_annotation_of_colon :
    (key before after : Text)
    → Lacks b':' (key ++ b'=' ∷ before)
    → Lacks b'[' key
    → IsRefused (parse_annotation ((key ++ b'=' ∷ before) ++ b':' ∷ after))
unfolding parse_annotation
parse_annotation_of_colon key before after colonless bracketless =
    elim (Bool-cases (contains_char ((key ++ b'=' ∷ before) ++ b':' ∷ after) b',')) [
      | inl e ↦ rw e refl
      | inr e ↦
          rw (e, cut-append b':' (key ++ b'=' ∷ before) after colonless)
            (IsRefused-target (key ++ b'=' ∷ before) (cut after b'=')
              (is_nil-append key b'=' before) (not_target key before bracketless))
    ]

-- KEY=VALUE
abbrev pub IsPair : Text → Type 0
IsPair pair = (key value : Text) × (pair ≡ key ++ b'=' ∷ value) × (key ≢ [])

abbrev pub targets : List Text
targets =
    codes "manifest" ∷ codes "manifest-descriptor" ∷ codes "index" ∷ codes "index-descriptor" ∷ []

-- How KEY=VALUE is written for BuildKit, with the target that stands before it, if any.
abbrev pub IsLocated : Text → Text → Text → Type 0
IsLocated target pair annotation =
    IsPair pair
    × (((target ≡ []) × (annotation ≡ codes "annotation." ++ pair))
        ⊎ ((is_one_of (target_base target) targets ≡ true)
            × (annotation ≡ codes "annotation-" ++ (target ++ b'.' ∷ pair))))

-- A value is KEY=VALUE, or a target, a colon and KEY=VALUE.
abbrev pub IsAnnotation : Text → Text → Type 0
IsAnnotation value annotation =
    IsLocated [] value annotation
    ⊎ ((target pair : Text) × (value ≡ target ++ b':' ∷ pair) × IsLocated target pair annotation)

true_of_not : (b : Bool) → not b ≡ false → b ≡ true
true_of_not true h = refl
true_of_not false h = cc

locate_annotation-IsLocated :
    (target pair annotation : Text)
    → locate_annotation target (cut pair b'=') ≡ ok annotation
    → IsLocated target pair annotation
unfolding locate_annotation
locate_annotation-IsLocated target pair annotation h =
    let parts = cut pair b'=' in
    let (tested, rest) = behind_test (not parts.found || is_nil parts.before) _ _ h in
    let (found, given) = ||-eq-false (not parts.found) _ tested in
    let whole = cut_lem b'=' pair (true_of_not _ found) in
    (
      (parts.before, parts.after, sym whole, ne-nil_of_is_nil _ given),
      written target (parts.before ++ b'=' ∷ parts.after) whole rest,
    )
  where
    written :
        (target assignment : Text)
        → assignment ≡ pair
        → (if is_nil target
            then ok (codes "annotation" ++ b'.' ∷ assignment)
            else if not (is_one_of (target_base target) annotation_targets)
            then err (message (codes "invalid annotation target"))
            else ok (codes "annotation-" ++ (target ++ b'.' ∷ assignment)))
          ≡ ok annotation
        → ((target ≡ []) × (annotation ≡ codes "annotation." ++ pair))
          ⊎ ((is_one_of (target_base target) targets ≡ true)
              × (annotation ≡ codes "annotation-" ++ (target ++ b'.' ∷ pair)))
    written [] assignment same k =
        inl (refl, sym (ok-injective k) ∙ ap (λ (t : Text). codes "annotation." ++ t) same)
    written (x ∷ target) assignment same k =
        let (listed, made) =
          behind_test (not (is_one_of (target_base (x ∷ target)) annotation_targets)) _ _ k in
        inr (
          true_of_not _ listed,
          sym (ok-injective made)
              ∙ ap (λ (t : Text). codes "annotation-" ++ ((x ∷ target) ++ b'.' ∷ t)) same,
        )

parse_annotation-IsAnnotation :
    (value annotation : Text)
    → parse_annotation value ≡ ok annotation
    → IsAnnotation value annotation
unfolding parse_annotation
parse_annotation-IsAnnotation value annotation h =
    let (commaless, rest) = behind_test (contains_char value b',') _ _ h in
    elim (Bool-cases (cut value b':').found) [
      | inl found ↦ inr (
        (cut value b':').before,
        (cut value b':').after,
        sym (cut_lem b':' value found),
        locate_annotation-IsLocated _ _ annotation (rw found at rest),
      )
      | inr none ↦ inl (locate_annotation-IsLocated [] value annotation (rw none at rest))
    ]

abbrev pub image_kinds : List Text
image_kinds = codes "registry" ∷ codes "oci" ∷ codes "docker" ∷ []

-- An output that is an image has the annotations behind its specification, and any other is as it was.
abbrev pub IsAnnotated : List Text → BuildOutput → BuildOutput → Type 0
IsAnnotated annotations o o' =
    ((is_one_of o.kind image_kinds ≡ true)
      × (o' ≡ record o { spec = o.spec ++ b',' ∷ join annotations b',' }))
    ⊎ ((is_one_of o.kind image_kinds ≡ false) × (o' ≡ o))

annotate-IsAnnotated :
    (annotations : List Text) (o : BuildOutput) → IsAnnotated annotations o (annotate annotations o)
unfolding annotate
annotate-IsAnnotated annotations o = elim (Bool-cases (is_one_of o.kind image_kinds)) [
  | inl e ↦ inl (e, rw e refl)
  | inr e ↦ inr (e, rw e refl)
]

map-Pairwise :
    (annotations : List Text) (os : List BuildOutput)
    → Pairwise (IsAnnotated annotations) os (map (annotate annotations) os)
map-Pairwise annotations [] = tt
map-Pairwise annotations (o ∷ os) =
    (annotate-IsAnnotated annotations o, map-Pairwise annotations os)

annotate_all-branches :
    (outputs os : List BuildOutput) (annotations : List Text)
    → annotate_all outputs annotations ≡ ok os
    → (any is_image outputs ≡ true) × (os ≡ map (annotate annotations) outputs)
unfolding annotate_all
annotate_all-branches outputs os annotations h = ground arith

-- If annotations are accepted, each value is KEY=VALUE or a target, a colon and KEY=VALUE, and is
-- written with that target or none; all of them are put behind the specification of every output
-- that is a registry, OCI or Docker image, of which there is one, and no other output is changed.
pub apply_build_annotations-outputs :
    (outputs : List BuildOutput) (value : Text) (values : List Text) (os : List BuildOutput)
    → apply_build_annotations outputs (value ∷ values) ≡ ok os
    → (annotations : List Text) × Pairwise IsAnnotation (value ∷ values) annotations
      × Pairwise (IsAnnotated annotations) outputs os
      × (any (λ (o : BuildOutput). is_one_of o.kind image_kinds) outputs ≡ true)
unfolding apply_build_annotations
apply_build_annotations-outputs outputs value values os h =
    let (annotations, parsed, h') = >>=-eq-ok (traverse parse_annotation (value ∷ values)) _ h in
    let (image, e) = annotate_all-branches outputs os annotations h' in
    (
      annotations,
      traverse-Pairwise parse_annotation IsAnnotation parse_annotation-IsAnnotation (value ∷ values)
          annotations parsed,
      subst (Pairwise (IsAnnotated annotations) outputs) (sym e) (map-Pairwise annotations outputs),
      image,
    )
