-- ===== src/Build/Outputs/Laws.antt =====
-- Where the results of a build go.
use mathlib.Core.List.{append-nil}
use native.Mathlib.Numerals.{add-one}
use docker_in_k8s.Common.{
  ℕ, suc, ◌+◌, ◌≤◌, ◌≡◌, ◌≢◌, refl, ◌∙◌, ap, subst, sym, ◌⊎◌, inl, inr, Bool, true, false, not,
  ◌&&◌, List, [], ◌∷◌, ◌++◌, arith, All, All-map_of, Distinct, length, if◌then◌else◌, Bool-cases,
  is_nil, ne-nil_of_is_nil, append_cancel_left,
}
use docker_in_k8s.Text.{
  Text, codes, ◌==◌, ne_of_eq-false, is_one_of, cut, cut-append, cut_of_Lacks, split, join,
  contains_char, print_nat, print_nat_injective, print_nat-digits,
}
use docker_in_k8s.Dicts.{Dict, text_at}
use docker_in_k8s.Result.{ok, err, message, ◌>>=◌, >>=-eq-ok, ok-injective, err-ne-ok}
use docker_in_k8s.Build.Outputs.{
  BuildOutput, build_output_name_attribute, registry_output, file_output, pod_path, file_kinds,
  Numbered, output_of, parse_output, parse_outputs, normalize_build_outputs, registry_name,
  destination_of, read_attributes,
}

-- The attribute of a name in a specification, which is read as comma-separated values: a name with a
-- comma is quoted.
abbrev pub IsNameAttribute : Text → Type 0
IsNameAttribute attribute =
    (name : Text) × (((contains_char name b',' ≡ false) × (attribute ≡ codes "name=" ++ name))
      ⊎ ((contains_char name b',' ≡ true)
          × (attribute ≡ b'"' ∷ (codes "name=" ++ (name ++ b'"' ∷ [])))))

-- A specification that has BuildKit push an image under its names, over plain HTTP where that is asked
-- for.
abbrev pub IsPush : Bool → Text → Type 0
IsPush insecure spec =
    (attribute : Text) × IsNameAttribute attribute
    × (spec
        ≡ codes "type=image,"
          ++ (attribute
              ++ (codes ",push=true"
                  ++ (if insecure then codes ",registry.insecure=true" else []))))

-- A registry output is pushed and collected nowhere. Any other has a file or directory of the client
-- as its destination, never the standard output, and a path in the Pod with an index of its own.
abbrev pub IsPushed : Bool → BuildOutput → Type 0
IsPushed insecure o =
    (o.kind ≡ codes "registry") × (o.client_path ≡ []) × (o.pod_path ≡ []) × IsPush insecure o.spec

abbrev pub IsCollected : ℕ → BuildOutput → Type 0
IsCollected index o =
    (is_one_of o.kind file_kinds ≡ true)
    × (o.client_path ≢ [])
    × (o.client_path ≢ codes "-")
    × (o.pod_path ≡ pod_path index o.kind)
    × (o.spec ≡ codes "type=" ++ (o.kind ++ (codes ",dest=" ++ o.pod_path)))

-- Which file index an output has, if it is collected, among those from `low` on.
abbrev pub IsOutput : Bool → ℕ → BuildOutput → Type 0
IsOutput insecure low o = IsPushed insecure o ⊎ ((index : ℕ) × (low ≤ index) × IsCollected index o)

digits_before_dot :
    (index : ℕ) (kind : Text)
    → (cut (print_nat index ++ (if kind == codes "local" then [] else codes ".tar")) b'.').before
      ≡ print_nat index
digits_before_dot index kind = elim (Bool-cases (kind == codes "local")) [
  | inl e ↦ rw (e, append-nil) (rw (cut_of_Lacks b'.' (print_nat index) (print_nat-digits index)))
  | inr e ↦ rw e (rw (cut-append b'.' (print_nat index) (codes "tar") (print_nat-digits index)))
]

-- Paths in the Pod with different indices differ, also where their kinds do.
pod_path_injective : (i j : ℕ) (k l : Text) → pod_path i k ≡ pod_path j l → i ≡ j
unfolding pod_path
pod_path_injective i j k l e =
    let tails = append_cancel_left (codes "/workspace/.dockube-output-") _ _ e in
    print_nat_injective i j (
      sym (digits_before_dot i k)
      ∙ ap (λ (t : Text). (cut t b'.').before) tails
      ∙ digits_before_dot j l)

-- The paths that runBuild collects.
abbrev pub collected_paths : List BuildOutput → List Text
collected_paths [] = []
collected_paths (o ∷ os) =
    if is_nil o.client_path then collected_paths os else o.pod_path ∷ collected_paths os

-- What one specification may give: an output that is pushed, and the same index, or one that is
-- collected, and the next index.
abbrev Gives : Bool → ℕ → Numbered → Type 0
Gives insecure index r =
    (IsPushed insecure r.output × (r.next ≡ index))
    ⊎ (IsCollected index r.output × (r.next ≡ index + 1))

module _ (tags : List Text) (insecure : Bool) where
  file_output-IsCollected :
      (index : ℕ) (kind destination : Text)
      → is_one_of kind file_kinds ≡ true
      → is_nil destination ≡ false
      → destination ≢ codes "-"
      → IsCollected index (file_output index kind destination)
  unfolding file_output
  file_output-IsCollected index kind destination listed given not_stdout =
      (listed, ne-nil_of_is_nil destination given, not_stdout, refl, refl)

  -- The branches of an accepted specification.
  abbrev Chosen : ℕ → Dict Text → Numbered → Type 0
  Chosen index attributes r =
      let kind = text_at (codes "type") attributes in
      (r ≡ record {
        output = registry_output (registry_name tags attributes) insecure;
        next = index;
      })
      ⊎ ((is_one_of kind file_kinds ≡ true)
          × (is_nil (destination_of attributes) ≡ false)
          × ((destination_of attributes == codes "-") ≡ false)
          × (r ≡ record {
            output = file_output index kind (destination_of attributes);
            next = index + 1;
          }))

  output_of_branches :
      (index : ℕ) (attributes : Dict Text) (r : Numbered)
      → output_of tags insecure index attributes ≡ ok r
      → Chosen index attributes r
  unfolding output_of
  output_of_branches index attributes r h = ground arith

  build_output_name_attribute-IsNameAttribute :
      (name : Text) → IsNameAttribute (build_output_name_attribute name)
  unfolding build_output_name_attribute
  build_output_name_attribute-IsNameAttribute name = elim (Bool-cases (contains_char name b',')) [
    | inl e ↦ (name, inr (e, rw e refl))
    | inr e ↦ (name, inl (e, rw e refl))
  ]

  registry_output-IsPushed : (name : Text) → IsPushed insecure (registry_output name insecure)
  unfolding registry_output
  registry_output-IsPushed name = (
    refl,
    refl,
    refl,
    (build_output_name_attribute name, build_output_name_attribute-IsNameAttribute name, refl),
  )

  Chosen-Gives :
      (index : ℕ) (attributes : Dict Text) (r : Numbered)
      → Chosen index attributes r
      → Gives insecure index r
  Chosen-Gives index attributes r (inl e) =
      subst (Gives insecure index) (sym e) (inl (registry_output-IsPushed _, refl))
  Chosen-Gives index attributes r (inr (listed, given, not_stdout, e)) =
      subst (Gives insecure index) (sym e)
        (inr (file_output-IsCollected index _ _ listed given (ne_of_eq-false _ _ not_stdout), refl))

  parse_output-Gives :
      (index : ℕ) (value : Text) (r : Numbered)
      → parse_output tags insecure index value ≡ ok r
      → Gives insecure index r
  unfolding parse_output
  parse_output-Gives index value r h =
      let (attributes, read, chosen) =
        >>=-eq-ok (read_attributes (split value b',') []) (output_of tags insecure index) h in
      Chosen-Gives index attributes r (output_of_branches index attributes r chosen)

  IsOutput-weaken :
      {i j : ℕ} → i ≤ j → (o : BuildOutput) → IsOutput insecure j o → IsOutput insecure i o
  IsOutput-weaken le o (inl pushed) = inl pushed
  IsOutput-weaken le o (inr (index, low, collected)) = inr (index, omega arith, collected)

  -- The paths of outputs with greater indices are all others.
  fresh :
      (index : ℕ) (kind : Text) (os : List BuildOutput)
      → All (IsOutput insecure (suc index)) os
      → All (λ y. y ≢ pod_path index kind) (collected_paths os)
  fresh index kind [] h = tt
  fresh index kind (o ∷ os) (inl (k, client, path, spec), h) = rw client (fresh index kind os h)
  fresh index kind (o ∷ os) (inr (j, low, (listed, given, not_stdout, path, spec)), h) =
      elim (Bool-cases (is_nil o.client_path)) [
        | inl e ↦ rw e (fresh index kind os h)
        | inr e ↦ rw e (
          (λ same.
              absurd (omega (arith, pod_path_injective j index o.kind kind (sym path ∙ same)))),
          fresh index kind os h,
        )
      ]

  abbrev Outputs : ℕ → List BuildOutput → Type 0
  Outputs index os = All (IsOutput insecure index) os × Distinct (collected_paths os)

  Outputs-cons :
      (index : ℕ) (r : Numbered) (os : List BuildOutput)
      → Gives insecure index r
      → Outputs r.next os
      → Outputs index (r.output ∷ os)
  Outputs-cons index r os (inl (pushed, e)) (h, d) =
      ((inl pushed, subst (λ i. All (IsOutput insecure i) os) e h), rw pushed.1 d)
  Outputs-cons index r os (inr (collected, e)) (h, d) =
      let later = subst (λ i. All (IsOutput insecure i) os) (e ∙ add-one index) h in
      (
        (inr (index, omega arith, collected), All-map_of (IsOutput-weaken (omega arith)) os later),
        elim (Bool-cases (is_nil r.output.client_path)) [
          | inl nil ↦ rw nil d
          | inr given ↦ rw given (
            subst (λ p. All (λ y. y ≢ p) (collected_paths os)) (sym collected.3)
                (fresh index r.output.kind os later),
            d,
          )
        ],
      )

  parse_outputs-Outputs :
      (values : List Text) (index : ℕ) (os : List BuildOutput)
      → parse_outputs tags insecure index values ≡ ok os
      → Outputs index os × (length os ≡ length values)
  unfolding parse_outputs
  parse_outputs-Outputs [] index os h =
      subst (λ os. Outputs index os × (length os ≡ 0)) (ok-injective h) ((tt, tt), refl)
  parse_outputs-Outputs (value ∷ values) index os h =
      let (first, here, h') = >>=-eq-ok (parse_output tags insecure index value) _ h in
      let (rest, there, e) = >>=-eq-ok (parse_outputs tags insecure first.next values) _ h' in
      let (outputs, sized) = parse_outputs-Outputs values first.next rest there in
      subst (λ os. Outputs index os × (length os ≡ suc (length values))) (ok-injective e)
        (
          Outputs-cons index first rest (parse_output-Gives index value first here) outputs,
          ap suc sized,
        )

  pushed_first :
      (values : List Text) (os : List BuildOutput)
      → (do
        rest ← parse_outputs tags insecure 0 values
        ok (registry_output (join tags b',') insecure ∷ rest))
        ≡ ok os
      → Outputs 0 os × (length os ≡ length values + 1)
  pushed_first values os h =
      let (rest, there, e) = >>=-eq-ok (parse_outputs tags insecure 0 values) _ h in
      let ((all, distinct), sized) = parse_outputs-Outputs values 0 rest there in
      subst (λ os. Outputs 0 os × (length os ≡ length values + 1)) (ok-injective e)
        (
          (
            (inl (registry_output-IsPushed (join tags b',')), all),
            rw (registry_output-IsPushed (join tags b',')).1 distinct,
          ),
          omega arith,
        )

  accepted_outputs :
      (values : List Text) (push : Bool) (os : List BuildOutput)
      → (if push
          then (if is_nil tags
              then err (message (codes "an image name is required with --tag when --push is used"))
              else do
                outputs ← parse_outputs tags insecure 0 values
                ok (registry_output (join tags b',') insecure ∷ outputs))
          else parse_outputs tags insecure 0 values)
        ≡ ok os
      → Outputs 0 os × (length os ≡ length values + (if push then 1 else 0))
  accepted_outputs values false os h =
      let (outputs, sized) = parse_outputs-Outputs values 0 os h in (outputs, omega arith)
  accepted_outputs values true os h = elim (Bool-cases (is_nil tags)) [
    | inl none ↦ absurd (err-ne-ok (rw none at h))
    | inr some ↦ pushed_first values os (rw some at h)
  ]

  -- Each output that is accepted has BuildKit push an image under a name, over plain HTTP exactly
  -- where --registry-insecure is given, or is collected from a path of its own in the Pod to a
  -- destination that is not the standard output; there is one for each specification and one more
  -- for --push.
  pub normalize_build_outputs-Outputs :
      (values : List Text) (push optional : Bool) (os : List BuildOutput)
      → normalize_build_outputs values push tags insecure optional ≡ ok os
      → Outputs 0 os × (length os ≡ length values + (if push then 1 else 0))
  unfolding normalize_build_outputs
  normalize_build_outputs-Outputs values push optional os h =
      elim (Bool-cases (is_nil values && (not push && not optional))) [
        | inl none ↦ absurd (err-ne-ok (rw none at h))
        | inr some ↦ accepted_outputs values push os (rw some at h)
      ]
