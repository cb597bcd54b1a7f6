-- ===== src/Compose/Resources/Laws.antt =====
-- References of services to the volumes of their project.
use docker_in_k8s.Common.{
  ◌≡◌, refl, ◌∙◌, ap, inl, inr, true, Option, none, some, List, [], ◌∷◌, map, arith, Bool-cases,
  is_nil,
}
use docker_in_k8s.Text.{Text, ◌==◌, eq_iff, is_one_of, sort_texts, is_one_of-sort_texts}
use docker_in_k8s.Dicts.{Dict, lookup, keys}
use docker_in_k8s.Api.Platform.{Platform, IsPlatform}
use docker_in_k8s.Compose.Names.Labels.{IsDnsLabel, dns_name-IsDnsLabel}
use docker_in_k8s.Compose.Plan.{VolumePlan}
use docker_in_k8s.Compose.Resources.{
  VolumeConfig, volume_plan, plan_volumes, find_volume, sorted_keys,
}

-- What is found among plans that are named after a list of names.
find_volume-map :
    (f : Text → VolumePlan) (names : List Text) (name : Text)
    → ((n : Text) → (f n).name ≡ n)
    → is_one_of name names ≡ true
    → find_volume (map f names) name ≡ (f name).claim_name
unfolding find_volume is_one_of
find_volume-map f [] name named h = cc
find_volume-map f (n ∷ names) name named h = elim (Bool-cases (n == name)) [
  | inl e ↦ rw (named n) (rw e (ap (λ (n : Text). (f n).claim_name) ((eq_iff n name).0 e)))
  | inr e ↦
      rw (named n)
        (rw e (find_volume-map f names name named (ground (arith, eq_iff n name, eq_iff name n))))
]

module _ {p : Platform} (h : IsPlatform p) (project : Text) where
  volume_plan-name :
      (name : Text) (o : Option VolumeConfig) → (volume_plan p project name o).name ≡ name
  unfolding volume_plan
  volume_plan-name name none = refl
  volume_plan-name name (some volume) = refl

  claim-IsDnsLabel :
      (name : Text) (o : Option VolumeConfig) → IsDnsLabel (volume_plan p project name o).claim_name
  unfolding volume_plan
  claim-IsDnsLabel name none = dns_name-IsDnsLabel p.lower h.sha _
  claim-IsDnsLabel name (some volume) = elim (Bool-cases (is_nil volume.name)) [
    | inl e ↦ rw e (dns_name-IsDnsLabel p.lower h.sha _)
    | inr e ↦ rw e (dns_name-IsDnsLabel p.lower h.sha _)
  ]

  -- A volume that a project declares is found in its plan, with the claim that stands for it,
  -- whose name is a DNS label, if the digest has 64 hexadecimal digits.
  pub find_volume-plan_volumes :
      (volumes : Dict VolumeConfig) (name : Text)
      → is_one_of name (keys volumes) ≡ true
      → (find_volume (plan_volumes p project volumes) name
          ≡ (volume_plan p project name (lookup name volumes)).claim_name)
        × IsDnsLabel (find_volume (plan_volumes p project volumes) name)
  unfolding plan_volumes sorted_keys
  find_volume-plan_volumes volumes name declared =
      let found =
        find_volume-map (λ n. volume_plan p project n (lookup n volumes))
          (sort_texts (keys volumes)) name (λ n. volume_plan-name n (lookup n volumes))
          (is_one_of-sort_texts name (keys volumes) ∙ declared) in
      (found, rw found (claim-IsDnsLabel name (lookup name volumes)))
