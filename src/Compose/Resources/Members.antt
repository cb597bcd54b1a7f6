-- ===== src/Compose/Resources/Members.antt =====
-- What findVolume, findConfig and findSecret find is in the plan.
use docker_in_k8s.Common.{
  arith, ◌≡◌, refl, ◌∙◌, ◌≢◌, inl, inr, false, true, Option, none, some, List, [], ◌∷◌, map, is_nil,
  Bool-cases,
}
use docker_in_k8s.Text.{Text, ◌==◌, eq_refl, eq_iff, is_one_of, is_one_of-sort_texts}
use docker_in_k8s.Dicts.{Dict, lookup, keys}
use docker_in_k8s.Compose.Plan.{VolumePlan, ConfigPlan}
use docker_in_k8s.Compose.Resources.{
  FileObjectConfig, sorted_keys, plan_secrets, secret_name_or, find_secret, find_volume,
  find_config,
}

is_one_of-first : (t : Text) (ts : List Text) → is_one_of t (t ∷ ts) ≡ true
unfolding is_one_of
is_one_of-first t ts = rw (eq_refl t) refl

is_one_of-later :
    (t u : Text) (ts : List Text) → is_one_of t ts ≡ true → is_one_of t (u ∷ ts) ≡ true
unfolding is_one_of
is_one_of-later t u ts h = ground arith

-- What is found is in the plan.
pub find_volume-is_one_of :
    (volumes : List VolumePlan) (name : Text)
    → is_nil (find_volume volumes name) ≡ false
    → is_one_of (find_volume volumes name) (map (λ (v : VolumePlan). v.claim_name) volumes) ≡ true
unfolding find_volume
find_volume-is_one_of [] name = λ h. cc
find_volume-is_one_of (volume ∷ volumes) name = elim (Bool-cases (volume.name == name)) [
  | inl e ↦ rw e (λ h. is_one_of-first volume.claim_name _)
  | inr e ↦ rw e (λ h. is_one_of-later _ volume.claim_name _ (find_volume-is_one_of volumes name h))
]

pub find_config-is_one_of :
    (configs : List ConfigPlan) (name : Text)
    → is_nil (find_config configs name) ≡ false
    → is_one_of (find_config configs name) (map (λ (f : ConfigPlan). f.config_map.name) configs)
      ≡ true
unfolding find_config
find_config-is_one_of [] name = λ h. cc
find_config-is_one_of (config ∷ configs) name = elim (Bool-cases (config.name == name)) [
  | inl e ↦ rw e (λ h. is_one_of-first config.config_map.name _)
  | inr e ↦
      rw e (λ h. is_one_of-later _ config.config_map.name _ (find_config-is_one_of configs name h))
]

is_one_of-map :
    (f : Text → Text) (t : Text) (ts : List Text)
    → is_one_of t ts ≡ true
    → is_one_of (f t) (map f ts) ≡ true
unfolding is_one_of
is_one_of-map f t [] = λ h. cc
is_one_of-map f t (u ∷ ts) = elim (Bool-cases (t == u)) [
  | inl e ↦ λ h. rw ((eq_iff t u).0 e) (rw (eq_refl (f u)) refl)
  | inr e ↦ rw e (λ h. is_one_of-later (f t) (f u) (map f ts) (is_one_of-map f t ts h))
]

keys-lookup : {V : Type 0} (m : Dict V) (k : Text) → lookup k m ≢ none → is_one_of k (keys m) ≡ true
unfolding lookup keys
keys-lookup [] k = λ h. absurd (h refl)
keys-lookup ((j, v) ∷ m) k = elim (Bool-cases (k == j)) [
  | inl e ↦ λ h. rw ((eq_iff k j).0 e) (is_one_of-first j (keys m))
  | inr e ↦ rw e (λ h. is_one_of-later k j (keys m) (keys-lookup m k h))
]

pub find_secret-is_one_of :
    (secrets : Dict FileObjectConfig) (name : Text)
    → is_nil (find_secret secrets name) ≡ false
    → is_one_of (find_secret secrets name) (plan_secrets secrets) ≡ true
unfolding plan_secrets sorted_keys find_secret
find_secret-is_one_of secrets name h =
    is_one_of-map (find_secret secrets) name (sorted_keys secrets) (
      is_one_of-sort_texts name (keys secrets)
      ∙ keys-lookup secrets name (found (lookup name secrets) h))
  where
    found : (o : Option FileObjectConfig) → is_nil (secret_name_or name o) ≡ false → o ≢ none
    found none h = cc
    found (some a) h = cc
