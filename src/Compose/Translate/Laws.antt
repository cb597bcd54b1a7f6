-- ===== src/Compose/Translate/Laws.antt =====
-- What translate gives: a plan of each service in the order of their names, whose mounts all stand on a
-- volume, a config or a secret of the plan.
use docker_in_k8s.Common.{
  ℕ, ◌≡◌, refl, subst, ◌⊎◌, inl, inr, Bool, true, false, Option, none, some, List, [], ◌∷◌, ◌++◌,
  map, is_nil, All, All-append, if◌then◌else◌,
}
use docker_in_k8s.Text.{Text, codes, is_one_of}
use docker_in_k8s.Dicts.{Dict, lookup}
use docker_in_k8s.Result.{
  Result, ok, err, Error, traverse, traverse-All, >>=-eq-ok, message, ok-injective, err-ne-ok,
}
use docker_in_k8s.Api.Types.{Mount, name_label}
use docker_in_k8s.Api.Platform.{Platform}
use docker_in_k8s.Compose.Names.{dns_name}
use docker_in_k8s.Compose.Plan.{Plan, ServicePlan, VolumePlan, ConfigPlan}
use docker_in_k8s.Compose.Project.{Project, ServiceConfig, VolumeMountConfig, FileReference}
use docker_in_k8s.Compose.Resources.{
  FileObjectConfig, sorted_keys, plan_volumes, plan_configs, plan_secrets, find_secret, find_volume,
  find_config,
}
use docker_in_k8s.Compose.Resources.Members.{
  find_volume-is_one_of, find_config-is_one_of, find_secret-is_one_of,
}
use docker_in_k8s.Compose.Translate.{
  enumerate, volume_mount, config_mount, secret_mount, translate_mounts, translate_probes,
  service_plan, service_container, translate_service, translate_named, translate, volumes_of,
  files_of,
}

-- A guard in front of a result.
behind_guard :
    {A : Type 0} (test : Bool) (e : Error) (a b : A)
    → (if test then err e else ok a) ≡ ok b
    → (test ≡ false) × (a ≡ b)
behind_guard true e a b h = absurd (err-ne-ok h)
behind_guard false e a b h = (refl, ok-injective h)

module _ (volumes configs secrets : List Text) where
  -- What a mount stands on.
  abbrev pub IsBacked : Mount → Type 0
  IsBacked mount =
      ((mount.type ≡ codes "pvc") × (is_one_of mount.source volumes ≡ true))
      ⊎ ((mount.type ≡ codes "configMap") × (is_one_of mount.source configs ≡ true))
      ⊎ ((mount.type ≡ codes "secret") × (is_one_of mount.source secrets ≡ true))

abbrev pub claims_of : List VolumePlan → List Text
claims_of = map (λ (v : VolumePlan). v.claim_name)

abbrev pub maps_of : List ConfigPlan → List Text
maps_of = map (λ (f : ConfigPlan). f.config_map.name)

module _ (volumes : List VolumePlan) (configs : List ConfigPlan)
    (secrets : Dict FileObjectConfig) where
  abbrev pub Backed : Mount → Type 0
  Backed = IsBacked (claims_of volumes) (maps_of configs) (plan_secrets secrets)

  volume_mount-Backed :
      (v : ℕ × VolumeMountConfig) (m : Mount) → volume_mount volumes v ≡ ok m → Backed m
  unfolding volume_mount
  volume_mount-Backed (index, volume) m h =
      let (there, same) = behind_guard (is_nil (find_volume volumes volume.source)) _ _ m h in
      subst Backed same ((inl (refl, find_volume-is_one_of volumes volume.source there)))

  config_mount-Backed :
      (r : ℕ × FileReference) (m : Mount) → config_mount configs r ≡ ok m → Backed m
  unfolding config_mount
  config_mount-Backed (index, ref) m h =
      let (there, same) = behind_guard (is_nil (find_config configs ref.source)) _ _ m h in
      subst Backed same (inr (inl (refl, find_config-is_one_of configs ref.source there)))

  secret_mount-Backed :
      (r : ℕ × FileReference) (m : Mount) → secret_mount secrets r ≡ ok m → Backed m
  unfolding secret_mount
  secret_mount-Backed (index, ref) m h =
      let (there, same) = behind_guard (is_nil (find_secret secrets ref.source)) _ _ m h in
      subst Backed same (inr (inr (refl, find_secret-is_one_of secrets ref.source there)))

  translate_mounts-Backed :
      (service : ServiceConfig) (ms : List Mount)
      → translate_mounts volumes configs secrets service ≡ ok ms
      → All Backed ms
  unfolding translate_mounts
  translate_mounts-Backed service ms h =
      let (ms1, made1, h1) =
        >>=-eq-ok (traverse (volume_mount volumes) (enumerate 0 service.volumes)) _ h in
      let (ms2, made2, h2) =
        >>=-eq-ok (traverse (config_mount configs) (enumerate 0 service.configs)) _ h1 in
      let (ms3, made3, h3) =
        >>=-eq-ok (traverse (secret_mount secrets) (enumerate 0 service.secrets)) _ h2 in
      subst (All Backed) (ok-injective h3) (
        All-append Backed ms1 (ms2 ++ ms3)
          (traverse-All (volume_mount volumes) Backed volume_mount-Backed _ ms1 made1).1
          (All-append Backed ms2 ms3
            (traverse-All (config_mount configs) Backed config_mount-Backed _ ms2 made2).1
            (traverse-All (secret_mount secrets) Backed secret_mount-Backed _ ms3 made3).1))

  -- The plan of a service: its mounts are backed, and its Service selects its container.
  abbrev pub Planned : Platform → Text → ServicePlan → Type 0
  Planned p project sp =
      All Backed sp.spec.mounts
      × (sp.container_name ≡ service_container p project sp.name)
      × (sp.service.selector ≡ (name_label, sp.container_name) ∷ [])

  translate_service-Planned :
      (p : Platform) (namespace project name : Text) (service : ServiceConfig) (sp : ServicePlan)
      → translate_service p namespace project volumes configs secrets name service ≡ ok sp
      → Planned p project sp × (sp.name ≡ name)
  unfolding translate_service service_plan
  translate_service-Planned p namespace project name service sp h =
      let (ms, made, h1) = >>=-eq-ok (translate_mounts volumes configs secrets service) _ h in
      let (probes, probed, h2) = >>=-eq-ok (translate_probes service.health_check) _ h1 in
      subst (λ x. Planned p project x × (x.name ≡ name)) (ok-injective h2)
        ((translate_mounts-Backed service ms made, refl, refl), refl)

  translate_named-Planned :
      (p : Platform) (namespace project : Text) (services : Dict ServiceConfig) (name : Text)
      (sp : ServicePlan)
      → translate_named p namespace project volumes configs secrets services name ≡ ok sp
      → Planned p project sp × (sp.name ≡ name)
  unfolding translate_named
  translate_named-Planned p namespace project services name sp =
      elim (lookup name services)
        as (λ o.
          (elim o [
            | none ↦ err (message (codes "no such service"))
            | some service ↦
                translate_service p namespace project volumes configs secrets name service
          ])
            ≡ ok sp
          → Planned p project sp × (sp.name ≡ name)) [
            | none ↦ λ h. absurd (err-ne-ok h)
            | some service ↦ translate_service-Planned p namespace project name service sp
          ]

-- A loop whose results carry the elements that they were made of.
traverse-names :
    {A B : Type 0} (f : A → Result B) (name_of : B → A)
    → ((a : A) (b : B) → f a ≡ ok b → name_of b ≡ a)
    → (xs : List A) (ys : List B) → traverse f xs ≡ ok ys
    → map name_of ys ≡ xs
unfolding traverse
traverse-names f name_of each [] ys h = subst (λ ys. map name_of ys ≡ []) (ok-injective h) refl
traverse-names f name_of each (x ∷ xs) ys h =
    let (b, here, h1) = >>=-eq-ok (f x) _ h in
    let (rest, there, e) = >>=-eq-ok (traverse f xs) _ h1 in
    subst (λ ys. map name_of ys ≡ x ∷ xs) (ok-injective e)
      (cc (each x b here, traverse-names f name_of each xs rest there))

-- The plan has a service for each of the project's, in the order of the names, and each is backed by
-- the volumes, configs and secrets of the same plan.
abbrev pub IsPlanOf : Platform → Project → Plan → Type 0
IsPlanOf p project plan =
    (map (λ (sp : ServicePlan). sp.name) plan.services ≡ sorted_keys project.services)
    × All
        (λ (sp : ServicePlan).
          All (IsBacked (claims_of plan.volumes) (maps_of plan.configs) plan.secrets) sp.spec.mounts
          × (sp.container_name ≡ service_container p plan.name sp.name)
          × (sp.service.selector ≡ (name_label, sp.container_name) ∷ []))
        plan.services

-- A plan that translate gives has one service for each name of the project's services, in the
-- sorted order, with the container's name made of those of the project and the service as its
-- Service's selector, and each of its mounts stands on a claim, a config map or a secret of the
-- plan.
pub translate-IsPlanOf :
    (p : Platform) (lookup_env : Text → Option Text) (read_file : Text → Result Text)
    (project : Project) (namespace normalized : Text) (plan : Plan)
    → translate p lookup_env read_file project namespace normalized ≡ ok plan
    → IsPlanOf p project plan
unfolding translate
translate-IsPlanOf p lookup_env read_file project namespace normalized plan h =
    let name = dns_name p.lower p.sha project.name in
    let volumes = plan_volumes p name (volumes_of project) in
    let secrets = files_of project.secrets in
    let (configs, made, h1) =
      >>=-eq-ok (plan_configs p name lookup_env read_file namespace (files_of project.configs)) _
        h in
    let one = translate_named p namespace name volumes configs secrets project.services in
    let planned =
      translate_named-Planned volumes configs secrets p namespace name project.services in
    let (services, there, e) = >>=-eq-ok (traverse one (sorted_keys project.services)) _ h1 in
    subst (IsPlanOf p project) (ok-injective e) (
      traverse-names one (λ (sp : ServicePlan). sp.name) (λ n sp k. (planned n sp k).1) _ services
          there,
      (traverse-All one (Planned volumes configs secrets p name) (λ n sp k. (planned n sp k).0) _
          services there).1,
    )
