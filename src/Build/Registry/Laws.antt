-- ===== src/Build/Registry/Laws.antt =====
-- The volumes and mounts of the BuildKit container.
use docker_in_k8s.Common.{◌≡◌, refl, Bool, true, false, List, [], ◌∷◌, arith, map, Distinct}
use docker_in_k8s.Text.{Text}
use docker_in_k8s.Api.Types.{Volume, VolumeMount, secret}
use docker_in_k8s.Build.Registry.{
  RegistryOptions, RegistryConfiguration, build_registry_configuration,
}

abbrev pub mount_names : RegistryConfiguration → List Text
mount_names r = map (λ (m : VolumeMount). m.name) r.mounts

abbrev pub volume_names : RegistryConfiguration → List Text
volume_names r = map (λ (v : Volume). v.name) r.volumes

-- A build secret is held in memory, and what comes from a Secret is mounted read-only.
abbrev pub IsGuarded : Volume → VolumeMount → Type 0
IsGuarded v m = elim v.source as (λ _. Type 0) [ secret _ _ ↦ m.read_only ≡ true | _ ↦ Unit ]

abbrev pub AllGuarded : List Volume → List VolumeMount → Type 0
AllGuarded (v ∷ vs) (m ∷ ms) = IsGuarded v m × AllGuarded vs ms
AllGuarded _ _ = Unit

abbrev pub AreMounted : RegistryConfiguration → Type 0
AreMounted r =
    (mount_names r ≡ volume_names r) × Distinct (mount_names r) × AllGuarded r.volumes r.mounts

configured :
    (dockerfile auth ca pvc : Text) (secrets : Bool)
    → AreMounted (
        build_registry_configuration dockerfile
          (record { auth_secret = auth; ca_secret = ca; cache_pvc = pvc; secrets = secrets }))
unfolding build_registry_configuration
configured dockerfile [] [] pvc true = (refl, ground arith, ground arith)
configured dockerfile [] [] pvc false = (refl, ground arith, ground arith)
configured dockerfile [] (c ∷ cs) pvc true = (refl, ground arith, ground arith)
configured dockerfile [] (c ∷ cs) pvc false = (refl, ground arith, ground arith)
configured dockerfile (a ∷ auth) [] pvc true = (refl, ground arith, ground arith)
configured dockerfile (a ∷ auth) [] pvc false = (refl, ground arith, ground arith)
configured dockerfile (a ∷ auth) (c ∷ cs) pvc true = (refl, ground arith, ground arith)
configured dockerfile (a ∷ auth) (c ∷ cs) pvc false = (refl, ground arith, ground arith)

-- Each volume of the BuildKit container is mounted once, in the order of the mounts and under
-- different names, and one that comes from a Secret is mounted read-only.
pub build_registry_configuration-mounts :
    (dockerfile : Text) (o : RegistryOptions)
    → AreMounted (build_registry_configuration dockerfile o)
unfolding build_registry_configuration
build_registry_configuration-mounts dockerfile o =
    configured dockerfile o.auth_secret o.ca_secret o.cache_pvc o.secrets
