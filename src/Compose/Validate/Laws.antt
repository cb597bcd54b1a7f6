-- ===== src/Compose/Validate/Laws.antt =====
-- What validate leaves of a project.
use docker_in_k8s.Common.{
  arith, ◌≡◌, refl, ◌≢◌, ◌⊎◌, inl, inr, ||-eq-true, not, ◌&&◌, ◌||◌, Bool, true, false, Option,
  none, some, List, [], ◌∷◌, is_nil, All, All-map_of, eqb, ||-eq-false, ne-nil_of_is_nil,
}
use docker_in_k8s.Text.{Text, codes, ◌==◌, eq_iff, is_one_of, is_one_of-All}
use docker_in_k8s.Dicts.{Dict, lookup}
use docker_in_k8s.Result.{ok, Error, err-ne-ok, >>=-eq-ok, ◌>>◌}
use docker_in_k8s.Api.Platform.{Platform}
use docker_in_k8s.Compose.Names.{dns_name}
use docker_in_k8s.Compose.Project.{
  Project, ServiceConfig, StructField, VolumeMountConfig, PortConfig, HealthCheck,
}
use docker_in_k8s.Compose.Probes.{probe_for, translate_probe}
use docker_in_k8s.Compose.Validate.{
  Check, reject, check_each, is_allowed, validate_service_fields, check_volume_mount,
  check_dependency, check_health, check_port, is_command_test, check_settings, check_deploy,
  is_missing, check_network, check_volume, check_config, check_secret, validate_service, validate,
}

reject-eq-ok : (test : Bool) (e : Error) → reject test e ≡ ok tt → test ≡ false
reject-eq-ok true e h = absurd (err-ne-ok h)
reject-eq-ok false e h = refl

-- A guard that lets the rest of a check pass.
behind_reject :
    (test : Bool) (e : Error) (next : Check)
    → (reject test e >> next) ≡ ok tt
    → (test ≡ false) × (next ≡ ok tt)
behind_reject true e next h = absurd (err-ne-ok h)
behind_reject false e next h = (refl, h)

not-eq-false : (b : Bool) → not b ≡ false → b ≡ true
not-eq-false true h = refl
not-eq-false false h = cc

-- What all elements have passed.
check_each-All :
    {A : Type 0} (check : A → Check) (xs : List A)
    → check_each check xs ≡ ok tt
    → All (λ x. check x ≡ ok tt) xs
unfolding check_each
check_each-All check [] h = tt
check_each-All check (x ∷ xs) h =
    let (u, here, rest) = >>=-eq-ok (check x) _ h in (here, check_each-All check xs rest)

validate_service_fields-All :
    (name : Text) (fields : List StructField)
    → validate_service_fields name fields ≡ ok tt
    → All (λ f. is_allowed f ≡ true) fields
unfolding validate_service_fields
validate_service_fields-All name [] h = tt
validate_service_fields-All name (field ∷ fields) h =
    let (here, rest) = behind_reject (not (is_allowed field)) _ _ h in
    (not-eq-false _ here, validate_service_fields-All name fields rest)

abbrev pub IsNamedVolume : VolumeMountConfig → Type 0
IsNamedVolume volume = (volume.type ≡ codes "volume") × (is_nil volume.source ≡ false)

check_volume_mount-IsNamedVolume :
    (name : Text) (volume : VolumeMountConfig)
    → check_volume_mount name volume ≡ ok tt
    → IsNamedVolume volume
unfolding check_volume_mount
check_volume_mount-IsNamedVolume name volume h =
    let (first, rest) =
      behind_reject (not (volume.type == codes "volume") || is_nil volume.source) _ _ h in
    let (typed, sourced) = ||-eq-false (not (volume.type == codes "volume")) _ first in
    ((eq_iff _ _).0 (not-eq-false _ typed), sourced)

abbrev pub IsKnown : Dict ServiceConfig → Text × Text → Type 0
IsKnown services dependency = lookup dependency.0 services ≢ none

check_dependency-IsKnown :
    (services : Dict ServiceConfig) (name : Text) (dependency : Text × Text)
    → check_dependency services name dependency ≡ ok tt
    → IsKnown services dependency
unfolding check_dependency
check_dependency-IsKnown services name (dependency, condition) h =
    let (first, rest) = behind_reject (is_missing (lookup dependency services)) _ _ h in
    there (lookup dependency services) first
  where
    there : {A : Type 0} (o : Option A) → is_missing o ≡ false → o ≢ none
    there none h = cc
    there (some a) h = cc

-- A health check that is in use has a probe: nothing panics.
abbrev pub HasProbe : Option HealthCheck → Type 0
HasProbe none = Unit
HasProbe (some health) = health.disable ≡ false → translate_probe health ≢ none

probe_for-ne-none :
    (health : HealthCheck) (test : List Text)
    → is_command_test test ≡ true
    → probe_for health test ≢ none
unfolding probe_for
probe_for-ne-none health [] h = cc
probe_for-ne-none health (form ∷ words) h = cc

tested : (disable test : Bool) → (not disable && not test) ≡ false → disable ≡ false → test ≡ true
tested true test h enabled = cc
tested false true h enabled = refl
tested false false h enabled = cc

check_health-HasProbe :
    (name : Text) (health : Option HealthCheck) → check_health name health ≡ ok tt → HasProbe health
unfolding check_health translate_probe
check_health-HasProbe name none h = tt
check_health-HasProbe name (some health) h = λ enabled.
    probe_for-ne-none health health.test
      (tested health.disable (is_command_test health.test) (reject-eq-ok _ _ h) enabled)

abbrev pub HasTarget : PortConfig → Type 0
HasTarget port = eqb port.target 0 ≡ false

check_port-HasTarget :
    (name : Text) (port : PortConfig) → check_port name port ≡ ok tt → HasTarget port
unfolding check_port
check_port-HasTarget name port h =
    (||-eq-false (eqb port.target 0) _
      (||-eq-false _ _ (||-eq-false _ _ (reject-eq-ok _ _ h)).0).0).0

-- The fields that a service may have: those that make up its name, image, process, ports, mounts, secrets,
-- resources and probe, and those that other checks restrict (Networks and DependsOn). So no service has
-- privileges, capabilities, devices, namespaces or security options of its own.
abbrev pub admitted_fields : List Text
admitted_fields =
    codes "Name"
    ∷ codes "Command"
    ∷ codes "Configs"
    ∷ codes "CustomLabels"
    ∷ codes "DependsOn"
    ∷ codes "Deploy"
    ∷ codes "Entrypoint"
    ∷ codes "Environment"
    ∷ codes "EnvFiles"
    ∷ codes "Expose"
    ∷ codes "HealthCheck"
    ∷ codes "Image"
    ∷ codes "Networks"
    ∷ codes "Ports"
    ∷ codes "Secrets"
    ∷ codes "StdinOpen"
    ∷ codes "Tty"
    ∷ codes "Volumes"
    ∷ codes "WorkingDir"
    ∷ []

-- A field that has its zero value, or may be set.
abbrev pub IsAdmitted : StructField → Type 0
IsAdmitted f = (f.zero ≡ true) ⊎ (is_one_of f.name admitted_fields ≡ true)

is_allowed-IsAdmitted : (f : StructField) → is_allowed f ≡ true → IsAdmitted f
is_allowed-IsAdmitted f h = elim (||-eq-true (is_one_of f.name admitted_fields) f.zero h) [
  | inl e ↦ inr e
  | inr e ↦ inl e
]

-- Some of the fields that no service may have.
abbrev pub forbidden_fields : List Text
forbidden_fields =
    codes "Privileged"
    ∷ codes "CapAdd"
    ∷ codes "Devices"
    ∷ codes "NetworkMode"
    ∷ codes "Pid"
    ∷ codes "Ipc"
    ∷ codes "UserNSMode"
    ∷ codes "SecurityOpt"
    ∷ codes "Build"
    ∷ []

abbrev pub IsConfined : StructField → Type 0
IsConfined f = is_one_of f.name forbidden_fields ≡ true → f.zero ≡ true

admitted-ne-forbidden : All (λ t. is_one_of t forbidden_fields ≡ false) admitted_fields
unfolding is_one_of ◌==◌
admitted-ne-forbidden = ground arith

IsAdmitted-IsConfined : (f : StructField) → IsAdmitted f → IsConfined f
IsAdmitted-IsConfined f (inl zero) forbidden = zero
IsAdmitted-IsConfined f (inr listed) forbidden =
    let other =
      is_one_of-All (λ t. is_one_of t forbidden_fields ≡ false) f.name admitted_fields listed
        admitted-ne-forbidden in
    cc

-- A service that has passed: no field is set but those that are admitted, it has an image and a name
-- that is a DNS label, mounts named volumes only, depends on services of the project, and its probe and
-- its ports are defined.
pub record IsSupported (p : Platform) (services : Dict ServiceConfig) (entry : Text × ServiceConfig)
    : Type 0 where
  pub named : dns_name p.lower p.sha entry.0 ≡ entry.0
  pub fields : All IsAdmitted entry.1.fields
  pub confined : All IsConfined entry.1.fields
  pub image : is_nil entry.1.image ≡ false
  pub volumes : All IsNamedVolume entry.1.volumes
  pub depends_on : All (IsKnown services) entry.1.depends_on
  pub health_check : HasProbe entry.1.health_check
  pub ports : All HasTarget entry.1.ports

validate_service-IsSupported :
    (p : Platform) (services : Dict ServiceConfig) (entry : Text × ServiceConfig)
    → validate_service p services entry ≡ ok tt
    → IsSupported p services entry
unfolding validate_service
validate_service-IsSupported p services (name, service) h =
    let (named, h1) = behind_reject (not (dns_name p.lower p.sha name == name)) _ _ h in
    let (u2, fields, h2) = >>=-eq-ok (validate_service_fields name service.fields) _ h1 in
    let (image, h3) = behind_reject (is_nil service.image) _ _ h2 in
    let (u4, settings, h4) = >>=-eq-ok (check_settings name service) _ h3 in
    let (u5, volumes, h5) = >>=-eq-ok (check_each (check_volume_mount name) service.volumes) _ h4 in
    let (u6, depends, h6) =
      >>=-eq-ok (check_each (check_dependency services name) service.depends_on) _ h5 in
    let (u7, deploy, h7) = >>=-eq-ok (check_deploy name service.deploy) _ h6 in
    let (u8, health, ports) = >>=-eq-ok (check_health name service.health_check) _ h7 in
    let admitted =
      All-map_of is_allowed-IsAdmitted service.fields
        (validate_service_fields-All name service.fields fields) in
    record {
      named = (eq_iff _ _).0 (not-eq-false _ named);
      fields = admitted;
      confined = All-map_of IsAdmitted-IsConfined service.fields admitted;
      image = image;
      volumes =
          All-map_of (check_volume_mount-IsNamedVolume name) service.volumes
            (check_each-All _ _ volumes);
      depends_on =
          All-map_of (check_dependency-IsKnown services name) service.depends_on
            (check_each-All _ _ depends);
      health_check = check_health-HasProbe name service.health_check health;
      ports = All-map_of (check_port-HasTarget name) service.ports (check_each-All _ _ ports);
    }

-- A project that validate accepts has services, and each has a name that dnsName keeps, no field
-- set but nineteen that are listed (so no privileges, capabilities, devices or host namespaces),
-- an image, mounts of named volumes only, dependencies on services of the project only, a probe
-- for a health check in use, and no port with target 0.
pub validate-IsSupported :
    (p : Platform) (project : Project)
    → validate p project ≡ ok tt
    → (project.services ≢ []) × All (IsSupported p project.services) project.services
unfolding validate
validate-IsSupported p project h =
    let (some_service, h1) = behind_reject (is_nil project.services) _ _ h in
    let (no_models, h2) = behind_reject project.models _ _ h1 in
    let (u3, networks, h3) =
      >>=-eq-ok (check_each (check_network project.name) project.networks) _ h2 in
    let (u4, volumes, h4) = >>=-eq-ok (check_each check_volume project.volumes) _ h3 in
    let (u5, configs, h5) = >>=-eq-ok (check_each check_config project.configs) _ h4 in
    let (u6, secrets, services) = >>=-eq-ok (check_each check_secret project.secrets) _ h5 in
    (
      ne-nil_of_is_nil project.services some_service,
      All-map_of (validate_service-IsSupported p project.services) project.services
          (check_each-All (validate_service p project.services) project.services services),
    )
