-- ===== src/Compose/Apply/Preflight.antt =====
-- What preflight accepts, and that a plan it refuses changes nothing.
use docker_in_k8s.Common.{
  ◌≡◌, refl, ◌∙◌, ap, ◌↔◌, subst, ◌≢◌, inl, inr, true, Option, none, some, Bool-cases, List, [],
  ◌∷◌, All,
}
use mathlib.Core.Option.{some-injective}
use docker_in_k8s.Text.{Text, codes}
use docker_in_k8s.Result.{Error, Result, ok, err, join_error, reply_of}
use docker_in_k8s.Api.Platform.{Platform}
use docker_in_k8s.Cluster.{Cluster, Service, Claim, Secret, found}
use docker_in_k8s.Cluster.Calls.{Action}
use docker_in_k8s.Compose.Plan.{ServicePlan, VolumePlan, Plan}
use docker_in_k8s.Compose.Apply.{
  is_owned, join_reply, join_service, check_secrets, check_volumes, check_services, preflight,
  apply,
}

-- What gets of the namespace answer with; a get changes nothing.
pub record IsReadable (c : Cluster) (namespace : Text) : Type 0 where
  pub secret_at : c.State → Text → Option Secret
  pub claim_at : c.State → Text → Option Claim
  pub service_at : c.State → Text → Option Service
  pub secrets :
      (s : c.State) (n : Text) → (c.secrets namespace).get n s ≡ (found (secret_at s n), s)
  pub claims : (s : c.State) (n : Text) → (c.claims namespace).get n s ≡ (found (claim_at s n), s)
  pub services :
      (s : c.State) (n : Text) → (c.services namespace).get n s ≡ (found (service_at s n), s)

module _ (c : Cluster) (namespace : Text) (readable : IsReadable c namespace) where
  -- The secrets and external volumes of the plan exist, and no Service under the name of one of its
  -- services belongs to anything else.
  abbrev HasSecrets : c.State → List Text → Type 0
  HasSecrets s secrets = All (λ n. readable.secret_at s n ≢ none) secrets

  abbrev HasVolumes : c.State → List VolumePlan → Type 0
  HasVolumes s volumes =
      All (λ (v : VolumePlan). v.external ≡ true → readable.claim_at s v.claim_name ≢ none) volumes

  abbrev OwnsServices : c.State → Text → List ServicePlan → Type 0
  OwnsServices s project services =
      All
        (λ (sp : ServicePlan).
          (o : Service)
          → readable.service_at s sp.service.name ≡ some o
          → is_owned project o ≡ true)
        services

  abbrev pub IsReady : c.State → Plan → Type 0
  IsReady s plan =
      HasSecrets s plan.secrets × HasVolumes s plan.volumes × OwnsServices s plan.name plan.services

  -- A check reads only, and finds no error if and only if there was none and `P` holds.
  abbrev Checks : Result (Option Error) × c.State → Option Error → c.State → Type 0 → Type 0
  Checks reply result s P =
      (result' : Option Error) × (reply ≡ (ok result', s))
      × ((result' ≡ none) ↔ ((result ≡ none) × P))

  join_error-ne-none : (result : Option Error) (e : Error) → join_error result e ≢ none
  join_error-ne-none none e = cc
  join_error-ne-none (some e') e = cc

  join_reply_iff :
      {A : Type 0} (context : Text) (result : Option Error) (o : Option A)
      → (join_reply c namespace context result (found o) ≡ none) ↔ ((result ≡ none) × (o ≢ none))
  join_reply_iff context result none =
      ((λ h. absurd (join_error-ne-none result _ h)), (λ h. absurd (h.1 refl)))
  join_reply_iff context result (some a) = ((λ h. (h, λ e. cc)), (λ h. h.0))

  join_service_iff :
      (project : Text) (result : Option Error) (o : Option Service)
      → (join_service c namespace project result (found o) ≡ none) ↔ (
          (result ≡ none)
          × ((existing : Service) → o ≡ some existing → is_owned project existing ≡ true))
  join_service_iff project result none = ((λ h. (h, λ existing e. cc)), (λ h. h.0))
  join_service_iff project result (some o) = elim (Bool-cases (is_owned project o)) [
    | inl owned ↦ rw owned (
      (λ h. (
        h,
        λ existing e. subst (λ x. is_owned project x ≡ true) (some-injective o existing e) owned,
      )),
      (λ h. h.0),
    )
    | inr other ↦
        rw other ((λ h. absurd (join_error-ne-none result _ h)), (λ h. cc (h.1 o refl, other)))
  ]

  -- A check that goes on with `rest` once it has looked at its first element.
  checks_first :
      (reply rest : Result (Option Error) × c.State) {result mid : Option Error} {s : c.State}
      {H P : Type 0}
      → reply ≡ rest
      → ((mid ≡ none) ↔ ((result ≡ none) × H))
      → Checks rest mid s P
      → Checks reply result s (H × P)
  checks_first reply rest e first (result', done, iff) = (
    result',
    e ∙ done,
    (
      (λ h. let (m, p) = iff.0 h in let (r, f) = first.0 m in (r, (f, p))),
      (λ h. iff.1 (first.1 (h.0, h.1.0), h.1.1)),
    ),
  )

  check_secrets_lem :
      (secrets : List Text) (result : Option Error) (s : c.State)
      → Checks (check_secrets c namespace secrets result s) result s (HasSecrets s secrets)
  unfolding check_secrets
  check_secrets_lem [] result s = (result, refl, ((λ h. (h, tt)), (λ h. h.0)))
  check_secrets_lem (n ∷ secrets) result s =
      checks_first (check_secrets c namespace (n ∷ secrets) result s)
        (check_secrets c namespace secrets
          (join_reply c namespace (codes "required Kubernetes Secret") result
            (found (readable.secret_at s n)))
          s)
        (rw (readable.secrets s n) refl)
        (join_reply_iff (codes "required Kubernetes Secret") result (readable.secret_at s n))
        (check_secrets_lem secrets
          (join_reply c namespace (codes "required Kubernetes Secret") result
            (found (readable.secret_at s n)))
          s)

  external_volume :
      (v : VolumePlan)
      → v.external ≡ true
      → (volumes : List VolumePlan) (result : Option Error) (s : c.State)
      → (let mid =
            join_reply c namespace
              (codes "external volume requires PVC")
              result
              (found (readable.claim_at s v.claim_name)) in
          Checks (check_volumes c namespace volumes mid s) mid s (HasVolumes s volumes))
      → Checks
          (check_volumes c namespace (v ∷ volumes) result s)
          result
          s
          ((readable.claim_at s v.claim_name ≢ none) × HasVolumes s volumes)
  unfolding check_volumes
  external_volume v external volumes result s rest =
      checks_first (check_volumes c namespace (v ∷ volumes) result s)
        (check_volumes c namespace volumes
          (join_reply c namespace (codes "external volume requires PVC") result
            (found (readable.claim_at s v.claim_name)))
          s)
        (rw external (rw (readable.claims s v.claim_name) refl))
        (join_reply_iff (codes "external volume requires PVC") result
          (readable.claim_at s v.claim_name))
        rest

  check_volumes_lem :
      (volumes : List VolumePlan) (result : Option Error) (s : c.State)
      → Checks (check_volumes c namespace volumes result s) result s (HasVolumes s volumes)
  unfolding check_volumes
  check_volumes_lem [] result s = (result, refl, ((λ h. (h, tt)), (λ h. h.0)))
  check_volumes_lem (v ∷ volumes) result s = elim (Bool-cases v.external) [
    | inl e ↦
        let (result', done, iff) =
          external_volume v e volumes result s (check_volumes_lem volumes _ s) in
        (
          result',
          done,
          (
            (λ h. let (r, (f, p)) = iff.0 h in (r, ((λ e. f), p))),
            (λ h. iff.1 (h.0, (h.1.0 e, h.1.1))),
          ),
        )
    | inr e ↦
        let (result', done, iff) = check_volumes_lem volumes result s in
        (
          result',
          rw e done,
          ((λ h. let (r, p) = iff.0 h in (r, ((λ e'. cc (e, e')), p))), (λ h. iff.1 (h.0, h.1.1))),
        )
  ]

  check_services_lem :
      (project : Text) (services : List ServicePlan) (result : Option Error) (s : c.State)
      → Checks
          (check_services c namespace project services result s)
          result
          s
          (OwnsServices s project services)
  unfolding check_services
  check_services_lem project [] result s = (result, refl, ((λ h. (h, tt)), (λ h. h.0)))
  check_services_lem project (sp ∷ services) result s =
      checks_first (check_services c namespace project (sp ∷ services) result s)
        (check_services c namespace project services
          (join_service c namespace project result (found (readable.service_at s sp.service.name)))
          s)
        (rw (readable.services s sp.service.name) refl)
        (join_service_iff project result (readable.service_at s sp.service.name))
        (check_services_lem project services
          (join_service c namespace project result (found (readable.service_at s sp.service.name)))
          s)

  -- Where gets only read, preflight changes nothing, and it succeeds if and only if the secrets
  -- and external volumes of the plan exist and every Service under the name of one of its
  -- services belongs to its project.
  pub preflight_iff :
      (plan : Plan) (s : c.State)
      → (reply : Result (Unit {0})) × (preflight c namespace plan s ≡ (reply, s))
        × ((reply ≡ ok tt) ↔ IsReady s plan)
  unfolding preflight
  preflight_iff plan s =
      let (r1, done1, iff1) = check_secrets_lem plan.secrets none s in
      let (r2, done2, iff2) = check_volumes_lem plan.volumes r1 s in
      let (r3, done3, iff3) = check_services_lem plan.name plan.services r2 s in
      (
        reply_of r3,
        rw done1 (rw done2 (rw done3 refl)),
        (
          (λ h.
              let (n2, owned) = iff3.0 (none_of_reply r3 h) in
              let (n1, volumes) = iff2.0 n2 in
              let (n0, secrets) = iff1.0 n1 in (secrets, volumes, owned)),
          (λ (h : IsReady s plan). ap reply_of (iff3.1 (iff2.1 (iff1.1 (refl, h.0), h.1), h.2))),
        ),
      )
    where
      none_of_reply : (o : Option Error) → reply_of o ≡ ok tt → o ≡ none
      none_of_reply none h = refl
      none_of_reply (some e) h = cc

  -- Where gets only read, a plan that lacks a secret or an external volume, or one of whose
  -- Services belongs to anything else, is refused with an error and the state is as it was.
  pub apply_of_not_ready :
      (p : Platform) (retry : Action c.State (Unit {0}) → Action c.State (Unit {0})) (plan : Plan)
      (s : c.State)
      → ¬ IsReady s plan
      → (e : Error) × (apply c namespace p retry plan s ≡ (err e, s))
  unfolding apply
  apply_of_not_ready p retry plan s unready =
      let (reply, done, iff) = preflight_iff plan s in refused reply done iff
    where
      refused :
          (reply : Result (Unit {0}))
          → preflight c namespace plan s ≡ (reply, s)
          → ((reply ≡ ok tt) ↔ IsReady s plan)
          → (e : Error) × (apply c namespace p retry plan s ≡ (err e, s))
      refused (ok tt) done iff = absurd (unready (iff.0 refl))
      refused (err e) done iff = (e, rw done refl)
