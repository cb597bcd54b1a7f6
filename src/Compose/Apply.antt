-- ===== src/Compose/Apply.antt =====
-- internal/compose/apply.go: Apply, which carries a plan out on the cluster.
pub mod Preflight
pub mod Owners
use docker_in_k8s.Common.{
  ℕ, zero, suc, Bool, true, false, not, ◌&&◌, ◌||◌, Option, none, some, List, [], ◌∷◌, ◌++◌, map,
  if◌then◌else◌, is_nil,
}
use docker_in_k8s.Text.{Text, codes, ◌==◌, is_one_of, text_lt}
use docker_in_k8s.Dicts.{Dict, merge, text_at}
use docker_in_k8s.Result.{
  Result, ok, err, Error, message, wrapped, is_not_found, is_already_exists, join_error, reply_of,
}
use docker_in_k8s.Api.Types.{
  ContainerSpec, managed_by_label, managed_by_value, project_label, service_label,
}
use docker_in_k8s.Api.Platform.{Platform}
use docker_in_k8s.Api.Container.{DockerContainer, new_container}
use docker_in_k8s.Api.Spec.{spec_map, spec, set_spec}
use docker_in_k8s.Cluster.{Cluster, Resource, Service, ConfigMap, Claim}
use docker_in_k8s.Cluster.Calls.{Action, return, raise, lift, attempt, wrap, ◌>>=◌, ◌>>◌}
use docker_in_k8s.Compose.Plan.{ServicePlan, VolumePlan, ConfigPlan, Plan, object_labels}

abbrev pub has_label : Text → Text → Dict Text → Bool
has_label key value labels = text_at key labels == value

-- Whether a Service that exists belongs to the project.
abbrev pub is_owned : Text → Service → Bool
is_owned project existing =
    has_label project_label project existing.labels
    && has_label managed_by_label managed_by_value existing.labels

module _ (c : Cluster) (namespace : Text) where
  abbrev Step : Type 0 → Type 0
  Step A = Action c.State A

  -- An error of a get, joined with those before it.
  abbrev pub join_reply {ℓ} : {A : Type ℓ} → Text → Option Error → Result A → Option Error
  join_reply context result (ok a) = result
  join_reply context result (err e) = join_error result (wrapped context e)

  -- What the get of a Service adds to the errors.
  abbrev pub join_service : Text → Option Error → Result Service → Option Error
  join_service project result (err e) = if is_not_found e then result else join_error result e
  join_service project result (ok existing) =
      if not (is_owned project existing)
      then join_error result
          (message (codes "Service already exists and is not owned by Compose project"))
      else result

  -- The three loops of preflight.
  unfoldable pub check_secrets : List Text → Option Error → Step (Option Error)
  check_secrets [] result = return result
  check_secrets (secret ∷ secrets) result = do
    reply ← attempt ((c.secrets namespace).get secret)
    check_secrets secrets (join_reply (codes "required Kubernetes Secret") result reply)

  unfoldable pub check_volumes : List VolumePlan → Option Error → Step (Option Error)
  check_volumes [] result = return result
  check_volumes (volume ∷ volumes) result = elim volume.external [
    | false ↦ check_volumes volumes result
    | true ↦ (do
      reply ← attempt ((c.claims namespace).get volume.claim_name)
      check_volumes volumes (join_reply (codes "external volume requires PVC") result reply))
  ]

  unfoldable pub check_services : Text → List ServicePlan → Option Error → Step (Option Error)
  check_services project [] result = return result
  check_services project (service ∷ services) result = do
    reply ← attempt ((c.services namespace).get service.service.name)
    check_services project services (join_service project result reply)

  unfoldable pub preflight : Plan → Step (Unit {0})
  preflight plan = do
    result1 ← check_secrets plan.secrets none
    result2 ← check_volumes plan.volumes result1
    result3 ← check_services plan.name plan.services result2
    lift (reply_of result3)

  abbrev pub claim_for : Text → VolumePlan → Claim
  claim_for project volume = record {
    name = volume.claim_name;
    namespace = namespace;
    labels = object_labels project;
    access_modes = codes "ReadWriteOnce" ∷ [];
    storage = codes "1Gi";
  }

  abbrev ignore_existing {ℓ} : {A : Type ℓ} → Result A → Step (Unit {0})
  ignore_existing (ok a) = return tt
  ignore_existing (err e) =
      if is_already_exists e then return tt else raise (wrapped (codes "create volume") e)

  unfoldable pub create_volumes : Text → List VolumePlan → Step (Unit {0})
  create_volumes project [] = return tt
  create_volumes project (volume ∷ volumes) = elim volume.external [
    | true ↦ create_volumes project volumes
    | false ↦ (do
      reply ← attempt ((c.claims namespace).create (claim_for project volume))
      ignore_existing reply
      create_volumes project volumes)
  ]

  -- applyConfigMap, behind the get.
  unfoldable pub update_config_map : ConfigMap → Result ConfigMap → Step (Unit {0})
  update_config_map desired (err e) =
      if is_not_found e
      then (do (c.config_maps desired.namespace).create desired; return tt)
      else raise e
  update_config_map desired (ok existing) =
      if not (text_at project_label existing.labels == text_at project_label desired.labels)
      then raise (message (codes "ConfigMap is owned by another project"))
      else do
        (c.config_maps desired.namespace).update
            (record existing { labels = desired.labels; contents = desired.contents })
        return tt

  unfoldable pub apply_config_map : ConfigMap → Step (Unit {0})
  apply_config_map desired = do
    existing ← attempt ((c.config_maps desired.namespace).get desired.name)
    update_config_map desired existing

  -- applyService, behind the get.
  unfoldable pub update_service : Service → Result Service → Step (Unit {0})
  update_service desired (err e) =
      if is_not_found e
      then (do (c.services desired.namespace).create desired; return tt)
      else raise e
  update_service desired (ok existing) = do
    (c.services desired.namespace).update (record desired {
      resource_version = existing.resource_version;
      cluster_ip = existing.cluster_ip;
      settings = existing.settings;
    })
    return tt

  unfoldable pub apply_service : Service → Step (Unit {0})
  apply_service desired = do
    existing ← attempt ((c.services desired.namespace).get desired.name)
    update_service desired existing

  -- The deletions of removeStale among what a list gave.
  unfoldable pub delete_unwanted :
      (Text → Step (Unit {0})) → List Text → List Text → Step (Unit {0})
  delete_unwanted delete wanted [] = return tt
  delete_unwanted delete wanted (name ∷ names) = elim (is_one_of name wanted) [
    | true ↦ delete_unwanted delete wanted names
    | false ↦ (do delete name; delete_unwanted delete wanted names)
  ]

  unfoldable pub remove_stale : Plan → Step (Unit {0})
  remove_stale plan = do
    containers ← (c.containers namespace).list project_label plan.name
    delete_unwanted (λ n. (c.containers namespace).delete n none)
        (map (λ (s : ServicePlan). s.container_name) plan.services)
        (map (λ (o : DockerContainer). o.name) containers)
    services ← (c.services namespace).list project_label plan.name
    delete_unwanted (λ n. (c.services namespace).delete n none)
        (map (λ (s : ServicePlan). s.service.name) plan.services)
        (map (λ (o : Service). o.name) services)
    configs ← (c.config_maps namespace).list project_label plan.name
    delete_unwanted (λ n. (c.config_maps namespace).delete n none)
        (map (λ (f : ConfigPlan). f.config_map.name) plan.configs)
        (map (λ (o : ConfigMap). o.name) configs)

  unfoldable pub apply_configs : List ConfigPlan → Step (Unit {0})
  apply_configs [] = return tt
  apply_configs (config ∷ configs) = do
    wrap (codes "apply config") (apply_config_map config.config_map)
    apply_configs configs

  -- `retry` is retry.RetryOnConflict with its default back-off.
  module _ (p : Platform) (retry : Step (Unit {0}) → Step (Unit {0})) where
    abbrev belongs : ContainerSpec → DockerContainer → Bool
    belongs spec existing =
        text_at project_label existing.labels == text_at project_label spec.labels

    abbrev another_project : Error
    another_project = message (codes "DockerContainer is owned by another project")

    -- One attempt to update a container, behind its get.
    unfoldable pub replace_container : ContainerSpec → DockerContainer → Step (Unit {0})
    replace_container desired current =
        if not (belongs desired current) then raise another_project else do
          (c.containers namespace).update (
              set_spec p.codecs
                (record current {
                  labels =
                      merge (merge current.labels ((managed_by_label, managed_by_value) ∷ []))
                        desired.labels;
                })
                desired)
          return tt

    unfoldable pub update_container : Text → ContainerSpec → Step (Unit {0})
    update_container name desired = do
      current ← (c.containers namespace).get name
      replace_container desired current

    -- applyContainer, behind the first get.
    unfoldable pub write_container : Text → ContainerSpec → Result DockerContainer → Step (Unit {0})
    write_container name spec (err e) =
        if is_not_found e
        then (do
          (c.containers namespace).create (new_container (spec_map p.codecs) name namespace spec)
          return tt)
        else raise e
    write_container name spec (ok existing) =
        if not (belongs spec existing)
        then raise another_project
        else retry (update_container name spec)

    unfoldable pub apply_container : Text → ContainerSpec → Step (Unit {0})
    apply_container name spec = do
      existing ← attempt ((c.containers namespace).get name)
      write_container name spec existing

    unfoldable pub apply_services : List ServicePlan → Step (Unit {0})
    apply_services [] = return tt
    apply_services (service ∷ services) = do
      wrap (codes "apply service workload") (apply_container service.container_name service.spec)
      wrap (codes "apply service DNS") (apply_service service.service)
      apply_services services

    unfoldable pub apply : Plan → Step (Unit {0})
    apply plan = do
      preflight plan
      create_volumes plan.name plan.volumes
      apply_configs plan.configs
      apply_services plan.services
      remove_stale plan
