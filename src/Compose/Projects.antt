-- ===== src/Compose/Projects.antt =====
-- internal/compose/apply.go: List, SetState and Down, by which a project is listed, stopped, started and
-- removed.
pub mod Removal
use docker_in_k8s.Common.{
  ℕ, zero, suc, Bool, true, false, not, ◌&&◌, ◌||◌, Option, none, some, List, [], ◌∷◌, ◌++◌, map,
  if◌then◌else◌, is_nil,
}
use docker_in_k8s.Text.{Text, codes, ◌==◌, is_one_of, text_lt}
use docker_in_k8s.Dicts.{Dict, merge, text_at}
use docker_in_k8s.Result.{
  Result, ok, err, Error, message, wrapped, is_not_found, is_already_exists, join_error, reply_of,
}
use docker_in_k8s.Api.Types.{
  ContainerSpec, managed_by_label, managed_by_value, project_label, service_label,
}
use docker_in_k8s.Api.Platform.{Platform}
use docker_in_k8s.Api.Container.{DockerContainer, new_container}
use docker_in_k8s.Api.Spec.{spec_map, spec, set_spec}
use docker_in_k8s.Cluster.{Cluster, Resource, Service, ConfigMap, Claim}
use docker_in_k8s.Cluster.Calls.{Action, return, raise, lift, attempt, wrap, ◌>>=◌, ◌>>◌}
use docker_in_k8s.Compose.Plan.{ServicePlan, VolumePlan, ConfigPlan, Plan, object_labels}

module _ {S : Type 0} where
  -- A deletion of Down, behind its call: what is gone already is no error.
  abbrev ignore_missing : Result (Unit {0}) → Action S (Unit {0})
  ignore_missing (ok tt) = return tt
  ignore_missing (err e) = if is_not_found e then return tt else raise e

  unfoldable pub delete_all : (Text → Action S (Unit {0})) → List Text → Action S (Unit {0})
  delete_all delete [] = return tt
  delete_all delete (name ∷ names) = do
    reply ← attempt (delete name)
    ignore_missing reply
    delete_all delete names

  -- The loop that waits, with the number of lists before the deadline.
  unfoldable pub await_removal :
      ℕ → Action S (List DockerContainer) → List DockerContainer → Action S (Unit {0})
  await_removal polls list [] = return tt
  await_removal zero list (o ∷ rest) =
      raise (message (codes "timed out removing Compose project workloads"))
  await_removal (suc polls) list (o ∷ rest) = do items ← list; await_removal polls list items

module _ (c : Cluster) (namespace : Text) where
  abbrev Step : Type 0 → Type 0
  Step A = Action c.State A

  -- List: the containers of a project by the name of their service. sort.Slice leaves the order of
  -- those with one service open, and here they stay in the order of the list.
  unfoldable pub insert_container : DockerContainer → List DockerContainer → List DockerContainer
  insert_container o [] = o ∷ []
  insert_container o (first ∷ rest) =
      let later = insert_container o rest in
      if text_lt (text_at service_label first.labels) (text_at service_label o.labels)
      then first ∷ later
      else o ∷ first ∷ rest

  unfoldable pub sort_containers : List DockerContainer → List DockerContainer
  sort_containers [] = []
  sort_containers (o ∷ rest) = insert_container o (sort_containers rest)

  unfoldable pub list_project : Text → Step (List DockerContainer)
  list_project project = do
    items ← (c.containers namespace).list project_label project
    return (sort_containers items)

  -- The loop of SetState.
  unfoldable pub set_states : Platform → Text → List DockerContainer → Step (Unit {0})
  set_states p state [] = return tt
  set_states p state (item ∷ items) = do
    current ← lift (spec p.codecs item)
    (c.containers namespace).update
        (set_spec p.codecs item (record current { desired_state = state }))
    set_states p state items

  unfoldable pub set_state : Platform → Text → Text → Step (Unit {0})
  set_state p project state = do
    items ← list_project project
    elim items [
      | [] ↦ raise (message (codes "Compose project has no workloads"))
      | item ∷ rest ↦ set_states p state (item ∷ rest)
    ]

  unfoldable pub delete_claims : Text → Bool → Step (Unit {0})
  delete_claims project false = return tt
  delete_claims project true = do
    claims ← (c.claims namespace).list project_label project
    delete_all (λ n. (c.claims namespace).delete n none) (map (λ (o : Claim). o.name) claims)

  unfoldable pub down : ℕ → Text → Bool → Step (Unit {0})
  down polls project volumes = do
    items ← (c.containers namespace).list project_label project
    delete_all (λ n. (c.containers namespace).delete n none)
        (map (λ (o : DockerContainer). o.name) items)
    services ← (c.services namespace).list project_label project
    delete_all (λ n. (c.services namespace).delete n none) (map (λ (o : Service). o.name) services)
    configs ← (c.config_maps namespace).list project_label project
    delete_all (λ n. (c.config_maps namespace).delete n none)
        (map (λ (o : ConfigMap). o.name) configs)
    delete_claims project volumes
    await_removal polls ((c.containers namespace).list project_label project) items
