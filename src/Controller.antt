-- ===== src/Controller.antt =====
-- internal/controller/reconciler.go: one pass of the controller over a container, and over all.
pub mod Laws
pub mod Quiet
pub mod Converge
pub mod Deletion
pub mod Loop
use docker_in_k8s.Common.{
  ℕ, Bool, true, false, not, Option, none, some, List, [], ◌∷◌, ◌++◌, if◌then◌else◌,
}
use docker_in_k8s.Text.{Text, codes, ◌==◌, is_one_of}
use docker_in_k8s.Dicts.{text_at}
use docker_in_k8s.Result.{Result, ok, err, Error, wrapped, is_not_found, join_error, reply_of}
use docker_in_k8s.Api.Types.{
  ContainerSpec, Pod, finalizer, config_hash_anno, managed_by_label, managed_by_value,
}
use docker_in_k8s.Api.Ids.{pod_name}
use docker_in_k8s.Api.Platform.{Platform}
use docker_in_k8s.Api.Container.{DockerContainer}
use docker_in_k8s.Api.Spec.{spec}
use docker_in_k8s.Api.Pod.{pod_for, spec_hash}
use docker_in_k8s.Api.Status.{status_map, phase_map}
use docker_in_k8s.Cluster.{Cluster, Resource}
use docker_in_k8s.Cluster.Calls.{Action, return, raise, lift, attempt, ◌>>=◌, ◌>>◌}

-- The loop of finalize over the finalizers.
unfoldable pub other_finalizers : List Text → List Text
other_finalizers [] = []
other_finalizers (f ∷ fs) =
    let rest = other_finalizers fs in if f == finalizer then rest else f ∷ rest

module _ (c : Cluster) (p : Platform) where
  abbrev Step : Type 0 → Type 0
  Step A = Action c.State A

  abbrev pub pods_of : DockerContainer → Resource c.State Pod
  pods_of obj = c.pods obj.namespace

  abbrev pub pod_name_of : DockerContainer → Text
  pod_name_of obj = pod_name p.sha obj.name obj.uid

  -- updatePhase, and updateStoppedStatus at "Stopped"
  unfoldable pub update_phase : DockerContainer → Text → Step (Unit {0})
  update_phase obj phase = do
    c.update_status obj.namespace (record obj { status = phase_map p.sha obj phase })
    return tt

  unfoldable pub update_status : DockerContainer → Pod → Step (Unit {0})
  update_status obj pod = do
    c.update_status obj.namespace (record obj { status = status_map p.sha obj pod })
    return tt

  -- finalize, behind the get of the Pod
  unfoldable pub finalize_pod : DockerContainer → Result Pod → Step (Unit {0})
  finalize_pod obj (ok pod) = (pods_of obj).delete (pod_name_of obj) (some 0)
  finalize_pod obj (err e) = if not (is_not_found e) then raise e else do
    (c.containers obj.namespace).update
        (record obj { finalizers = other_finalizers obj.finalizers })
    return tt

  unfoldable pub finalize : DockerContainer → Step (Unit {0})
  finalize obj =
      if not (is_one_of finalizer obj.finalizers)
      then return tt
      else do pod ← attempt ((pods_of obj).get (pod_name_of obj)); finalize_pod obj pod

  -- The branch of a container that is to be stopped, behind the get of its Pod.
  unfoldable pub stop_pod : DockerContainer → Result Pod → Step (Unit {0})
  stop_pod obj (ok pod) = do
    (pods_of obj).delete (pod_name_of obj) none
    update_phase obj (codes "Stopping")
  stop_pod obj (err e) =
      if not (is_not_found e) then raise e else update_phase obj (codes "Stopped")

  -- The branch of a container that is to run, behind the get of its Pod.
  unfoldable pub run_pod : DockerContainer → ContainerSpec → Result Pod → Step (Unit {0})
  run_pod obj sp (err e) =
      if is_not_found e
      then (do pod ← (pods_of obj).create (pod_for p obj sp); update_status obj pod)
      else raise e
  run_pod obj sp (ok pod) =
      if not (text_at config_hash_anno pod.annotations == spec_hash p sp)
      then (do (pods_of obj).delete (pod_name_of obj) none; update_phase obj (codes "Updating"))
      else update_status obj pod

  -- Reconcile, behind the reading of the spec.
  unfoldable pub reconcile_spec : DockerContainer → ContainerSpec → Step (Unit {0})
  reconcile_spec obj sp =
      if not (sp.desired_state == codes "Running")
      then (do pod ← attempt ((pods_of obj).get (pod_name_of obj)); stop_pod obj pod)
      else (do pod ← attempt ((pods_of obj).get (pod_name_of obj)); run_pod obj sp pod)

  unfoldable pub reconcile : DockerContainer → Step (Unit {0})
  reconcile obj =
      if obj.deleting
      then finalize obj
      else if not (is_one_of finalizer obj.finalizers)
      then (do
        (c.containers obj.namespace).update
            (record obj { finalizers = obj.finalizers ++ finalizer ∷ [] })
        return tt)
      else (do sp ← lift (spec p.codecs obj); reconcile_spec obj sp)

  abbrev next_error : Option Error → Text → Result (Unit {0}) → Option Error
  next_error result name (ok _) = result
  next_error result name (err e) = join_error result (wrapped name e)

  -- The loop of ReconcileAll: an error of one container does not keep the others from their pass.
  unfoldable pub reconcile_each : List DockerContainer → Option Error → Step (Unit {0})
  reconcile_each [] result = lift (reply_of result)
  reconcile_each (obj ∷ objs) result = do
    reply ← attempt (reconcile obj)
    reconcile_each objs (next_error result (obj.namespace ++ codes "/" ++ obj.name) reply)

  unfoldable pub reconcile_all : Text → Step (Unit {0})
  reconcile_all namespace = do
    objs ← (c.containers namespace).list managed_by_label managed_by_value
    reconcile_each objs none
