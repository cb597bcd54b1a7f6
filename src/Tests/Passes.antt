-- ===== src/Tests/Passes.antt =====
-- Passes of the controller over a web server.
use docker_in_k8s.Common.{◌≡◌, ◌≢◌, refl, sym, ap, Option, List, true, none, some, [], ◌∷◌}
use docker_in_k8s.Text.{Text, codes, ◌==◌, eq_refl, is_one_of}
use docker_in_k8s.Result.{Result, ok, err, Error, message}
use docker_in_k8s.Api.Types.{ContainerSpec, Pod, finalizer}
use docker_in_k8s.Api.Container.{DockerContainer}
use docker_in_k8s.Api.Spec.{spec, set_spec}
use docker_in_k8s.Api.Pod.{pod_for}
use docker_in_k8s.Cluster.Calls.{◌>>◌}
use docker_in_k8s.Controller.{reconcile, reconcile_all, pod_name_of}
use docker_in_k8s.Controller.Laws.{reconcile_all_lem, after_each, errors_in, failures}
use docker_in_k8s.Controller.Converge.{later, BecameCurrent, reconcile_running, reconcile_stopped}
use docker_in_k8s.Controller.Quiet.{IsQuiet, IsHeld}
use docker_in_k8s.Controller.Deletion.{
  Finalized, IsReleased, reconcile_deleted, reconcile_deleted_twice,
}
use docker_in_k8s.Cluster.{Cluster, Resource, found}
use docker_in_k8s.Controller.Loop.{run, passes, run-passes}
use docker_in_k8s.Tests.Fleet.{fleet}
use docker_in_k8s.Tests.Concrete.{platform, codecs, spec-set_spec-web, web, web_spec}
use docker_in_k8s.Tests.Memory.{memory, Pods, put, fixed, pod_at, no_pods, alike, memory-IsQuiet}

web_held : is_one_of finalizer web.finalizers ≡ true
unfolding is_one_of ◌==◌
web_held = refl

web_readable : spec platform.codecs web ≡ ok web_spec
unfolding set_spec
web_readable = spec-set_spec-web web (codes "Running") refl

-- Two passes over a web server that has no Pod yet.
reconcile_running_example :
    (s' : Pods) × ((do
      reconcile memory platform web
      reconcile memory platform
          (later memory platform pod_at memory-IsQuiet web web_held (λ k. none) (codes "8")))
        no_pods
      ≡ (ok tt, s'))
    × BecameCurrent memory platform pod_at memory-IsQuiet web web_spec no_pods s'
reconcile_running_example =
    reconcile_running memory platform pod_at memory-IsQuiet web web_held web_spec (λ k. none)
      (codes "8") no_pods refl web_readable (eq_refl (codes "Running"))

-- The Pods of a cluster in which the web server runs.
abbrev running : Pods
running =
    put no_pods (codes "default") (pod_name_of memory platform web)
      (some (pod_for platform web web_spec))

running_lem :
    pod_at running (codes "default") (pod_name_of memory platform web)
    ≡ some (pod_for platform web web_spec)
running_lem = rw (eq_refl (codes "default"), eq_refl (pod_name_of memory platform web)) refl

abbrev stopped_spec : ContainerSpec
stopped_spec = record web_spec { desired_state = codes "Stopped" }

abbrev stopped_web : DockerContainer
stopped_web = set_spec codecs web stopped_spec

stopped_held : is_one_of finalizer stopped_web.finalizers ≡ true
unfolding is_one_of ◌==◌ set_spec
stopped_held = refl

stopped_readable : spec platform.codecs stopped_web ≡ ok stopped_spec
stopped_readable = spec-set_spec-web web (codes "Stopped") refl

reconcile_stopped_example :
    (s' : Pods) × (reconcile memory platform stopped_web running ≡ (ok tt, s'))
    × (pod_at s' stopped_web.namespace (pod_name_of memory platform stopped_web) ≡ none)
unfolding set_spec ◌==◌
reconcile_stopped_example =
    reconcile_stopped memory platform pod_at memory-IsQuiet stopped_web stopped_held stopped_spec
      running refl stopped_readable refl

abbrev deleted_web : DockerContainer
deleted_web = record web { deleting = true }

-- A cluster that also has the finalizers of the one container that is there.
abbrev Holding : Type 0
Holding = Pods × List Text

abbrev holding_pods : Text → Resource Holding Pod
holding_pods ns = record {
  get = λ n s. (found (s.0 ns n), s);
  list = λ k v s. (ok [], s);
  create = λ o s. (ok o, (put s.0 ns o.name (some o), s.1));
  update = λ o s. (ok o, (put s.0 ns o.name (some o), s.1));
  delete = λ n grace s. (ok tt, (put s.0 ns n none, s.1));
}

abbrev holding_containers : Resource Holding DockerContainer
holding_containers = record {
  get = λ n s. (found none, s);
  list = λ k v s. (ok [], s);
  create = λ o s. (ok o, (s.0, o.finalizers));
  update = λ o s. (ok o, (s.0, o.finalizers));
  delete = λ n grace s. (ok tt, s);
}

abbrev holding : Cluster
holding = record {
  State = Holding;
  containers = λ ns. holding_containers;
  update_status = λ ns o s. (ok o, s);
  pods = holding_pods;
  services = λ ns. fixed (λ n. none);
  config_maps = λ ns. fixed (λ n. none);
  claims = λ ns. fixed (λ n. none);
  secrets = λ ns. fixed (λ n. none);
}

abbrev held_pod : Holding → Text → Text → Option Pod
held_pod s = s.0

abbrev held_finalizers : Holding → Text → Text → List Text
held_finalizers s ns n = s.1

holding-IsQuiet : IsQuiet holding held_pod
holding-IsQuiet = record {
  pods = λ ns. record {
    get_lem = λ s n. refl;
    create_lem = λ s o free. (
      o,
      (put s.0 ns o.name (some o), s.1),
      refl,
      (refl, refl, alike o.spec.containers),
      λ n. rw (eq_refl ns) refl,
    );
    delete_lem = λ s n grace o there. ((put s.0 ns n none, s.1), refl, λ m. rw (eq_refl ns) refl);
  };
  status = λ s ns o. (o, s, refl, λ m n. refl);
}

holding-IsHeld : IsHeld holding held_finalizers
holding-IsHeld = record {
  update = λ s o. (o, (s.0, o.finalizers), refl, refl);
  delete = λ s s' ns n grace h m k. sym (ap (λ (x : Result (Unit {0}) × Holding). x.1.1) h);
}

abbrev deleted_running : Holding
deleted_running = (running, deleted_web.finalizers)

reconcile_deleted_example :
    (s' : Holding) × (reconcile holding platform deleted_web deleted_running ≡ (ok tt, s'))
    × Finalized holding platform held_pod holding-IsQuiet held_finalizers holding-IsHeld deleted_web
        deleted_running s'
reconcile_deleted_example =
    reconcile_deleted holding platform held_pod holding-IsQuiet held_finalizers holding-IsHeld
      deleted_web web_held deleted_running refl

reconcile_deleted_twice_example :
    (s1 s2 : Holding) × (reconcile holding platform deleted_web deleted_running ≡ (ok tt, s1))
    × (held_pod s1 (codes "default") (pod_name_of holding platform deleted_web) ≡ none)
    × (s1.1 ≡ deleted_web.finalizers)
    × (reconcile holding platform (record deleted_web { resource_version = codes "9" }) s1
        ≡ (ok tt, s2))
    × IsReleased holding platform held_pod holding-IsQuiet held_finalizers holding-IsHeld
        deleted_web s2
reconcile_deleted_twice_example =
    reconcile_deleted_twice holding platform held_pod holding-IsQuiet held_finalizers holding-IsHeld
      deleted_web web_held deleted_web.status (codes "9") deleted_running refl there
  where
    there :
        held_pod deleted_running (codes "default") (pod_name_of holding platform deleted_web) ≢ none
    there h = cc running_lem

-- A cluster whose two containers have no image, so that their passes fail.
abbrev unreadable : DockerContainer
unreadable = record web { spec = λ k. none }

abbrev broken : Cluster
broken = record memory {
  containers =
      λ ns. record (fixed (λ n. none)) { list = λ k v s. (ok (unreadable ∷ unreadable ∷ []), s) };
}

reconcile_all_lem_example :
    ((reconcile_all broken platform (codes "default") no_pods).1
      ≡ after_each broken platform (unreadable ∷ unreadable ∷ []) no_pods)
    × (errors_in (reconcile_all broken platform (codes "default") no_pods).0
        ≡ failures broken platform (unreadable ∷ unreadable ∷ []) no_pods)
reconcile_all_lem_example =
    reconcile_all_lem broken platform (codes "default") (unreadable ∷ unreadable ∷ []) no_pods
      no_pods refl

abbrev canceled : Error
canceled = message (codes "context canceled")

run-passes_example :
    ((run fleet platform (codes "default") 2 canceled (some web, [])).0 ≡ err canceled)
    × ((run fleet platform (codes "default") 2 canceled (some web, [])).1.0
        ≡ passes fleet platform (codes "default") 3 (some web))
run-passes_example = run-passes fleet platform (codes "default") 2 canceled (some web) []
