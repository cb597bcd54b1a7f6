-- ===== src/Controller/Converge.antt =====
-- Where repeated passes of the controller lead on a cluster with no other writer: to one current Pod
-- for a container that is to run, to none for one that is to be stopped.
use docker_in_k8s.Common.{
  ◌≡◌, refl, sym, ◌∙◌, ◌≢◌, ◌⊎◌, subst, List, [], ◌∷◌, inl, inr, true, false, Option, none, some,
  if◌then◌else◌, Bool-cases,
}
use mathlib.Core.Option.{some-injective}
use docker_in_k8s.Text.{Text, codes, ◌==◌, eq_refl, eq_iff, ne_of_eq-false, is_one_of}
use docker_in_k8s.Dicts.{text_at}
use docker_in_k8s.Result.{ok}
use docker_in_k8s.Api.Types.{ContainerSpec, Container, Pod, finalizer, config_hash_anno}
use docker_in_k8s.Api.Platform.{Platform}
use docker_in_k8s.Api.Container.{DockerContainer}
use docker_in_k8s.Api.Spec.{spec}
use docker_in_k8s.Api.Ids.{pod_name}
use docker_in_k8s.Api.Pod.{pod_for, spec_hash}
use docker_in_k8s.Api.Pod.Laws.{pod_for-hash}
use docker_in_k8s.Api.Json.{Json}
use docker_in_k8s.Api.Status.{status_map, phase_map}
use docker_in_k8s.Cluster.{Cluster, found}
use docker_in_k8s.Cluster.Calls.{attempt, ◌>>=◌, ◌>>◌}
use docker_in_k8s.Controller.Quiet.{SameContainers, SamePod, RunsIn, Runs, IsQuiet}
use docker_in_k8s.Controller.{
  pods_of, pod_name_of, update_phase, update_status, stop_pod, run_pod, reconcile_spec, reconcile,
}

module _ (c : Cluster) (p : Platform) (pod_at : c.State → Text → Text → Option Pod)
    (q : IsQuiet c pod_at) where
  abbrev pub PodsKept : c.State → c.State → Type 0
  PodsKept s s' = (m n : Text) → pod_at s' m n ≡ pod_at s m n

  update_phase_lem :
      (obj : DockerContainer) (phase : Text) (s : c.State)
      → (s' : c.State) × (update_phase c p obj phase s ≡ (ok tt, s')) × PodsKept s s'
  unfolding update_phase
  update_phase_lem obj phase s =
      let (o', s', e, kept) =
        q.status s obj.namespace (record obj { status = phase_map p.sha obj phase }) in
      (s', rw e, kept)

  update_status_lem :
      (obj : DockerContainer) (pod : Pod) (s : c.State)
      → (s' : c.State) × (update_status c p obj pod s ≡ (ok tt, s')) × PodsKept s s'
  unfolding update_status
  update_status_lem obj pod s =
      let (o', s', e, kept) =
        q.status s obj.namespace (record obj { status = status_map p.sha obj pod }) in
      (s', rw e, kept)

  module _ (obj : DockerContainer) where
    abbrev stored : c.State → Option Pod
    stored s = pod_at s obj.namespace (pod_name_of c p obj)

    abbrev HasHash : ContainerSpec → Pod → Type 0
    HasHash sp pod = text_at config_hash_anno pod.annotations ≡ spec_hash p sp

    -- The Pod of the container is there with the hash of this spec.
    abbrev IsCurrent : ContainerSpec → c.State → Type 0
    IsCurrent sp s = (pod : Pod) × (stored s ≡ some pod) × HasHash sp pod

    -- Such a Pod is there behind some passes, and was there before them or runs this spec.
    abbrev pub BecameCurrent : ContainerSpec → c.State → c.State → Type 0
    BecameCurrent sp s s' =
        (pod : Pod) × (stored s' ≡ some pod)
        × HasHash sp pod
        × ((stored s ≡ some pod) ⊎ Runs sp pod)

    current : (sp : ContainerSpec) (s s' : c.State) → BecameCurrent sp s s' → IsCurrent sp s'
    current sp s s' (pod, there, same, origin) = (pod, there, same)

    -- A deletion followed by an update of the phase leaves no Pod.
    delete-update_phase :
        (phase : Text) (s : c.State) (pod : Pod)
        → stored s ≡ some pod
        → (s' : c.State) × ((do
          (pods_of c p obj).delete (pod_name_of c p obj) none
          update_phase c p obj phase)
              s
            ≡ (ok tt, s'))
          × (stored s' ≡ none)
    delete-update_phase phase s pod e =
        let (s1, deleted, at) =
          (q.pods obj.namespace).delete_lem s (pod_name_of c p obj) none pod e in
        let (s2, updated, kept) = update_phase_lem obj phase s1 in
        (s2, rw deleted updated, kept _ _ ∙ at _ ∙ rw (eq_refl (pod_name_of c p obj)))

    created :
        (sp : ContainerSpec) (pod : Pod)
        → SamePod (pod_for p obj sp) pod
        → text_at config_hash_anno pod.annotations ≡ spec_hash p sp
    created sp pod same = rw same.0 (pod_for-hash p obj sp)

    created-Runs :
        (sp : ContainerSpec) (containers : List Container)
        → SameContainers (pod_for p obj sp).spec.containers containers
        → RunsIn sp containers
    unfolding pod_for
    created-Runs sp [] h = absurd h
    created-Runs sp (main ∷ []) (h, rest) =
        (h.image, h.command, h.args, h.stdin, h.tty, h.env, h.working_dir, h.ports)
    created-Runs sp (main ∷ next ∷ more) (h, rest) = absurd rest

    create_pod :
        (sp : ContainerSpec) (s : c.State)
        → stored s ≡ none
        → (s' : c.State) × ((do
          pod ← (pods_of c p obj).create (pod_for p obj sp)
          update_status c p obj pod)
              s
            ≡ (ok tt, s'))
          × BecameCurrent sp s s'
    unfolding pod_for pod_name
    create_pod sp s e =
        let (pod, s1, made, same, at) =
          (q.pods obj.namespace).create_lem s (pod_for p obj sp) (named e) in
        let (s2, updated, kept) = update_status_lem obj pod s1 in
        (
          s2,
          rw made updated,
          (
            pod,
            kept _ _ ∙ at _ ∙ named_if pod s,
            created sp pod same,
            inr (created-Runs sp pod.spec.containers same.2),
          ),
        )
      where
        named : stored s ≡ none → pod_at s obj.namespace (pod_for p obj sp).name ≡ none
        named e = e

        named_if :
            (pod : Pod) (s : c.State)
            → (if pod_name_of c p obj == (pod_for p obj sp).name then some pod else stored s)
              ≡ some pod
        named_if pod s = rw (eq_refl (pod_name_of c p obj))

    module _ (sp : ContainerSpec) where
      -- What a pass over a container that is to run leaves: a current Pod, or none where there was an
      -- outdated one.
      abbrev Passed : c.State → c.State → Type 0
      Passed s s' =
          BecameCurrent sp s s' ⊎ ((stored s' ≡ none) × (stored s ≢ none) × ¬ IsCurrent sp s)

      not-IsCurrent :
          (s : c.State) (pod : Pod)
          → stored s ≡ some pod
          → (text_at config_hash_anno pod.annotations == spec_hash p sp) ≡ false
          → ¬ IsCurrent sp s
      not-IsCurrent s pod e differ (pod', e', same) =
          ne_of_eq-false _ _ differ (rw (some-injective pod pod' (sym e ∙ e')) same)

      keep_pod :
          (s : c.State) (pod : Pod)
          → stored s ≡ some pod
          → (s' : c.State) × (run_pod c p obj sp (ok pod) s ≡ (ok tt, s')) × Passed s s'
      unfolding run_pod
      keep_pod s pod e =
          elim (Bool-cases (text_at config_hash_anno pod.annotations == spec_hash p sp)) [
            | inl same ↦
                let (s', updated, kept) = update_status_lem obj pod s in
                (s', rw same updated, inl (pod, kept _ _ ∙ e, (eq_iff _ _).0 same, inl e))
            | inr differ ↦
                let (s', done, gone) = delete-update_phase (codes "Updating") s pod e in
                (s', rw differ done, inr (gone, (λ h. cc), not-IsCurrent s pod e differ))
          ]

      run_pod_of :
          (s : c.State) (o : Option Pod)
          → stored s ≡ o
          → (s' : c.State) × (run_pod c p obj sp (found o) s ≡ (ok tt, s')) × Passed s s'
      run_pod_of s none e =
          let (s', done, current) = create_pod sp s e in (s', unfold run_pod in done, inl current)
      run_pod_of s (some pod) e = keep_pod s pod e

      reconcile_spec-eq-run_pod :
          (s : c.State)
          → (sp.desired_state == codes "Running") ≡ true
          → reconcile_spec c p obj sp s ≡ run_pod c p obj sp (found (stored s)) s
      unfolding reconcile_spec
      reconcile_spec-eq-run_pod s running =
          let got = (q.pods obj.namespace).get_lem s (pod_name_of c p obj) in
          rw running (rw got (rw (got, attempt)))

      passes :
          (s : c.State)
          → (sp.desired_state == codes "Running") ≡ true
          → (s' : c.State) × (reconcile_spec c p obj sp s ≡ (ok tt, s')) × Passed s s'
      passes s running =
          let (s', done, passed) = run_pod_of s (stored s) refl in
          (s', reconcile_spec-eq-run_pod s running ∙ done, passed)

      -- Where a Pod that is there behind two passes comes from.
      origin :
          (s s1 : c.State) (pod' : Pod)
          → (stored s1 ≡ some pod') ⊎ Runs sp pod'
          → BecameCurrent sp s s1
          → (stored s ≡ some pod') ⊎ Runs sp pod'
      origin s s1 pod' (inr runs) became = inr runs
      origin s s1 pod' (inl there') (pod, there, same, from) =
          subst (λ x. (stored s ≡ some x) ⊎ Runs sp x)
            (some-injective pod pod' (sym there ∙ there')) from

      new_one :
          (s1 : c.State) (pod' : Pod)
          → stored s1 ≡ none
          → (stored s1 ≡ some pod') ⊎ Runs sp pod'
          → Runs sp pod'
      new_one s1 pod' gone (inl there) = cc
      new_one s1 pod' gone (inr runs) = runs

      Passed-twice : (s s1 s2 : c.State) → Passed s s1 → Passed s1 s2 → BecameCurrent sp s s2
      Passed-twice s s1 s2 (inl became) (inl (pod, there, same, from)) =
          (pod, there, same, origin s s1 pod from became)
      Passed-twice s s1 s2 (inl became) (inr (gone, had, outdated)) =
          absurd (outdated (current sp s s1 became))
      Passed-twice s s1 s2 (inr (gone, had, outdated)) (inl (pod, there, same, from)) =
          (pod, there, same, inr (new_one s1 pod gone from))
      Passed-twice s s1 s2 (inr (gone, had, outdated)) (inr (gone', had', outdated')) =
          absurd (had' gone)

      stop_pod_of :
          (s : c.State) (o : Option Pod)
          → stored s ≡ o
          → (s' : c.State) × (stop_pod c p obj (found o) s ≡ (ok tt, s')) × (stored s' ≡ none)
      unfolding stop_pod
      stop_pod_of s none e =
          let (s', done, kept) = update_phase_lem obj (codes "Stopped") s in
          (s', done, kept _ _ ∙ e)
      stop_pod_of s (some pod) e = delete-update_phase (codes "Stopping") s pod e

      reconcile_spec-eq-stop_pod :
          (s : c.State)
          → (sp.desired_state == codes "Running") ≡ false
          → reconcile_spec c p obj sp s ≡ stop_pod c p obj (found (stored s)) s
      unfolding reconcile_spec
      reconcile_spec-eq-stop_pod s stopped =
          let got = (q.pods obj.namespace).get_lem s (pod_name_of c p obj) in
          rw stopped (rw got (rw (got, attempt)))

      -- One pass over a container that is to be stopped leaves it without a Pod.
      once_stopped :
          (s : c.State)
          → (sp.desired_state == codes "Running") ≡ false
          → (s' : c.State) × (reconcile_spec c p obj sp s ≡ (ok tt, s')) × (stored s' ≡ none)
      once_stopped s stopped =
          let (s', done, gone) = stop_pod_of s (stored s) refl in
          (s', reconcile_spec-eq-stop_pod s stopped ∙ done, gone)

  reconcile-eq-reconcile_spec :
      (obj : DockerContainer) (sp : ContainerSpec) (s : c.State)
      → obj.deleting ≡ false
      → is_one_of finalizer obj.finalizers ≡ true
      → spec p.codecs obj ≡ ok sp
      → reconcile c p obj s ≡ reconcile_spec c p obj sp s
  unfolding reconcile
  reconcile-eq-reconcile_spec obj sp s alive held readable = simp (alive, held, readable)

  module _ (obj : DockerContainer) (held : is_one_of finalizer obj.finalizers ≡ true) where
    -- What a later pass reads of the container: only its status and resource version have changed.
    abbrev pub later : (Text → Option Json) → Text → DockerContainer
    later status version = record obj { status = status; resource_version = version }

    -- On a quiet cluster, two passes over a container that holds the finalizer, is not deleted
    -- and is to run end without an error and leave a Pod that carries the hash of its spec; it is
    -- the one that was there before them, or its one container has the image, command, arguments,
    -- standard input, terminal, environment, working directory and port numbers of the spec.
    pub reconcile_running :
        (sp : ContainerSpec) (status : Text → Option Json) (version : Text) (s : c.State)
        → obj.deleting ≡ false
        → spec p.codecs obj ≡ ok sp
        → (sp.desired_state == codes "Running") ≡ true
        → (s' : c.State) × ((do reconcile c p obj; reconcile c p (later status version)) s
            ≡ (ok tt, s'))
          × BecameCurrent obj sp s s'
    unfolding spec
    reconcile_running sp status version s alive readable running =
        let (s1, first, passed) = passes obj sp s running in
        let (s2, second, passed') = passes (later status version) sp s1 running in
        (
          s2,
          rw (reconcile-eq-reconcile_spec obj sp s alive held readable ∙ first) (
              reconcile-eq-reconcile_spec (later status version) sp s1 alive held readable
              ∙ second),
          Passed-twice obj sp s s1 s2 passed passed',
        )

    -- On a quiet cluster, one pass over a container that holds the finalizer, is not deleted and
    -- is to be in another state than running ends without an error and leaves it without a Pod.
    pub reconcile_stopped :
        (sp : ContainerSpec) (s : c.State)
        → obj.deleting ≡ false
        → spec p.codecs obj ≡ ok sp
        → (sp.desired_state == codes "Running") ≡ false
        → (s' : c.State) × (reconcile c p obj s ≡ (ok tt, s')) × (stored obj s' ≡ none)
    reconcile_stopped sp s alive readable stopped =
        let (s', done, gone) = once_stopped obj sp s stopped in
        (s', reconcile-eq-reconcile_spec obj sp s alive held readable ∙ done, gone)
