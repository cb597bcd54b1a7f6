-- ===== src/Controller/Deletion.antt =====
-- Passes over a container that is deleted: its Pod goes first, and then the controller's finalizer.
use docker_in_k8s.Common.{
  ◌≡◌, ◌≢◌, ◌∙◌, refl, ◌⊎◌, inl, inr, true, not, ◌&&◌, Option, none, some, List,
}
use docker_in_k8s.Text.{Text, ◌==◌, eq_refl, is_one_of}
use docker_in_k8s.Result.{ok}
use docker_in_k8s.Api.Types.{Pod, finalizer}
use docker_in_k8s.Api.Platform.{Platform}
use docker_in_k8s.Api.Container.{DockerContainer}
use docker_in_k8s.Api.Json.{Json}
use docker_in_k8s.Cluster.{Cluster, found}
use docker_in_k8s.Cluster.Calls.{attempt}
use docker_in_k8s.Controller.{pod_name_of, finalize, finalize_pod, reconcile, other_finalizers}
use docker_in_k8s.Controller.Quiet.{IsQuiet, IsHeld}
use docker_in_k8s.Controller.Laws.{is_one_of-other_finalizers}

module _ (c : Cluster) (p : Platform) (pod_at : c.State → Text → Text → Option Pod)
    (q : IsQuiet c pod_at) (finalizers_at : c.State → Text → Text → List Text)
    (f : IsHeld c finalizers_at) where
  module _ (obj : DockerContainer) where
    abbrev pub pod_of : c.State → Option Pod
    pod_of s = pod_at s obj.namespace (pod_name_of c p obj)

    abbrev pub finalizers_of : c.State → List Text
    finalizers_of s = finalizers_at s obj.namespace obj.name

    -- The container has all of its finalizers but the controller's own.
    abbrev pub IsReleased : c.State → Type 0
    IsReleased s =
        (g : Text)
        → is_one_of g (finalizers_of s) ≡ (is_one_of g obj.finalizers && not (g == finalizer))

    -- What a pass leaves: the finalizers as they were where it found a Pod, and else all but one.
    abbrev pub Finalized : c.State → c.State → Type 0
    Finalized s s' =
        ((pod_of s ≢ none) × (pod_of s' ≡ none) × (finalizers_of s' ≡ finalizers_of s))
        ⊎ ((pod_of s ≡ none) × IsReleased s')

    finalize_pod_of :
        (s : c.State) (o : Option Pod)
        → pod_of s ≡ o
        → (s' : c.State) × (finalize_pod c p obj (found o) s ≡ (ok tt, s')) × Finalized s s'
    unfolding finalize_pod
    finalize_pod_of s none e =
        let (o', s', updated, stored) =
          f.update s (record obj { finalizers = other_finalizers obj.finalizers }) in
        (s', rw updated refl, inr (e, λ g. rw stored (is_one_of-other_finalizers g obj.finalizers)))
    finalize_pod_of s (some pod) e =
        let (s', gone, at) =
          (q.pods obj.namespace).delete_lem s (pod_name_of c p obj) (some 0) pod e in
        (
          s',
          gone,
          inl (
            (λ h. cc),
            at _ ∙ rw (eq_refl (pod_name_of c p obj)),
            f.delete s s' obj.namespace (pod_name_of c p obj) (some 0) gone _ _,
          ),
        )

  module _ (obj : DockerContainer) (held : is_one_of finalizer obj.finalizers ≡ true) where
    reconcile-eq-finalize_pod :
        (s : c.State)
        → obj.deleting ≡ true
        → reconcile c p obj s ≡ finalize_pod c p obj (found (pod_of obj s)) s
    unfolding reconcile finalize
    reconcile-eq-finalize_pod s deleted =
        let got = (q.pods obj.namespace).get_lem s (pod_name_of c p obj) in
        simp (deleted, held) (rw got (rw (got, attempt)))

    -- On a quiet cluster that holds finalizers, a pass over a deleted container with the
    -- controller's finalizer ends without an error; if there was a Pod, it is gone and the
    -- finalizers are as they were, and if there was none, the container has exactly its other
    -- finalizers.
    pub reconcile_deleted :
        (s : c.State)
        → obj.deleting ≡ true
        → (s' : c.State) × (reconcile c p obj s ≡ (ok tt, s')) × Finalized obj s s'
    reconcile_deleted s deleted =
        let (s', done, finalized) = finalize_pod_of obj s (pod_of obj s) refl in
        (s', reconcile-eq-finalize_pod s deleted ∙ done, finalized)

  had_pod :
      (obj : DockerContainer) (s s' : c.State)
      → pod_of obj s ≢ none
      → Finalized obj s s'
      → (pod_of obj s' ≡ none) × (finalizers_of obj s' ≡ finalizers_of obj s)
  had_pod obj s s' had (inl (there, gone, kept)) = (gone, kept)
  had_pod obj s s' had (inr (gone, released)) = absurd (had gone)

  had_none :
      (obj : DockerContainer) (s s' : c.State)
      → pod_of obj s ≡ none
      → Finalized obj s s'
      → IsReleased obj s'
  had_none obj s s' none_left (inl (there, gone, kept)) = absurd (there none_left)
  had_none obj s s' none_left (inr (gone, released)) = released

  module _ (obj : DockerContainer) (held : is_one_of finalizer obj.finalizers ≡ true) where
    -- What the second pass reads of the container: only its status and resource version may differ.
    abbrev pub reread : (Text → Option Json) → Text → DockerContainer
    reread status version = record obj { status = status; resource_version = version }

    -- On a quiet cluster that holds finalizers, two passes over a deleted container with the
    -- controller's finalizer and a Pod end without an error: behind the first the Pod is gone and
    -- the finalizers are as they were, behind the second the container has exactly its other
    -- finalizers.
    pub reconcile_deleted_twice :
        (status : Text → Option Json) (version : Text) (s : c.State)
        → obj.deleting ≡ true
        → pod_of obj s ≢ none
        → (s1 s2 : c.State) × (reconcile c p obj s ≡ (ok tt, s1))
          × (pod_of obj s1 ≡ none)
          × (finalizers_of obj s1 ≡ finalizers_of obj s)
          × (reconcile c p (reread status version) s1 ≡ (ok tt, s2))
          × IsReleased obj s2
    reconcile_deleted_twice status version s deleted had =
        let (s1, first, finalized) = reconcile_deleted obj held s deleted in
        let (gone, kept) = had_pod obj s s1 had finalized in
        let (s2, second, finalized') = reconcile_deleted (reread status version) held s1 deleted in
        (s1, s2, first, gone, kept, second, had_none (reread status version) s1 s2 gone finalized')
