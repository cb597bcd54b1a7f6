-- ===== src/Controller/Laws.antt =====
-- Finalizers that are given up, and passes over several containers.
use mathlib.Core.List.{append-nil, append_assoc}
use docker_in_k8s.Common.{
  ◌≡◌, refl, sym, ap, ◌∙◌, none, some, not, ◌&&◌, Option, List, [], ◌∷◌, ◌++◌, arith,
}
use docker_in_k8s.Text.{Text, codes, ◌==◌, eq_iff, is_one_of}
use docker_in_k8s.Result.{
  Result, ok, err, Error, not_found, conflict, already_exists, message, wrapped, joined, reply_of,
}
use docker_in_k8s.Api.Types.{finalizer, managed_by_label, managed_by_value}
use docker_in_k8s.Api.Platform.{Platform}
use docker_in_k8s.Api.Container.{DockerContainer}
use docker_in_k8s.Cluster.{Cluster}
use docker_in_k8s.Controller.{
  other_finalizers, reconcile, reconcile_each, reconcile_all, next_error,
}

-- What finalize leaves of the finalizers is all of them but the controller's own.
pub is_one_of-other_finalizers :
    (f : Text) (fs : List Text)
    → is_one_of f (other_finalizers fs) ≡ (is_one_of f fs && not (f == finalizer))
unfolding other_finalizers is_one_of
is_one_of-other_finalizers f [] = refl
is_one_of-other_finalizers f (g ∷ fs) =
    ground
      (arith, eq_iff g finalizer, eq_iff f g, eq_iff f finalizer, is_one_of-other_finalizers f fs)

-- The errors that errors.Join has put together, and those of a result.
abbrev pub unjoined : Error → List Error
unjoined not_found = not_found ∷ []
unjoined conflict = conflict ∷ []
unjoined already_exists = already_exists ∷ []
unjoined (message t) = message t ∷ []
unjoined (wrapped t e) = wrapped t e ∷ []
unjoined (joined e e') = unjoined e ++ unjoined e'

abbrev pub errors_in : Result (Unit {0}) → List Error
errors_in (ok u) = []
errors_in (err e) = unjoined e

module _ (c : Cluster) (p : Platform) where
  -- Every container has its pass, whatever became of those before it.
  abbrev pub after_each : List DockerContainer → c.State → c.State
  after_each [] s = s
  after_each (obj ∷ objs) s = after_each objs (reconcile c p obj s).1

  -- The errors of those passes, each with the name of its container, in order.
  abbrev pub failure : DockerContainer → Result (Unit {0}) → List Error
  failure obj (ok u) = []
  failure obj (err e) = wrapped (obj.namespace ++ codes "/" ++ obj.name) e ∷ []

  abbrev pub failures : List DockerContainer → c.State → List Error
  failures [] s = []
  failures (obj ∷ objs) s =
      failure obj (reconcile c p obj s).0 ++ failures objs (reconcile c p obj s).1

  -- The errors so far, of which none is joined itself.
  abbrev errors_of : Option Error → List Error
  errors_of none = []
  errors_of (some e) = unjoined e

  unjoined-next_error :
      (result : Option Error) (obj : DockerContainer) (reply : Result (Unit {0}))
      → errors_of (next_error c p result (obj.namespace ++ codes "/" ++ obj.name) reply)
        ≡ errors_of result ++ failure obj reply
  unjoined-next_error result obj (ok u) = sym (append-nil _)
  unjoined-next_error none obj (err e) = refl
  unjoined-next_error (some e') obj (err e) = refl

  errors_in-reply_of : (result : Option Error) → errors_in (reply_of result) ≡ errors_of result
  errors_in-reply_of none = refl
  errors_in-reply_of (some e) = refl

  each_from :
      (objs : List DockerContainer) (result : Option Error) (s : c.State)
      → ((reconcile_each c p objs result s).1 ≡ after_each objs s)
        × (errors_in (reconcile_each c p objs result s).0 ≡ errors_of result ++ failures objs s)
  unfolding reconcile_each
  each_from [] result s = (refl, errors_in-reply_of result ∙ sym (append-nil _))
  each_from (obj ∷ objs) result s =
      let (reply, t) = reconcile c p obj s in
      let next = next_error c p result (obj.namespace ++ codes "/" ++ obj.name) reply in
      let (after, errors) = each_from objs next t in
      (
        after,
        errors
            ∙ ap (λ (es : List Error). es ++ failures objs t) (unjoined-next_error result obj reply)
            ∙ append_assoc (errors_of result) (failure obj reply) (failures objs t),
      )

  -- Where the list of ReconcileAll succeeds, every container of it has its pass, whatever became
  -- of those before it, and the errors that its result joins are exactly those of the passes that
  -- failed, in order and each with the name of its container.
  pub reconcile_all_lem :
      (namespace : Text) (objs : List DockerContainer) (s t : c.State)
      → (c.containers namespace).list managed_by_label managed_by_value s ≡ (ok objs, t)
      → ((reconcile_all c p namespace s).1 ≡ after_each objs t)
        × (errors_in (reconcile_all c p namespace s).0 ≡ failures objs t)
  unfolding reconcile_all
  reconcile_all_lem namespace objs s t listed = rw listed (each_from objs none t)
