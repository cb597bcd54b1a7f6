-- ===== src/Controller/Loop.antt =====
-- Run: the loop of the controller, with a pass at once and one at each tick until its context ends. The
-- errors of the passes are printed, in front of which it says what they are.
use docker_in_k8s.Common.{ℕ, zero, suc, ◌≡◌, refl, List, [], ◌∷◌, ◌++◌}
use docker_in_k8s.Text.{Text, codes}
use docker_in_k8s.Result.{Result, ok, err, Error}
use docker_in_k8s.Api.Platform.{Platform}
use docker_in_k8s.Cluster.{Cluster}
use docker_in_k8s.Cluster.Calls.{Action, return, raise, attempt, ◌>>=◌, ◌>>◌}
use docker_in_k8s.Controller.{reconcile_all}
use docker_in_k8s.Cli.Console.{Console, call, say}

module _ (c : Cluster) (p : Platform) (namespace : Text) where
  abbrev Step : Type 0
  Step = Action (Console c.State) (Unit {0})

  abbrev report : Result (Unit {0}) → Step
  report (ok u) = return tt
  report (err e) = say (codes "reconcile error")

  abbrev pub pass : Step
  pass = do result ← attempt (call (reconcile_all c p namespace)); report result

  -- `ended` is the error of the context, which ends behind so many ticks.
  unfoldable pub run : ℕ → Error → Step
  run zero ended = do pass; raise ended
  run (suc ticks) ended = do pass; run ticks ended

  -- The state behind so many passes.
  abbrev pub passes : ℕ → c.State → c.State
  passes zero s = s
  passes (suc n) s = passes n (reconcile_all c p namespace s).1

  reported :
      (result : Result (Unit {0})) (s : c.State) (out : List Text)
      → (out' : List Text) × (report result (s, out) ≡ (ok tt, (s, out')))
  reported (ok u) s out = (out, refl)
  reported (err e) s out = (out ++ codes "reconcile error" ∷ [], refl)

  pass-reconcile_all :
      (s : c.State) (out : List Text)
      → (out' : List Text) × (pass (s, out) ≡ (ok tt, ((reconcile_all c p namespace s).1, out')))
  pass-reconcile_all s out =
      reported (reconcile_all c p namespace s).0 (reconcile_all c p namespace s).1 out

  -- Run makes a pass at once and one at every tick, whatever errors the passes end with, and ends
  -- with the error of its context.
  pub run-passes :
      (ticks : ℕ) (ended : Error) (s : c.State) (out : List Text)
      → ((run ticks ended (s, out)).0 ≡ err ended)
        × ((run ticks ended (s, out)).1.0 ≡ passes (suc ticks) s)
  unfolding run
  run-passes zero ended s out = let (out', e) = pass-reconcile_all s out in rw e (refl, refl)
  run-passes (suc ticks) ended s out =
      let (out', e) = pass-reconcile_all s out in
      rw e (run-passes ticks ended (reconcile_all c p namespace s).1 out')
