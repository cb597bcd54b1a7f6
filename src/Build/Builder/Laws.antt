-- ===== src/Build/Builder/Laws.antt =====
-- The verdicts on a Job and on a Pod.
use docker_in_k8s.Common.{
  ◌≡◌, refl, not, ◌&&◌, ◌||◌, Bool, true, false, List, [], ◌∷◌, any, if◌then◌else◌,
}
use docker_in_k8s.Text.{codes, ◌==◌}
use docker_in_k8s.Result.{ok, err, Error}
use docker_in_k8s.Api.Types.{PodCondition}
use docker_in_k8s.Cli.Poll.{Verdict, done}
use docker_in_k8s.Build.Builder.{judge}

abbrev pub is_complete : PodCondition → Bool
is_complete x = x.status == codes "True" && x.type == codes "Complete"

-- A condition that decides, or the rest.
judged :
    (is_true complete failed : Bool) (e : Error) (rest : Verdict (Unit {0})) (others : Bool)
    → (rest ≡ done (ok tt) → others ≡ true)
    → (if not is_true
        then rest
        else if complete
        then done (ok tt)
        else if failed
        then done (err e)
        else rest)
      ≡ done (ok tt)
    → ((is_true && complete) || others) ≡ true
judged true true failed e rest others ih h = refl
judged true false true e rest others ih h = cc
judged true false false e rest others ih h = ih h
judged false complete failed e rest others ih h = ih h

pub judge-any :
    (conditions : List PodCondition)
    → judge conditions ≡ done (ok tt)
    → any is_complete conditions ≡ true
unfolding judge
judge-any [] h = cc
judge-any (x ∷ xs) h =
    judged (x.status == codes "True") (x.type == codes "Complete") (x.type == codes "Failed") _
      (judge xs) (any is_complete xs) (judge-any xs) h
