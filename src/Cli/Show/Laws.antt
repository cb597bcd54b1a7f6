-- ===== src/Cli/Show/Laws.antt =====
-- The rows of dockube ps are those of the containers to show, in the order of the list.
use docker_in_k8s.Common.{◌≡◌, refl, List, [], ◌∷◌, Bool, filter, Bool-cases, inl, inr}
use docker_in_k8s.Common.Int.{ℤ}
use docker_in_k8s.Text.{Text}
use docker_in_k8s.Result.{traverse}
use docker_in_k8s.Api.Platform.{Platform}
use docker_in_k8s.Api.Container.{DockerContainer}
use docker_in_k8s.Cli.Show.{ps_row, ps_rows, shown}

pub ps_rows-eq-traverse :
    (p : Platform) (age : Text → ℤ) (all : Bool) (items : List DockerContainer)
    → ps_rows p age all items ≡ traverse (ps_row p age) (filter (shown p age all) items)
unfolding ps_rows filter traverse
ps_rows-eq-traverse p age all [] = refl
ps_rows-eq-traverse p age all (obj ∷ items) = elim (Bool-cases (shown p age all obj)) [
  | inl e ↦ rw e (rw (ps_rows-eq-traverse p age all items) refl)
  | inr e ↦ rw e (ps_rows-eq-traverse p age all items)
]
