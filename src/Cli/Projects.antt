-- ===== src/Cli/Projects.antt =====
-- The commands of dockube compose: internal/cli/compose.go.
pub mod Laws
use docker_in_k8s.Common.{
  ℕ, ◌||◌, List, [], ◌∷◌, ◌++◌, Option, none, Bool, true, false, not, is_nil, length, ltb,
  if◌then◌else◌,
}
use docker_in_k8s.Common.Int.{ℤ}
use docker_in_k8s.Text.{Text, codes, is_one_of}
use docker_in_k8s.Dicts.{text_at}
use docker_in_k8s.Result.{Result, ok, err, message}
use docker_in_k8s.Api.Types.{ContainerSpec, service_label}
use docker_in_k8s.Api.Platform.{Platform}
use docker_in_k8s.Api.Container.{DockerContainer}
use docker_in_k8s.Api.Spec.{spec}
use docker_in_k8s.Api.Status.{status}
use docker_in_k8s.Cluster.{Cluster}
use docker_in_k8s.Cluster.Calls.{Action, return, raise, lift, attempt, wrap, ◌>>=◌, ◌>>◌}
use docker_in_k8s.Compose.Plan.{Plan, ServicePlan}
use docker_in_k8s.Compose.Apply.{apply}
use docker_in_k8s.Compose.Projects.{list_project, set_state, down}
use docker_in_k8s.Cli.Console.{Console, call, say, for_each}
use docker_in_k8s.Cli.Waits.{wait_for_phase}
use docker_in_k8s.Cli.Show.{display_status}
use docker_in_k8s.Cli.Commands.{Streams, LogOptions, logs_pod}

abbrev pub compose_heading : List Text
compose_heading = codes "NAME" ∷ codes "IMAGE" ∷ codes "STATUS" ∷ codes "SERVICE" ∷ []

-- `loaded` is what loadCompose returns.
module _ (c : Cluster) (p : Platform) (clock : c.State → ℕ) (ns : Text) (loaded : Result Plan) where
  abbrev Command : Type 0
  Command = Action (Console c.State) (Unit {0})

  unfoldable pub compose_config : Command
  compose_config = do plan ← lift loaded; say plan.normalized

  -- `retry` is retry.RetryOnConflict, which Apply calls.
  unfoldable pub compose_up :
      (Action c.State (Unit {0}) → Action c.State (Unit {0})) → Bool → Command
  compose_up retry false = raise (message (codes "dockube compose up currently requires --detach"))
  compose_up retry true = do
    plan ← lift loaded
    call (wrap (codes "Compose project apply failed") (apply c ns p retry plan))
    for_each (λ (service : ServicePlan). say (service.name ++ codes "\tcreated or updated"))
        plan.services

  unfoldable pub compose_row : DockerContainer → Action (Console c.State) (List Text)
  unfolding display_status
  compose_row item = do
    sp ← lift (spec p.codecs item)
    return (
        item.name
        ∷ sp.image
        ∷ display_status (status p.sha item)
        ∷ text_at service_label item.labels
        ∷ [])

  unfoldable pub compose_rows : List DockerContainer → Action (Console c.State) (List (List Text))
  unfolding compose_row
  compose_rows [] = return []
  compose_rows (item ∷ items) = do
    row ← compose_row item
    rows ← compose_rows items
    return (row ∷ rows)

  -- `tabulate` is text/tabwriter.
  unfoldable pub compose_ps : (List (List Text) → List Text) → Command
  compose_ps tabulate = do
    plan ← lift loaded
    items ← call (list_project c ns plan.name)
    rows ← compose_rows items
    for_each say (tabulate (compose_heading ∷ rows))

  module _ (streams : Streams c.State) (follow : Bool) (tail : Option ℤ) where
    abbrev say_service : Bool → Text → Command
    say_service true service = say (codes "==> " ++ service ++ codes " <==")
    say_service false service = return tt

    -- The logs of one service; `several` is that the project has more than one container.
    unfoldable pub service_logs : Bool → DockerContainer → Command
    service_logs several item = do
      stream ← call (
          wrap (codes "service logs") (
            streams.open_logs ns (logs_pod c p clock ns item.name item)
              (record { container = codes "main"; follow = follow; tail_lines = tail })))
      say_service several (text_at service_label item.labels)
      copied ← attempt (streams.copy stream)
      closed ← attempt (call (streams.close stream))
      lift copied
      lift closed

    -- With no services named, all are selected.
    abbrev selected : List Text → DockerContainer → Bool
    selected services item =
        is_nil services || is_one_of (text_at service_label item.labels) services

    abbrev logs_if : Bool → Bool → DockerContainer → Command
    logs_if true several item = service_logs several item
    logs_if false several item = return tt

    unfoldable pub compose_logs : List Text → Command
    unfolding service_logs
    compose_logs services = do
      plan ← lift loaded
      items ← call (list_project c ns plan.name)
      for_each (λ item. logs_if (selected services item) (ltb 1 (length items)) item) items

  -- waitForPhase for one service.
  abbrev pub await_service : Text → ServicePlan → Command
  await_service state service = call (wait_for_phase c p clock ns service.container_name state)

  abbrev pub await_and_say : Text → ServicePlan → Command
  await_and_say state service = do await_service state service; say service.name

  unfoldable pub compose_state : Text → Command
  compose_state state = do
    plan ← lift loaded
    call (set_state c ns p plan.name state)
    for_each (await_and_say state) plan.services

  unfoldable pub compose_restart : Command
  compose_restart = do
    plan ← lift loaded
    call (set_state c ns p plan.name (codes "Stopped"))
    for_each (await_service (codes "Stopped")) plan.services
    call (set_state c ns p plan.name (codes "Running"))
    for_each (await_and_say (codes "Running")) plan.services

  unfoldable pub compose_down : ℕ → Bool → Command
  compose_down polls volumes = do
    plan ← lift loaded
    call (down c ns polls plan.name volumes)
    say plan.name
