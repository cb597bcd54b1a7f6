-- ===== src/Cli/Waits.antt =====
-- waitForPhase, waitForDeletion, waitForTerminal and setDesiredState.
pub mod Laws
pub mod Desired
use docker_in_k8s.Common.{
  ℕ, List, [], ◌∷◌, ◌++◌, Option, none, some, Bool, true, false, if◌then◌else◌,
}
use docker_in_k8s.Text.{Text, codes, ◌==◌, print_int}
use docker_in_k8s.Result.{Result, ok, err, Error, message, wrapped, is_not_found, is_conflict}
use docker_in_k8s.Cluster.{Cluster}
use docker_in_k8s.Cluster.Calls.{Action, return, attempt, ◌>>=◌, ◌>>◌}
use docker_in_k8s.Api.Types.{ContainerStatus}
use docker_in_k8s.Api.Json.{Json, text, JsonMap}
use docker_in_k8s.Api.Platform.{Platform}
use docker_in_k8s.Api.Container.{DockerContainer}
use docker_in_k8s.Api.Status.{status}
use docker_in_k8s.Cli.Poll.{Verdict, again, done, poll}

-- ctx.Err() at the end of a wait.
abbrev deadline_exceeded : Error
deadline_exceeded = message (codes "context deadline exceeded")

-- unstructured.SetNestedField of one key of a spec.
unfoldable pub set_key : Text → Json → JsonMap → JsonMap
set_key key value m k = if k == key then some value else m k

-- What the reply of an update means for the loop of setDesiredState.
abbrev pub after_update : {A : Type 0} → Result A → Verdict (Unit {0})
after_update (ok stored) = done (ok tt)
after_update (err e) = if is_conflict e then again else done (err e)

-- What a reply means to a wait for a deletion.
abbrev pub if_deleted : {A : Type 0} → Result A → Verdict (Unit {0})
if_deleted (ok obj) = again
if_deleted (err e) = if is_not_found e then done (ok tt) else done (err e)

abbrev failure : ContainerStatus → Error
failure st =
    if st.has_exit_code
    then message
        (codes "container exited with code " ++ print_int st.exit_code ++ codes ": " ++ st.reason)
    else message (codes "container failed: " ++ st.reason)

abbrev pub if_terminal : ContainerStatus → Verdict (Unit {0})
if_terminal st =
    if st.phase == codes "Succeeded"
    then done (ok tt)
    else if st.phase == codes "Failed"
    then done (err (failure st))
    else again

-- A wait that begins in a state has so many ticks before its context ends: `clock` says how many.
module _ (c : Cluster) (p : Platform) (clock : c.State → ℕ) (ns : Text) where
  abbrev wait : Error → Action c.State (Verdict (Unit {0})) → Action c.State (Unit {0})
  wait timeout check s = poll (clock s) timeout check s

  unfoldable pub check_phase : Text → Text → Action c.State (Verdict (Unit {0}))
  check_phase name phase = do
    obj ← (c.containers ns).get name
    return (if (status p.sha obj).phase == phase then done (ok tt) else again)

  unfoldable pub wait_for_phase : Text → Text → Action c.State (Unit {0})
  wait_for_phase name phase =
      wait
        (wrapped (codes "timed out waiting for " ++ name ++ codes " to become " ++ phase)
          deadline_exceeded)
        (check_phase name phase)

  unfoldable pub check_deletion : Text → Action c.State (Verdict (Unit {0}))
  check_deletion name = do reply ← attempt ((c.containers ns).get name); return (if_deleted reply)

  unfoldable pub wait_for_deletion : Text → Action c.State (Unit {0})
  wait_for_deletion name =
      wait (wrapped (codes "timed out removing container " ++ name) deadline_exceeded)
        (check_deletion name)

  unfoldable pub check_terminal : Text → Action c.State (Verdict (Unit {0}))
  check_terminal name = do obj ← (c.containers ns).get name; return (if_terminal (status p.sha obj))

  -- The loop of waitForTerminal; the ID that it prints when the container has succeeded is printed
  -- behind it, by after_create.
  unfoldable pub wait_for_terminal : Text → Action c.State (Unit {0})
  wait_for_terminal name = wait deadline_exceeded (check_terminal name)

-- The container that an attempt of setDesiredState sends.
abbrev pub with_desired_state : Text → DockerContainer → DockerContainer
with_desired_state state obj = record obj {
  spec = set_key (codes "desiredState") (text state) obj.spec;
}

module _ (c : Cluster) (ns : Text) where
  unfoldable pub attempt_state : Text → Text → Action c.State (Verdict (Unit {0}))
  attempt_state name state = do
    obj ← (c.containers ns).get name
    reply ← attempt ((c.containers ns).update (with_desired_state state obj))
    return (after_update reply)

  -- setDesiredState makes five attempts.
  unfoldable pub set_desired_state : Text → Text → Action c.State (Unit {0})
  set_desired_state name state =
      poll 4 (message (codes "could not update " ++ name ++ codes " after conflicts"))
        (attempt_state name state)
