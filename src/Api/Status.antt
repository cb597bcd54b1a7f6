-- ===== src/Api/Status.antt =====
-- StatusMap, which the controller writes, and Status, which the commands read.
pub mod Laws
use docker_in_k8s.Common.{
  ◌&&◌, not, Bool, true, false, Option, none, some, List, [], ◌∷◌, if◌then◌else◌, is_nil,
}
use docker_in_k8s.Common.Int.{ℤ, pos}
use docker_in_k8s.Text.{Text, codes, ◌==◌}
use docker_in_k8s.Api.Types.{ContainerStatus, ContainerState, Waiting, Terminated, Pod, PodStatus}
use docker_in_k8s.Api.Ids.{container_id}
use docker_in_k8s.Api.Json.{Json, int, text, JsonMap, nested_string, nested_int}
use docker_in_k8s.Api.Container.{DockerContainer}

-- A later text that is not empty replaces an earlier one.
abbrev pub override : Text → Option Json → Option Json
override [] old = old
override (c ∷ t) old = some (text (c ∷ t))

abbrev first_state : List ContainerState → Option ContainerState
first_state [] = none
first_state (s ∷ rest) = some s

abbrev pub waiting_of : Option ContainerState → Option Waiting
waiting_of none = none
waiting_of (some s) = s.waiting

abbrev pub terminated_of : Option ContainerState → Option Terminated
terminated_of none = none
terminated_of (some s) = s.terminated

abbrev waiting_reason : Option Waiting → Text
waiting_reason none = []
waiting_reason (some w) = w.reason

abbrev terminated_reason : Option Terminated → Text
terminated_reason none = []
terminated_reason (some t) = t.reason

abbrev exit_code_of : Option Terminated → Option Json
exit_code_of none = none
exit_code_of (some t) = some (int t.exit_code)

abbrev finished_at_of : Option Terminated → Option Json
finished_at_of none = none
finished_at_of (some t) = some (text t.finished_at)

abbrev started_at_of : Option Text → Option Json
started_at_of none = none
started_at_of (some t) = some (text t)

unfoldable pub status_map : (Text → Text) → DockerContainer → Pod → JsonMap
status_map sha obj pod key =
    let state = first_state pod.status.container_statuses in
    let ended = terminated_of state in
    if key == codes "containerID"
    then some (text (container_id sha obj.uid))
    else if key == codes "phase"
    then some (text pod.status.phase)
    else if key == codes "currentPodName"
    then some (text pod.name)
    else if key == codes "reason"
    then override (terminated_reason ended)
        (override (waiting_reason (waiting_of state)) (override pod.status.reason none))
    else if key == codes "startedAt"
    then started_at_of pod.status.start_time
    else if key == codes "exitCode"
    then exit_code_of ended
    else if key == codes "finishedAt"
    then finished_at_of ended
    else none

-- The status that updatePhase and updateStoppedStatus of the controller write.
unfoldable pub phase_map : (Text → Text) → DockerContainer → Text → JsonMap
phase_map sha obj phase key =
    if key == codes "containerID"
    then some (text (container_id sha obj.uid))
    else if key == codes "phase"
    then some (text phase)
    else none

abbrev or_zero : Option ℤ → ℤ
or_zero none = pos 0
or_zero (some n) = n

abbrev is_given {ℓ} : {A : Type ℓ} → Option A → Bool
is_given none = false
is_given (some a) = true

unfoldable pub status : (Text → Text) → DockerContainer → ContainerStatus
status sha obj =
    let m = obj.status in
    let exit_code = nested_int m (codes "exitCode") in
    let id = nested_string m (codes "containerID") in
    record {
      id = if is_nil id && not (is_nil obj.uid) then container_id sha obj.uid else id;
      phase = nested_string m (codes "phase");
      pod_name = nested_string m (codes "currentPodName");
      reason = nested_string m (codes "reason");
      created_at = obj.creation_timestamp;
      started_at = nested_string m (codes "startedAt");
      finished_at = nested_string m (codes "finishedAt");
      exit_code = or_zero exit_code;
      has_exit_code = is_given exit_code;
      resource_version = obj.resource_version;
    }
