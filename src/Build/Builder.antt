-- ===== src/Build/Builder.antt =====
-- The Pod of a BuildKit Job as runBuild works with it: the waits for it, and the commands in it.
pub mod Laws
use docker_in_k8s.Common.{
  ℕ, ◌||◌, ◌&&◌, not, Bool, true, false, Option, none, some, List, [], ◌∷◌, ◌++◌, is_nil, map,
  if◌then◌else◌,
}
use docker_in_k8s.Text.{Text, codes, ◌==◌, is_one_of}
use docker_in_k8s.Result.{Result, ok, err, Error, message, wrapped, wrap, ◌>>◌}
use docker_in_k8s.Api.Types.{Pod, PodCondition, ContainerState, Waiting}
use docker_in_k8s.Cluster.Calls.{Action}
use docker_in_k8s.Build.Credentials.{Credential}
use docker_in_k8s.Build.Job.{BuildJob}
use docker_in_k8s.Cli.Poll.{Verdict, again, done}

pub record Event : Type 0 where
  pub reason : Text
  pub message : Text

-- A file of a tar stream.
pub record TarFile : Type 0 where
  pub name : Text
  pub mode : ℕ
  pub contents : List ℕ

-- What is streamed into a Pod: the tar of a build context, or one of the files given.
pub data Archive (Context : Type 0) : Type 0 where
  context : Context → Archive Context
  files : List TarFile → Archive Context

-- How the two ends of a stream have ended: the writing or reading of the archive, and the command in
-- the Pod.
pub record Streamed : Type 0 where
  pub archive : Result (Unit {0})
  pub stream : Result (Unit {0})

-- The calls of runBuild in its namespace and on its host, over an unknown state. The goroutine that
-- copies the logs is one of those that may change the state at any call.
pub record Builder (Context : Type 0) : Type 1 where
  pub State : Type 0
  pub create_job : BuildJob → Action State (Unit {0})
  pub delete_job : Text → Action State (Unit {0})
  pub job_conditions : Text → Action State (List PodCondition)
  pub job_pods : Text → Action State (List Pod)
  pub pod : Text → Action State Pod
  pub warnings : Text → Text → Action State (List Event)
  pub exec : Text → List Text → Action State Text
  pub upload : Text → List Text → Archive Context → Action State Streamed
  pub start_logs : Text → Bool → Action State (Unit {0})
  pub join_logs : Action State (Unit {0})
  pub complain : Text → Action State (Unit {0})
  pub write_file : Text → Text → Action State (Unit {0})
  pub absolute : Text → Action State Text
  pub exists : Text → Action State Bool
  pub make_parent : Text → Action State (Unit {0})
  pub temporary : Text → Action State Text
  pub remove : Text → Action State (Unit {0})
  pub rename : Text → Text → Action State (Unit {0})
  pub download : Text → List Text → Text → Action State Streamed

-- buildPodStartupError
abbrev is_unschedulable : PodCondition → Bool
is_unschedulable x =
    x.type == codes "PodScheduled" && x.status == codes "False" && x.reason == codes "Unschedulable"

unfoldable pub unschedulable : List PodCondition → Option Error
unschedulable [] = none
unschedulable (x ∷ xs) =
    let rest = unschedulable xs in
    if is_unschedulable x
    then some (message (codes "BuildKit Pod is unschedulable: " ++ x.message))
    else rest

abbrev pub startup_reasons : List Text
startup_reasons =
    codes "ErrImagePull"
    ∷ codes "ImagePullBackOff"
    ∷ codes "InvalidImageName"
    ∷ codes "CreateContainerConfigError"
    ∷ codes "CreateContainerError"
    ∷ []

abbrev pub cannot_start : Option Waiting → Bool
cannot_start none = false
cannot_start (some w) = is_one_of w.reason startup_reasons

unfoldable pub not_started : List ContainerState → Option Error
not_started [] = none
not_started (x ∷ xs) =
    let rest = not_started xs in
    if cannot_start x.waiting then some (message (codes "BuildKit Pod startup failed")) else rest

abbrev or_else : Option Error → Option Error → Option Error
or_else none other = other
or_else (some e) other = some e

unfoldable pub build_pod_startup_error : Pod → Option Error
build_pod_startup_error pod =
    or_else (unschedulable pod.status.conditions) (not_started pod.status.container_statuses)

abbrev pub is_over : Text → Bool
is_over phase = is_one_of phase (codes "Failed" ∷ codes "Succeeded" ∷ [])

-- What the first Pod of the Job decides by itself.
unfoldable pub pod_outcome : Pod → Option Error → Option (Result Text)
pod_outcome pod (some e) = some (err e)
pod_outcome pod none =
    if pod.status.phase == codes "Running"
    then some (ok pod.name)
    else if is_over pod.status.phase
    then some (
        err
          (message (codes "BuildKit Pod terminated before context upload: " ++ pod.status.message)))
    else none

abbrev event_text : Event → Text
event_text e = if is_nil e.reason then e.message else e.reason ++ (codes ": " ++ e.message)

unfoldable pub last_event : List Event → Text
last_event [] = []
last_event (e ∷ []) = event_text e
last_event (e ∷ next ∷ rest) = last_event (next ∷ rest)

-- The verdict on a Job from its conditions.
unfoldable pub judge : List PodCondition → Verdict (Unit {0})
judge [] = again
judge (x ∷ xs) =
    let rest = judge xs in
    if not (x.status == codes "True")
    then rest
    else if x.type == codes "Complete"
    then done (ok tt)
    else if x.type == codes "Failed"
    then done (err (message (codes "BuildKit job failed: " ++ x.message)))
    else rest

abbrev pub timed_out : Text → Error
timed_out what = wrapped what (message (codes "context deadline exceeded"))

abbrev pub upload_command : Text → List Text
upload_command destination =
    codes "/bin/sh"
    ∷ codes "-ec"
    ∷ codes "mkdir -p \"$1\"; tar -xzf - -C \"$1\""
    ∷ codes "dockube-upload"
    ∷ destination
    ∷ []

-- The files of uploadBuildSecrets.
abbrev secret_file : Credential → TarFile
secret_file s = record { name = s.id; mode = 0o400; contents = s.contents }

abbrev ssh_file : Credential → TarFile
ssh_file k = record { name = codes "ssh-" ++ k.id; mode = 0o400; contents = k.contents }

unfoldable pub secret_files : List Credential → List Credential → List TarFile
secret_files secrets ssh = map secret_file secrets ++ map ssh_file ssh

-- The error of the archive comes before that of the stream.
abbrev pub upload_reply : Text → Text → Streamed → Result (Unit {0})
upload_reply archiving streaming streamed =
    wrap archiving streamed.archive >> wrap streaming streamed.stream
