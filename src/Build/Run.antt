-- ===== src/Build/Run.antt =====
-- runBuild and finalBuildError: the Job is created, given its context, followed to its end and deleted.
pub mod Laws
use docker_in_k8s.Common.{
  ℕ, ◌||◌, ◌&&◌, not, Bool, true, false, Option, none, some, List, [], ◌∷◌, ◌++◌, is_nil,
  if◌then◌else◌,
}
use docker_in_k8s.Text.{Text, codes, ◌==◌}
use docker_in_k8s.Result.{Result, ok, err, Error, message}
use docker_in_k8s.Cluster.Calls.{Action, return, raise, lift, attempt, finally, wrap, ◌>>=◌, ◌>>◌}
use docker_in_k8s.Build.Credentials.{Credential}
use docker_in_k8s.Build.Options.{ResultOptions}
use docker_in_k8s.Build.Outputs.{BuildOutput}
use docker_in_k8s.Build.Registry.{RegistryOptions}
use docker_in_k8s.Build.Frontend.{FrontendOptions}
use docker_in_k8s.Build.Job.{build_job, job_name, build_debug_message, needs_metadata, collects}
use docker_in_k8s.Build.Builder.{Builder}
use docker_in_k8s.Build.Steps.{
  wait_for_build_pod, wait_for_build_result, wait_for_build, upload_build_context_at, upload_named,
  upload_if_any, signal_build_ready, read_build_result, signal_build_result_collected,
  collect_outputs,
}
use docker_in_k8s.Cli.Console.{Console, call, say}

-- What a run is asked for. `deadline` is that the timeout is positive.
pub record Request (Context : Type 0) : Type 0 where
  pub namespace : Text
  pub images : List Text
  pub main : Context
  pub dockerfile : Text
  pub named : List (Text × Context)
  pub registry : RegistryOptions
  pub options : FrontendOptions
  pub results : ResultOptions
  pub deadline : Bool
  pub keep : Bool

-- finalBuildError
unfoldable pub final_build_error : {A : Type 0} → Result A → Result (Unit {0}) → Result A
final_build_error (err e) log = err e
final_build_error (ok a) (err e) = err e
final_build_error (ok a) (ok u) = ok a

-- strings.Join(images, ", ")
abbrev comma_joined : List Text → Text
comma_joined [] = []
comma_joined (image ∷ []) = image
comma_joined (image ∷ next ∷ rest) = image ++ (codes ", " ++ comma_joined (next ∷ rest))

abbrev pub is_silent : ResultOptions → Bool
is_silent r = r.quiet || r.progress == codes "rawjson"

-- `image_id` is buildImageID of the metadata.
module _ {Context : Type 0} (b : Builder Context) (clock : b.State → ℕ)
    (image_id : Text → Result Text) where
  -- From the wait for the Pod to the signal that the build may begin.
  unfoldable pub deliver : Text → Request Context → Action b.State Text
  deliver name q = do
    pod ← wait_for_build_pod b clock name
    upload_build_context_at b clock pod q.main (codes "/workspace")
    upload_named b clock pod q.named
    upload_if_any b clock pod q.options.secrets q.options.ssh
    signal_build_ready b clock pod
    return pod

  abbrev read_if : Bool → Text → Action b.State Text
  read_if true pod = read_build_result b clock pod
  read_if false pod = return []

  -- The collection of results, which ends with the signal that the Pod waits for.
  unfoldable pub collect : Text → Request Context → Action b.State Text
  collect pod q = do
    read ← attempt (do
      wait_for_build_result b clock pod
      metadata ← read_if (needs_metadata q.results) pod
      collect_outputs b clock pod q.options.outputs
      return metadata)
    signalled ← attempt (signal_build_result_collected b clock pod)
    lift (final_build_error read signalled)

  abbrev pub collect_if : Bool → Text → Request Context → Action b.State Text
  collect_if true pod q = collect pod q
  collect_if false pod q = return []

  -- From the start of the logs to their end.
  unfoldable pub follow : Text → Text → Request Context → Action b.State Text
  unfolding collect final_build_error
  follow name pod q = do
    b.start_logs pod q.results.quiet
    outcome ← attempt (do
      metadata ← collect_if (collects q.results q.options) pod q
      wait_for_build b clock name
      return metadata)
    log ← attempt b.join_logs
    lift (final_build_error outcome log)

  abbrev say_unless : Bool → Text → Action (Console b.State) (Unit {0})
  say_unless true line = return tt
  say_unless false line = say line

  abbrev write_metadata : Text → Text → Action b.State (Unit {0})
  write_metadata [] metadata = return tt
  write_metadata (x ∷ path) metadata =
      wrap (codes "write metadata file") (b.write_file (x ∷ path) metadata)

  abbrev write_image_id : Text → Text → Action b.State (Unit {0})
  write_image_id [] id = return tt
  write_image_id (x ∷ path) id =
      wrap (codes "write image ID file") (b.write_file (x ∷ path) (id ++ b'\n' ∷ []))

  abbrev publish_id : ResultOptions → Text → Action (Console b.State) (Unit {0})
  publish_id r metadata = do
    id ← lift (image_id metadata)
    call (write_image_id r.iid_file id)
    say_unless (not r.quiet) id

  abbrev completed : List Text → Text
  completed [] = codes "Successfully wrote build output"
  completed (image ∷ rest) =
      codes "Successfully completed build for " ++ comma_joined (image ∷ rest)

  -- What is written and printed of a build that has succeeded.
  unfoldable pub publish : Request Context → Text → Action (Console b.State) (Unit {0})
  publish q metadata = do
    call (write_metadata q.results.metadata_file metadata)
    if not (is_nil q.results.iid_file) || q.results.quiet
        then publish_id q.results metadata
        else return tt
    say_unless (is_silent q.results) (completed q.images)

  abbrev pub announce : Text → Request Context → Action (Console b.State) (Unit {0})
  announce name q = say_unless (is_silent q.results) (
      codes "Building "
      ++ (comma_joined q.images ++ (codes " with job " ++ (q.namespace ++ b'/' ∷ name))))

  -- What runs between the creation of the Job and its deletion.
  unfoldable pub build_steps : Text → Request Context → Action (Console b.State) (Unit {0})
  unfolding deliver follow publish
  build_steps name q = do
    announce name q
    pod ← call (deliver name q)
    metadata ← call (follow name pod q)
    publish q metadata

  abbrev pub cleaned :
      Bool → Text → Action (Console b.State) (Unit {0}) → Action (Console b.State) (Unit {0})
  cleaned true name steps = steps
  cleaned false name steps = finally (call (b.delete_job name)) steps

  abbrev pub complain_if : Bool → Text → Action b.State (Unit {0})
  complain_if true line = b.complain line
  complain_if false line = return tt

  unfoldable pub run_build : Text → Request Context → Action (Console b.State) (Unit {0})
  unfolding build_job build_debug_message build_steps
  run_build suffix q =
      let name = job_name suffix in
      do
        attempt (
            call (
              complain_if q.options.debug
                (build_debug_message name q.namespace q.options q.keep q.deadline)))
        call (
            wrap (codes "create BuildKit job")
              (b.create_job (build_job name q.dockerfile q.registry q.options q.results)))
        cleaned q.keep name (build_steps name q)
