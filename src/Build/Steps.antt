-- ===== src/Build/Steps.antt =====
-- The steps of runBuild: the waits for the Pod and the Job of a build, and the commands in the Pod.
use docker_in_k8s.Common.{
  ℕ, ◌+◌, Bool, true, false, Option, none, some, List, [], ◌∷◌, ◌++◌, length, ltb, if◌then◌else◌,
}
use docker_in_k8s.Text.{Text, codes, ◌==◌}
use docker_in_k8s.Result.{Result, ok, err, message}
use docker_in_k8s.Api.Types.{Pod}
use docker_in_k8s.Cluster.Calls.{Action, return, raise, lift, attempt, finally, wrap, ◌>>=◌, ◌>>◌}
use docker_in_k8s.Build.Credentials.{Credential}
use docker_in_k8s.Build.Outputs.{BuildOutput}
use docker_in_k8s.Build.Job.{is_collected}
use docker_in_k8s.Build.Builder.{
  Builder, context, files, Streamed, build_pod_startup_error, pod_outcome, is_over, last_event,
  judge, timed_out, upload_command, secret_files, upload_reply,
}
use docker_in_k8s.Cli.Poll.{Verdict, again, done, poll}

-- `clock` is the number of ticks of a wait that begins in a state.
module _ {Context : Type 0} (b : Builder Context) (clock : b.State → ℕ) where
  unfoldable pub build_warning_event : Text → Text → Action b.State Text
  build_warning_event kind name = do events ← b.warnings kind name; return (last_event events)

  abbrev unless_warned : Text → Text → Action b.State (Verdict Text) → Action b.State (Verdict Text)
  unless_warned prefix [] later = later
  unless_warned prefix (x ∷ warning) later = return (done (err (message (prefix ++ x ∷ warning))))

  unfoldable pub check_job : Text → Action b.State (Verdict Text)
  unfolding build_warning_event
  check_job name = do
    warning ← build_warning_event (codes "Job") name
    unless_warned (codes "BuildKit Job could not create a Pod: ") warning (return again)

  abbrev pub after_pod : Text → Pod → Option (Result Text) → Action b.State (Verdict Text)
  after_pod name pod (some r) = return (done r)
  after_pod name pod none = do
    warning ← build_warning_event (codes "Pod") pod.name
    unless_warned (codes "BuildKit Pod startup failed: ") warning (check_job name)

  abbrev pub check_pods : Text → List Pod → Action b.State (Verdict Text)
  check_pods name [] = check_job name
  check_pods name (pod ∷ rest) = after_pod name pod (pod_outcome pod (build_pod_startup_error pod))

  unfoldable pub check_build_pod : Text → Action b.State (Verdict Text)
  unfolding check_job
  check_build_pod name = do pods ← b.job_pods name; check_pods name pods

  unfoldable pub wait_for_build_pod : Text → Action b.State Text
  unfolding check_build_pod
  wait_for_build_pod name s =
      poll (clock s) (timed_out (codes "timed out waiting for BuildKit Pod")) (check_build_pod name)
        s

  abbrev shell : Text → List Text
  shell script = codes "/bin/sh" ∷ codes "-c" ∷ script ∷ []

  -- What waitForBuildResult does with the reply of its test command.
  abbrev after_test : Text → Result Text → Action b.State (Verdict (Unit {0}))
  after_test pod (ok out) = return (done (ok tt))
  after_test pod (err e) = do
    found ← b.pod pod
    return (
        if is_over found.status.phase
        then done
            (err (message (codes "BuildKit Pod terminated before publishing result metadata")))
        else again)

  unfoldable pub check_build_result : Text → Action b.State (Verdict (Unit {0}))
  check_build_result pod = do
    reply ← attempt (b.exec pod (shell (codes "test -f /workspace/.dockube-build-complete")))
    after_test pod reply

  unfoldable pub wait_for_build_result : Text → Action b.State (Unit {0})
  unfolding check_build_result
  wait_for_build_result pod s =
      poll (clock s) (timed_out (codes "timed out waiting for BuildKit result"))
        (check_build_result pod) s

  unfoldable pub check_build : Text → Action b.State (Verdict (Unit {0}))
  check_build name = do conditions ← b.job_conditions name; return (judge conditions)

  unfoldable pub wait_for_build : Text → Action b.State (Unit {0})
  unfolding check_build
  wait_for_build name s =
      poll (clock s) (timed_out (codes "timed out waiting for BuildKit job")) (check_build name) s

  unfoldable pub upload_build_context_at : Text → Context → Text → Action b.State (Unit {0})
  upload_build_context_at pod ctx destination = do
    streamed ← b.upload pod (upload_command destination) (context ctx)
    lift (upload_reply (codes "stream build context") (codes "upload build context") streamed)

  unfoldable pub upload_named : Text → List (Text × Context) → Action b.State (Unit {0})
  unfolding upload_build_context_at
  upload_named pod [] = return tt
  upload_named pod ((name, ctx) ∷ rest) = do
    upload_build_context_at pod ctx (codes "/home/user/.dockube-contexts/" ++ name)
    upload_named pod rest

  unfoldable pub upload_build_secrets :
      Text → List Credential → List Credential → Action b.State (Unit {0})
  upload_build_secrets pod secrets ssh = do
    streamed ←
        b.upload pod
          (codes "/bin/sh" ∷ codes "-ec" ∷ codes "tar -xf - -C /run/dockube/secrets" ∷ [])
          (files (secret_files secrets ssh))
    lift (upload_reply (codes "stream build secrets") (codes "upload build secrets") streamed)

  abbrev pub upload_if_any : Text → List Credential → List Credential → Action b.State (Unit {0})
  upload_if_any pod secrets ssh =
      if ltb 0 (length secrets + length ssh)
      then upload_build_secrets pod secrets ssh
      else return tt

  unfoldable pub signal_build_ready : Text → Action b.State (Unit {0})
  signal_build_ready pod = do
    wrap (codes "signal BuildKit context readiness") (
        b.exec pod
          (codes "/bin/sh" ∷ codes "-ec" ∷ codes "touch /workspace/.dockube-context-ready" ∷ []))
    return tt

  unfoldable pub read_build_result : Text → Action b.State Text
  read_build_result pod =
      wrap (codes "read build metadata")
        (b.exec pod (codes "/bin/cat" ∷ codes "/workspace/.dockube-metadata.json" ∷ []))

  unfoldable pub signal_build_result_collected : Text → Action b.State (Unit {0})
  signal_build_result_collected pod = do
    wrap (codes "release BuildKit result")
        (b.exec pod (shell (codes "touch /workspace/.dockube-result-collected")))
    return tt

  -- The end of collectBuildOutput: the download is checked and moved to its place.
  abbrev install : Text → Text → Streamed → Action b.State (Unit {0})
  install temporary destination streamed = do
    wrap (codes "stream output") (lift streamed.stream)
    lift streamed.archive
    wrap (codes "install output") (b.rename temporary destination)

  abbrev unless_exists : Bool → Action b.State (Unit {0})
  unless_exists true = raise (message (codes "local output destination already exists"))
  unless_exists false = return tt

  -- The command whose output is the result: a tar of the local output, or the file.
  abbrev output_command : BuildOutput → List Text
  output_command output =
      if output.kind == codes "local"
      then codes "/bin/tar"
        ∷ codes "-czf"
        ∷ codes "-"
        ∷ codes "-C"
        ∷ output.pod_path
        ∷ codes "."
        ∷ []
      else codes "/bin/cat" ∷ output.pod_path ∷ []

  abbrev check_local : BuildOutput → Text → Action b.State (Unit {0})
  check_local output destination =
      if output.kind == codes "local"
      then (do there ← b.exists destination; unless_exists there)
      else return tt

  unfoldable pub collect_build_output : Text → BuildOutput → Action b.State (Unit {0})
  collect_build_output pod output = do
    destination ← b.absolute output.client_path
    check_local output destination
    b.make_parent destination
    temporary ← b.temporary destination
    finally (b.remove temporary) (do
      streamed ← b.download pod (output_command output) temporary
      install temporary destination streamed)

  unfoldable pub collect_outputs : Text → List BuildOutput → Action b.State (Unit {0})
  unfolding collect_build_output
  collect_outputs pod [] = return tt
  collect_outputs pod (output ∷ rest) = do
    if is_collected output then collect_build_output pod output else return tt
    collect_outputs pod rest
