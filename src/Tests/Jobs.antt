-- ===== src/Tests/Jobs.antt =====
-- A build whose Job completes.
use docker_in_k8s.Common.{ℕ, ◌≡◌, refl, false, Option, none, some, [], ◌∷◌}
use docker_in_k8s.Text.{Text, codes, ◌==◌}
use docker_in_k8s.Result.{ok}
use docker_in_k8s.Api.Types.{Pod, PodCondition}
use docker_in_k8s.Build.Outputs.{registry_output}
use docker_in_k8s.Build.Context.{PreparedContext}
use docker_in_k8s.Api.Pod.{pod_for}
use docker_in_k8s.Cli.Poll.{poll}
use docker_in_k8s.Cli.Console.{Console}
use docker_in_k8s.Build.Job.{job_name}
use docker_in_k8s.Build.Builder.{
  Builder, pod_outcome, build_pod_startup_error, unschedulable, not_started, judge,
}
use docker_in_k8s.Build.Steps.{
  wait_for_build_pod, check_build_pod, upload_build_context_at, upload_named, upload_build_secrets,
  signal_build_ready, wait_for_build, check_build,
}
use docker_in_k8s.Build.Run.{final_build_error, deliver, follow, publish, build_steps, run_build}
use docker_in_k8s.Build.Run.Laws.{
  job_of, Deleted, Completed, run_build-Deleted, run_build-Completed,
}
use docker_in_k8s.Tests.Concrete.{platform, web, web_spec}
use docker_in_k8s.Tests.Runs.{request}

abbrev build_pod : Pod
build_pod = record (pod_for platform web web_spec) {
  name = codes "pod-1";
  status = record {
    phase = codes "Running";
    reason = [];
    message = [];
    start_time = none;
    conditions = [];
    container_statuses = [];
  };
}

abbrev complete : PodCondition
complete = record { type = codes "Complete"; status = codes "True"; reason = []; message = [] }

-- A builder of which every call succeeds, whose state is the Job that is there, if any.
abbrev builder : Builder PreparedContext
builder = record {
  State = Option Text;
  create_job = λ job s. (ok tt, some job.name);
  delete_job = λ name s. (ok tt, none);
  job_conditions = λ name s. (ok (complete ∷ []), s);
  job_pods = λ name s. (ok (build_pod ∷ []), s);
  pod = λ name s. (ok build_pod, s);
  warnings = λ kind name s. (ok [], s);
  exec = λ pod command s. (ok [], s);
  upload = λ pod command archive s. (ok (record { archive = ok tt; stream = ok tt }), s);
  start_logs = λ pod quiet s. (ok tt, s);
  join_logs = λ s. (ok tt, s);
  complain = λ line s. (ok tt, s);
  write_file = λ path contents s. (ok tt, s);
  absolute = λ path s. (ok path, s);
  exists = λ path s. (ok false, s);
  make_parent = λ path s. (ok tt, s);
  temporary = λ path s. (ok path, s);
  remove = λ path s. (ok tt, s);
  rename = λ old new s. (ok tt, s);
  download = λ pod command path s. (ok (record { archive = ok tt; stream = ok tt }), s);
}

abbrev one_tick : Option Text → ℕ
one_tick s = 1

run_build-Deleted_example :
    ((job_of builder one_tick (λ metadata. ok []) (codes "AB12") request).name
      ≡ job_name (codes "AB12"))
    × Deleted builder one_tick
        (λ metadata. ok [])
        (job_name (codes "AB12"))
        (run_build builder one_tick (λ metadata. ok []) (codes "AB12") request (none, [])).1
run_build-Deleted_example =
    run_build-Deleted builder one_tick (λ metadata. ok []) (codes "AB12") request (none, []) refl
      refl

abbrev after : Console (Option Text)
after = (
  none,
  codes "Building example.org/shop with job default/dockube-build-ab12"
      ∷ codes "Successfully completed build for example.org/shop"
      ∷ [],
)

run_build-Completed_example :
    Completed builder one_tick (λ metadata. ok []) (job_name (codes "AB12")) request after
run_build-Completed_example =
    run_build-Completed builder one_tick (λ metadata. ok []) (codes "AB12") request (none, []) after
      accepted
  where
    accepted :
        run_build builder one_tick (λ metadata. ok []) (codes "AB12") request (none, [])
        ≡ (ok tt, after)
    accepted =
        unfold run_build build_steps deliver wait_for_build_pod check_build_pod pod_outcome
          build_pod_startup_error unschedulable not_started upload_build_context_at upload_named
          upload_build_secrets signal_build_ready follow final_build_error wait_for_build
          check_build judge poll publish registry_output ◌==◌ in
        refl
