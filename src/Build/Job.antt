-- ===== src/Build/Job.antt =====
-- The BuildKit Job of runBuild: buildCommandScript, buildResources and buildDebugMessage.
use docker_in_k8s.Common.{
  ℕ, ◌||◌, not, Bool, true, false, List, [], ◌∷◌, ◌++◌, length, is_nil, any, if◌then◌else◌,
}
use docker_in_k8s.Text.{Text, codes, ◌==◌, lower_ascii, print_nat}
use docker_in_k8s.Dicts.{Dict}
use docker_in_k8s.Api.Types.{EnvVar, VolumeMount, Volume, ResourceRequirements, parsed}
use docker_in_k8s.Build.Options.{ResultOptions}
use docker_in_k8s.Build.Outputs.{BuildOutput}
use docker_in_k8s.Build.Registry.{RegistryOptions, build_registry_configuration}
use docker_in_k8s.Build.Frontend.{FrontendOptions, build_frontend_arguments}

abbrev pub buildkit_image : Text
buildkit_image = codes "moby/buildkit:v0.30.0-rootless"

abbrev lines : List Text → Text
lines [] = []
lines (line ∷ []) = line
lines (line ∷ next ∷ rest) = line ++ b'\n' ∷ lines (next ∷ rest)

abbrev wait_script : List Text
wait_script =
    codes "while [ ! -f /workspace/.dockube-context-ready ]; do sleep 0.1; done"
    ∷ codes "rm /workspace/.dockube-context-ready"
    ∷ []

abbrev frontend_script : List Text
frontend_script =
    codes "  --frontend dockerfile.v0 \\"
    ∷ codes "  --local context=/workspace \\"
    ∷ codes "  --local dockerfile=/workspace \\"
    ∷ codes "  --opt filename=\"$DOCKERFILE\" \\"
    ∷ codes "  \"$@\""
    ∷ []

abbrev collect_script : List Text
collect_script =
    codes "status=$?"
    ∷ codes "touch /workspace/.dockube-build-complete"
    ∷ codes "while [ ! -f /workspace/.dockube-result-collected ]; do sleep 0.1; done"
    ∷ codes "exit \"$status\""
    ∷ []

unfoldable pub build_command_script : Bool → Text
build_command_script collect_result =
    if collect_result
    then lines (
        wait_script
        ++ (codes "set +e" ∷ codes "buildctl-daemonless.sh build \\" ∷ frontend_script
            ++ collect_script))
    else lines (wait_script ++ codes "exec buildctl-daemonless.sh build \\" ∷ frontend_script)

unfoldable pub build_resources : ResourceRequirements
build_resources = record {
  requests =
      (codes "cpu", parsed (codes "250m"))
      ∷ (codes "memory", parsed (codes "256Mi"))
      ∷ (codes "ephemeral-storage", parsed (codes "1Gi"))
      ∷ [];
  limits =
      (codes "cpu", parsed (codes "2"))
      ∷ (codes "memory", parsed (codes "2Gi"))
      ∷ (codes "ephemeral-storage", parsed (codes "10Gi"))
      ∷ [];
}

abbrev print_bool : Bool → Text
print_bool true = codes "true"
print_bool false = codes "false"

-- `deadline` is that the timeout is positive.
unfoldable pub build_debug_message : Text → Text → FrontendOptions → Bool → Bool → Text
build_debug_message name namespace options keep deadline =
    codes "dockube build debug: job="
    ++ (name
        ++ (codes " namespace="
            ++ (namespace
                ++ (codes " buildkit="
                    ++ (buildkit_image
                        ++ (codes " outputs="
                            ++ (print_nat (length options.outputs)
                                ++ (codes " named-contexts="
                                    ++ (print_nat (length options.named_contexts)
                                        ++ (codes " secrets="
                                            ++ (print_nat (length options.secrets)
                                                ++ (codes " ssh="
                                                    ++ (print_nat (length options.ssh)
                                                        ++ (codes " keep="
                                                            ++ (print_bool keep
                                                            ++ (codes " timeout-enabled="
                                                            ++ print_bool deadline))))))))))))))))

-- The parts of the Job that runBuild fills in; what is fixed stands here as constants.
pub record BuildJob : Type 0 where
  pub name : Text
  pub labels : Dict Text
  pub backoff_limit : ℕ
  pub pod_labels : Dict Text
  pub restart_policy : Text
  pub automount_service_account_token : Bool
  pub fs_group : ℕ
  pub container_name : Text
  pub image : Text
  pub command : List Text
  pub args : List Text
  pub env : List EnvVar
  pub volume_mounts : List VolumeMount
  pub resources : ResourceRequirements
  pub run_as_user : ℕ
  pub run_as_group : ℕ
  pub allow_privilege_escalation : Bool
  pub seccomp_profile : Text
  pub app_armor_profile : Text
  pub volumes : List Volume

abbrev pub needs_metadata : ResultOptions → Bool
needs_metadata r = r.quiet || not (is_nil r.iid_file) || not (is_nil r.metadata_file)

abbrev pub is_collected : BuildOutput → Bool
is_collected output = not (is_nil output.client_path)

abbrev pub collects : ResultOptions → FrontendOptions → Bool
collects r options = needs_metadata r || any is_collected options.outputs

-- The arguments behind the script, from the options.
unfoldable pub job_arguments : FrontendOptions → ResultOptions → List Text
job_arguments options r =
    build_frontend_arguments options
    ++ ((codes "--progress=" ++ (if r.progress == codes "quiet" then codes "plain" else r.progress))
        ∷ (if needs_metadata r
            then codes "--metadata-file" ∷ codes "/workspace/.dockube-metadata.json" ∷ []
            else []))

-- `suffix` is rand.String(8).
abbrev pub job_name : Text → Text
job_name suffix = codes "dockube-build-" ++ lower_ascii suffix

unfoldable pub build_job :
    Text → Text → RegistryOptions → FrontendOptions → ResultOptions → BuildJob
unfolding build_command_script build_resources job_arguments
build_job name dockerfile registry options r =
    let configuration = build_registry_configuration dockerfile registry in
    record {
      name = name;
      labels = (codes "app.kubernetes.io/managed-by", codes "dockube") ∷ [];
      backoff_limit = 0;
      pod_labels =
          (codes "app.kubernetes.io/managed-by", codes "dockube")
          ∷ (codes "dockube.io/build", name)
          ∷ [];
      restart_policy = codes "Never";
      automount_service_account_token = false;
      fs_group = 1000;
      container_name = codes "buildkit";
      image = buildkit_image;
      command = codes "/bin/sh" ∷ codes "-ec" ∷ [];
      args = build_command_script (collects r options) ∷ codes "--" ∷ job_arguments options r;
      env = configuration.env;
      volume_mounts = configuration.mounts;
      resources = build_resources;
      run_as_user = 1000;
      run_as_group = 1000;
      allow_privilege_escalation = true;
      seccomp_profile = codes "Unconfined";
      app_armor_profile = codes "Unconfined";
      volumes = configuration.volumes;
    }
