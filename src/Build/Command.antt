-- ===== src/Build/Command.antt =====
-- The body of newBuildCommand: the flags that are refused, and the request that the others make.
pub mod Laws
use docker_in_k8s.Common.{
  ℕ, ◌+◌, ◌||◌, ◌&&◌, not, Bool, true, false, Option, List, [], ◌∷◌, ◌++◌, map, length, is_nil, ltb,
  if◌then◌else◌,
}
use docker_in_k8s.Text.{Text, codes, ◌==◌}
use docker_in_k8s.Result.{Result, ok, err, Error, message, ◌>>=◌, ◌>>◌}
use docker_in_k8s.Build.Options.{
  ResultOptions, normalize_build_result_options, normalize_build_args, normalize_comma_separated,
  normalize_build_network, normalize_shm_size, normalize_build_call,
}
use docker_in_k8s.Build.Hosts.{normalize_build_hosts}
use docker_in_k8s.Build.Cache.{normalize_cache_entries}
use docker_in_k8s.Build.Outputs.{BuildOutput, normalize_build_outputs}
use docker_in_k8s.Build.Annotations.{apply_build_annotations}
use docker_in_k8s.Build.Attests.{normalize_build_attests}
use docker_in_k8s.Build.Credentials.{Host, Credential, parse_build_secrets, parse_build_ssh}
use docker_in_k8s.Build.Registry.{RegistryOptions}
use docker_in_k8s.Build.Frontend.{FrontendOptions}
use docker_in_k8s.Build.Context.{PreparedContext, exclude_build_credential_sources}
use docker_in_k8s.Build.Inputs.{parse_named_build_contexts}
use docker_in_k8s.Build.Run.{Request}

-- The flags and the argument of the command. `file_changed` is that --file is given, `deadline` that the
-- timeout is positive.
pub record Flags : Type 0 where
  pub path : Text
  pub tags : List Text
  pub dockerfile : Text
  pub file_changed : Bool
  pub build_args : List Text
  pub target : Text
  pub labels : List Text
  pub platforms : List Text
  pub no_cache : Bool
  pub no_cache_filter : List Text
  pub pull : Bool
  pub cache_from : List Text
  pub cache_to : List Text
  pub cache_pvc : Text
  pub secrets : List Text
  pub ssh : List Text
  pub network : Text
  pub add_hosts : List Text
  pub allows : List Text
  pub cgroup_parent : Text
  pub load : Bool
  pub builder : Text
  pub policy : Text
  pub isolation : Text
  pub security_opts : List Text
  pub squash : Bool
  pub resources : List Text
  pub shm_size : Text
  pub ulimits : List Text
  pub build_contexts : List Text
  pub outputs : List Text
  pub annotations : List Text
  pub attests : List Text
  pub provenance : Text
  pub sbom : Text
  pub call : Text
  pub check : Bool
  pub debug : Bool
  pub progress : Text
  pub quiet : Bool
  pub iid_file : Text
  pub metadata_file : Text
  pub build_namespace : Text
  pub deadline : Bool
  pub keep : Bool
  pub push : Bool
  pub registry_insecure : Bool
  pub registry_secret : Text
  pub registry_ca_secret : Text

abbrev pub refuse : Bool → Text → Result (Unit {0})
refuse true text = err (message text)
refuse false text = ok tt

-- The flags that ask for what no build is given.
unfoldable pub refuse_flags : Flags → Result (Unit {0})
refuse_flags f = do
  refuse (not (is_nil f.allows)) (codes "--allow is disabled")
  refuse (not (is_nil f.cgroup_parent)) (codes "--cgroup-parent is unsupported")
  refuse f.load
      (codes "--load is unsupported: dockube has no Docker Engine image store; use --push")
  refuse (not (is_nil f.builder) && not (f.builder == codes "default"))
      (codes "--builder is unsupported")
  refuse (not (is_nil f.policy)) (codes "--policy is unsupported")
  refuse (not (is_nil f.isolation) || not (is_nil f.security_opts) || f.squash)
      (codes "--isolation, --security-opt, and --squash are unsupported")
  refuse (not (is_nil f.resources)) (codes "--resource is unsupported")
  refuse (not (is_nil f.ulimits)) (codes "--ulimit is unsupported")

-- The environment of the command: the operating system, os.Getenv, units.RAMInBytes, the test of IP
-- literals, and the preparation of the two kinds of context.
pub record Setting : Type 0 where
  pub os : Host
  pub getenv : Text → Text
  pub ram_in_bytes : Text → Option ℕ
  pub is_ip : Text → Bool
  pub prepare_input : Text → Text → Bool → Result PreparedContext
  pub prepare_named : Text → Result PreparedContext

unfoldable pub build_request : Setting → Text → Flags → Result (Request PreparedContext)
unfolding refuse_flags
build_request e namespace f = do
  refuse_flags f
  shm ← normalize_shm_size e.ram_in_bytes f.shm_size
  network ← normalize_build_network f.network
  hosts ← normalize_build_hosts e.is_ip f.add_hosts
  results ← normalize_build_result_options f.progress f.quiet f.iid_file f.metadata_file
  call ← normalize_build_call f.call f.check
  plain ←
      normalize_build_outputs f.outputs f.push f.tags f.registry_insecure
        (not (call == codes "build"))
  outputs ← apply_build_annotations plain f.annotations
  attests ← normalize_build_attests f.attests f.provenance f.sbom
  secrets ← parse_build_secrets e.os f.secrets
  ssh ← parse_build_ssh e.os f.ssh
  named ← parse_named_build_contexts e.prepare_named f.build_contexts
  prepared ← e.prepare_input f.path f.dockerfile f.file_changed
  cache_from ← normalize_cache_entries f.cache_from f.registry_insecure false
  cache_to ← normalize_cache_entries f.cache_to f.registry_insecure true
  ok (record {
    namespace = if is_nil f.build_namespace then namespace else f.build_namespace;
    images = f.tags;
    main = exclude_build_credential_sources prepared secrets ssh;
    dockerfile = prepared.dockerfile;
    named = named;
    registry = record {
      auth_secret = f.registry_secret;
      ca_secret = f.registry_ca_secret;
      cache_pvc = f.cache_pvc;
      secrets = ltb 0 (length secrets + length ssh);
    };
    options = record {
      build_args = normalize_build_args e.getenv f.build_args;
      target = f.target;
      labels = f.labels;
      platforms = normalize_comma_separated f.platforms;
      no_cache = f.no_cache;
      no_cache_filter = normalize_comma_separated f.no_cache_filter;
      pull = f.pull;
      cache_from = cache_from;
      cache_to = cache_to;
      secrets = secrets;
      ssh = ssh;
      network = network;
      add_hosts = hosts;
      shm_size = shm;
      named_contexts = map (λ (n : Text × PreparedContext). n.0) named;
      outputs = outputs;
      attests = attests;
      call = call;
      debug = f.debug;
    };
    results = results;
    deadline = f.deadline;
    keep = f.keep;
  })
