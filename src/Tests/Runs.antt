-- ===== src/Tests/Runs.antt =====
-- A request of dockube build.
use docker_in_k8s.Common.{◌≡◌, refl, true, false, none, [], ◌∷◌}
use docker_in_k8s.Text.{codes, ◌==◌, is_one_of, cut, trim_prefix, skip, split, join, has_prefix}
use docker_in_k8s.Result.{ok}
use docker_in_k8s.Text.{
  trim, trim_left, trim_right, trim_space, is_space, contains_any, contains_char,
}
use docker_in_k8s.Dicts.{insert, lookup, text_at}
use docker_in_k8s.Result.{traverse}
use docker_in_k8s.Build.Repeats.{each_once}
use docker_in_k8s.Build.Options.{
  ResultOptions, normalize_shm_size, normalize_build_network, normalize_build_result_options,
  normalize_build_call, normalize_build_args, normalize_comma_separated, trimmed_parts,
}
use docker_in_k8s.Build.Hosts.{normalize_build_hosts, normalize_build_host, checked_host, cut_host}
use docker_in_k8s.Build.Cache.{normalize_cache_entries}
use docker_in_k8s.Build.Outputs.{registry_output, parse_outputs, normalize_build_outputs}
use docker_in_k8s.Build.Annotations.{apply_build_annotations}
use docker_in_k8s.Build.Attests.{provenance_values, sbom_values, normalize_build_attests}
use docker_in_k8s.Build.Credentials.{
  FileMode, Host, Credential, is_id, read_fields, first_given, secret_type, load_file, load_secret,
  checked_secret, parse_secret, parse_build_secrets, parse_build_ssh,
}
use docker_in_k8s.Build.Frontend.{FrontendOptions}
use docker_in_k8s.Build.Context.{PreparedContext, exclude_build_credential_sources}
use docker_in_k8s.Build.Inputs.{parse_named_build_contexts}
use docker_in_k8s.Build.Run.{Request}
use docker_in_k8s.Build.Command.{Flags, Setting, refuse_flags, build_request}
use docker_in_k8s.Build.Command.Laws.{IsGuarded, build_request-IsGuarded}

-- A machine with one file, below the context.
abbrev host : Host
host = record {
  lookup_env = λ n. none;
  read_file = λ path. ok (1 ∷ 2 ∷ []);
  stat = λ path. ok FileMode.regular;
  absolute = λ path. path;
}

abbrev prepared : PreparedContext
prepared = record {
  root = codes "/src";
  dockerfile = codes "Dockerfile";
  ignore_path = [];
  dockerfile_source = [];
  patterns = [];
  excluded_paths = [];
}

abbrev setting : Setting
setting = record {
  os = host;
  getenv = λ n. [];
  ram_in_bytes = λ t. none;
  is_ip = λ t. true;
  prepare_input = λ path dockerfile changed. ok prepared;
  prepare_named = λ source. ok prepared;
}

-- dockube build --push -t example.org/shop --secret id=TOKEN,src=/src/token --add-host db=10.0.0.7 .
abbrev flags : Flags
flags = record {
  path = codes ".";
  tags = codes "example.org/shop" ∷ [];
  dockerfile = codes "Dockerfile";
  file_changed = false;
  build_args = [];
  target = [];
  labels = [];
  platforms = [];
  no_cache = false;
  no_cache_filter = [];
  pull = false;
  cache_from = [];
  cache_to = [];
  cache_pvc = [];
  secrets = codes "id=TOKEN,src=/src/token" ∷ [];
  ssh = [];
  network = codes "none";
  add_hosts = codes "db=10.0.0.7" ∷ [];
  allows = [];
  cgroup_parent = [];
  load = false;
  builder = [];
  policy = [];
  isolation = [];
  security_opts = [];
  squash = false;
  resources = [];
  shm_size = [];
  ulimits = [];
  build_contexts = [];
  outputs = [];
  annotations = [];
  attests = [];
  provenance = [];
  sbom = [];
  call = codes "build";
  check = false;
  debug = true;
  progress = codes "auto";
  quiet = false;
  iid_file = [];
  metadata_file = [];
  build_namespace = [];
  deadline = false;
  keep = false;
  push = true;
  registry_insecure = false;
  registry_secret = [];
  registry_ca_secret = [];
}

abbrev results : ResultOptions
results = record { progress = codes "plain"; quiet = false; iid_file = []; metadata_file = [] }

abbrev token : Credential
token = record { id = codes "TOKEN"; contents = 1 ∷ 2 ∷ []; source = codes "/src/token" }

abbrev options : FrontendOptions
options = record {
  build_args = [];
  target = [];
  labels = [];
  platforms = [];
  no_cache = false;
  no_cache_filter = [];
  pull = false;
  cache_from = [];
  cache_to = [];
  secrets = token ∷ [];
  ssh = [];
  network = codes "none";
  add_hosts = codes "db=10.0.0.7" ∷ [];
  shm_size = 0;
  named_contexts = [];
  outputs = registry_output (codes "example.org/shop") false ∷ [];
  attests = [];
  call = codes "build";
  debug = true;
}

abbrev pub request : Request PreparedContext
request = record {
  namespace = codes "default";
  images = codes "example.org/shop" ∷ [];
  main = exclude_build_credential_sources prepared (token ∷ []) [];
  dockerfile = codes "Dockerfile";
  named = [];
  registry = record { auth_secret = []; ca_secret = []; cache_pvc = []; secrets = true };
  options = options;
  results = results;
  deadline = false;
  keep = false;
}

build_request-IsGuarded_example : IsGuarded setting flags request
build_request-IsGuarded_example =
    build_request-IsGuarded setting (codes "default") flags request accepted
  where
    accepted : build_request setting (codes "default") flags ≡ ok request
    accepted =
        unfold build_request refuse_flags normalize_shm_size normalize_build_network
          normalize_build_hosts normalize_build_host checked_host cut_host
          normalize_build_result_options normalize_build_call normalize_build_outputs parse_outputs
          registry_output apply_build_annotations normalize_build_attests provenance_values
          sbom_values parse_build_secrets parse_build_ssh each_once parse_secret checked_secret
          load_secret load_file read_fields first_given secret_type is_id insert lookup text_at
          parse_named_build_contexts normalize_cache_entries traverse normalize_build_args
          normalize_comma_separated trimmed_parts trim_space trim trim_left trim_right is_space
          contains_any contains_char cut split join trim_prefix has_prefix skip is_one_of ◌==◌ in
        refl
