-- ===== src/Tests/Builds.antt =====
-- The outputs, credentials, attestations and arguments of a build.
use docker_in_k8s.Common.{
  ◌≡◌, refl, ◌+◌, true, false, none, some, List, [], ◌∷◌, All, Distinct, length, map, any, arith,
  if◌then◌else◌,
}
use docker_in_k8s.Text.{Text, codes, ◌==◌, is_one_of, cut, split, join, contains_char}
use docker_in_k8s.Dicts.{insert, lookup, text_at}
use docker_in_k8s.Result.{ok, traverse, Pairwise}
use docker_in_k8s.Build.Repeats.{each_once}
use docker_in_k8s.Build.Outputs.{
  BuildOutput, registry_output, file_output, read_attributes, destination_of, output_of,
  parse_output, parse_outputs, normalize_build_outputs,
}
use docker_in_k8s.Build.Outputs.Laws.{IsOutput, collected_paths, normalize_build_outputs-Outputs}
use docker_in_k8s.Build.Credentials.{
  regular, Host, Credential, is_id, read_fields, first_given, secret_type, load_file, load_secret,
  checked_secret, parse_secret, parse_build_secrets,
}
use docker_in_k8s.Build.Credentials.Laws.{AreCredentials, parse_build_secrets-AreCredentials}
use docker_in_k8s.Build.Frontend.{FrontendOptions, build_frontend_arguments}
use docker_in_k8s.Build.Frontend.Laws.{build_frontend_arguments_of_ids}
use docker_in_k8s.Build.Registry.{RegistryOptions, build_registry_configuration}
use docker_in_k8s.Build.Registry.Laws.{AreMounted, build_registry_configuration-mounts}
use docker_in_k8s.Build.Annotations.{
  locate_annotation, parse_annotation, annotate, annotate_all, apply_build_annotations,
}
use docker_in_k8s.Build.Annotations.Laws.{
  IsAnnotation, image_kinds, IsAnnotated, IsRefused, parse_annotation_of_colon,
  apply_build_annotations-outputs,
}

abbrev tags : List Text
tags = codes "example.org/shop" ∷ []

abbrev outputs : List BuildOutput
outputs =
    registry_output (codes "example.org/shop") false
    ∷ file_output 0 (codes "oci") (codes "shop.tar")
    ∷ file_output 1 (codes "local") (codes "out")
    ∷ []

abbrev output_values : List Text
output_values = codes "type=oci,dest=shop.tar" ∷ codes "type=local,dest=out" ∷ []

normalize_build_outputs-Outputs_example :
    (All (IsOutput false 0) outputs × Distinct (collected_paths outputs))
    × (length outputs ≡ length output_values + 1)
normalize_build_outputs-Outputs_example =
    normalize_build_outputs-Outputs tags false output_values true false outputs accepted
  where
    accepted : normalize_build_outputs output_values true tags false false ≡ ok outputs
    accepted =
        unfold normalize_build_outputs parse_outputs parse_output output_of read_attributes
          destination_of text_at lookup insert split cut join is_one_of ◌==◌ in
        refl

abbrev attestations : List Text
attestations = codes "attest:provenance=mode=max" ∷ codes "attest:sbom=" ∷ []

-- A host with a token in the environment, on which every file is regular and empty.
abbrev host : Host
host = record {
  lookup_env = λ n. if n == codes "TOKEN" then some (codes "s3cret") else none;
  read_file = λ path. ok [];
  stat = λ path. ok regular;
  absolute = λ path. b'/' ∷ path;
}

abbrev secrets : List Credential
secrets =
    record { id = codes "TOKEN"; contents = codes "s3cret"; source = [] }
    ∷ record { id = codes "npmrc"; contents = []; source = codes "/.npmrc" }
    ∷ []

parse_build_secrets-AreCredentials_example :
    AreCredentials (codes "id=TOKEN" ∷ codes "id=npmrc,src=.npmrc" ∷ []) secrets
parse_build_secrets-AreCredentials_example =
    parse_build_secrets-AreCredentials host (codes "id=TOKEN" ∷ codes "id=npmrc,src=.npmrc" ∷ [])
      secrets accepted
  where
    accepted :
        parse_build_secrets host (codes "id=TOKEN" ∷ codes "id=npmrc,src=.npmrc" ∷ []) ≡ ok secrets
    accepted =
        unfold parse_build_secrets each_once parse_secret checked_secret load_secret load_file
          secret_type first_given read_fields is_id is_one_of text_at lookup insert split cut
          ◌==◌ in
        refl

abbrev keys : List Credential
keys = record { id = codes "default"; contents = []; source = codes "/id_rsa" } ∷ []

abbrev frontend : FrontendOptions
frontend = record {
  build_args = codes "VERSION=1" ∷ [];
  target = codes "release";
  labels = [];
  platforms = codes "linux/amd64" ∷ [];
  no_cache = true;
  no_cache_filter = [];
  pull = false;
  cache_from = [];
  cache_to = [];
  secrets = secrets;
  ssh = keys;
  network = codes "none";
  add_hosts = [];
  shm_size = 64;
  named_contexts = codes "base" ∷ [];
  outputs = outputs;
  attests = attestations;
  call = codes "build";
  debug = false;
}

-- The same ids with nothing in them.
abbrev blank : Text → Credential
blank id = record { id = id; contents = []; source = [] }

build_frontend_arguments_of_ids_example :
    build_frontend_arguments (record frontend {
      secrets = blank (codes "TOKEN") ∷ blank (codes "npmrc") ∷ [];
      ssh = blank (codes "default") ∷ [];
    })
    ≡ build_frontend_arguments frontend
build_frontend_arguments_of_ids_example =
    build_frontend_arguments_of_ids frontend (blank (codes "TOKEN") ∷ blank (codes "npmrc") ∷ [])
      (blank (codes "default") ∷ []) refl refl

abbrev registry : RegistryOptions
registry = record {
  auth_secret = codes "registry";
  ca_secret = codes "ca";
  cache_pvc = codes "cache";
  secrets = true;
}

build_registry_configuration-mounts_example :
    AreMounted (build_registry_configuration (codes "Dockerfile") registry)
build_registry_configuration-mounts_example =
    build_registry_configuration-mounts (codes "Dockerfile") registry

parse_annotation_of_colon_example :
    IsRefused (parse_annotation (codes "org.opencontainers.image.url=https://example.org/"))
parse_annotation_of_colon_example =
    parse_annotation_of_colon (codes "org.opencontainers.image.url") (codes "https")
      (codes "//example.org/") (ground arith) (ground arith)

abbrev annotated : List BuildOutput
annotated = map (annotate (codes "annotation.vendor=shop" ∷ [])) outputs

apply_build_annotations-outputs_example :
    (annotations : List Text) × Pairwise IsAnnotation (codes "vendor=shop" ∷ []) annotations
    × Pairwise (IsAnnotated annotations) outputs annotated
    × (any (λ (o : BuildOutput). is_one_of o.kind image_kinds) outputs ≡ true)
apply_build_annotations-outputs_example =
    apply_build_annotations-outputs outputs (codes "vendor=shop") [] annotated accepted
  where
    accepted : apply_build_annotations outputs (codes "vendor=shop" ∷ []) ≡ ok annotated
    accepted =
        unfold apply_build_annotations traverse parse_annotation locate_annotation annotate_all
          registry_output file_output is_one_of contains_char cut ◌==◌ in
        refl
