-- ===== src/Tests/Concrete.antt =====
-- A platform: a digest that is always zero, ASCII lower case, and codecs of the Kubernetes types.
use docker_in_k8s.Common.{
  ℕ, zero, suc, ◌+◌, eqb, ◌≡◌, refl, true, false, ◌&&◌, Option, none, some, List, [], ◌∷◌, arith,
  leb, if◌then◌else◌, is_nil,
}
use docker_in_k8s.Common.Int.{ℤ, pos}
use docker_in_k8s.Text.{Text, codes, ◌==◌, print_nat}
use docker_in_k8s.Dicts.{Dict}
use docker_in_k8s.Compose.Names.{is_label_char}
use docker_in_k8s.Compose.Names.Labels.{IsDigest, IsLower}
use docker_in_k8s.Api.Types.{
  EnvVar, ContainerPort, Quantity, parsed, binary_si, ResourceRequirements, Probe, ContainerSpec,
}
use docker_in_k8s.Api.Json.{int, text, array, object, Items, nil, cons, Fields, end, field, Codec}
use docker_in_k8s.Api.Container.{DockerContainer}
use docker_in_k8s.Result.{ok}
use docker_in_k8s.Api.Spec.{KubeCodecs, IsKubeCodecs, spec_map, spec, set_spec}
use docker_in_k8s.Api.Spec.RoundTrip.{spec-set_spec}
use docker_in_k8s.Api.Platform.{Platform, IsPlatform}

abbrev zeros : ℕ → Text
zeros zero = []
zeros (suc n) = b'0' ∷ zeros n

abbrev pub zero_digest : Text → Text
zero_digest t = zeros 64

pub zero_digest-IsDigest : IsDigest zero_digest
zero_digest-IsDigest = record { sized = λ t. refl; hex = λ t. ground arith }

abbrev pub ascii_lower : ℕ → ℕ
ascii_lower c = if leb b'A' c && leb c b'Z' then c + 32 else c

ascii_lower_fixed : (c : ℕ) → is_label_char c ≡ true → ascii_lower c ≡ c
unfolding is_label_char
ascii_lower_fixed c h = ground arith

pub ascii_lower-IsLower : IsLower ascii_lower
ascii_lower-IsLower = record { fixed = ascii_lower_fixed }

abbrev env_var_codec : Codec EnvVar
env_var_codec = record {
  encode =
      λ e. object (field (codes "name") (text e.name) (field (codes "value") (text e.value) end));
  decode = λ j. elim j [
    | object (field _ (text n) (field _ (text v) end)) ↦ some (record { name = n; value = v })
    | _ ↦ none
  ];
}

abbrev port_codec : Codec ContainerPort
port_codec = record {
  encode = λ p. object (
      field (codes "name") (text p.name) (
        field (codes "containerPort") (int p.container_port)
          (field (codes "protocol") (text p.protocol) end)));
  decode = λ j. elim j [
    | object (field _ (text n) (field _ (int c) (field _ (text q) end))) ↦
        some (record { name = n; container_port = c; protocol = q })
    | _ ↦ none
  ];
}

-- Two values have their canonical form, as the server has it, and all others are left.
abbrev quantity_text : Quantity → Text
quantity_text (parsed t) = if t == codes "0.5" then codes "500m" else t
quantity_text (binary_si n) = if eqb n 1048576 then codes "1Mi" else print_nat n

abbrev canonical_quantities : Dict Quantity → Dict Quantity
canonical_quantities [] = []
canonical_quantities ((k, q) ∷ m) = (k, parsed (quantity_text q)) ∷ canonical_quantities m

abbrev add_quantity : Text → Quantity → Option (Dict Quantity) → Option (Dict Quantity)
add_quantity k q none = none
add_quantity k q (some m) = some ((k, q) ∷ m)

unfoldable pub write_quantities : Dict Quantity → Fields
write_quantities [] = end
write_quantities ((k, q) ∷ m) = field k (text (quantity_text q)) (write_quantities m)

unfoldable pub read_quantities : Fields → Option (Dict Quantity)
read_quantities end = some []
read_quantities (field k (text t) fs) = add_quantity k (parsed t) (read_quantities fs)
read_quantities (field k _ fs) = none

pub read_quantities-write_quantities :
    (m : Dict Quantity) → read_quantities (write_quantities m) ≡ some (canonical_quantities m)
unfolding read_quantities write_quantities
read_quantities-write_quantities [] = refl
read_quantities-write_quantities ((k, q) ∷ m) = rw (read_quantities-write_quantities m) refl

abbrev both : Option (Dict Quantity) → Option (Dict Quantity) → Option ResourceRequirements
both (some l) (some r) = some (record { limits = l; requests = r })
both _ _ = none

abbrev resources_codec : Codec ResourceRequirements
resources_codec = record {
  encode = λ r. object (
      field (codes "limits") (object (write_quantities r.limits))
        (field (codes "requests") (object (write_quantities r.requests)) end));
  decode = λ j. elim j [
    | object (field _ (object l) (field _ (object r) end)) ↦
        both (read_quantities l) (read_quantities r)
    | _ ↦ none
  ];
}

unfoldable pub write_words : List Text → Items
write_words [] = nil
write_words (t ∷ ts) = cons (text t) (write_words ts)

abbrev add_word : Text → Option (List Text) → Option (List Text)
add_word t none = none
add_word t (some ts) = some (t ∷ ts)

unfoldable pub read_words : Items → Option (List Text)
read_words nil = some []
read_words (cons (text t) js) = add_word t (read_words js)
read_words (cons _ js) = none

pub read_words-write_words : (ts : List Text) → read_words (write_words ts) ≡ some ts
unfolding read_words write_words
read_words-write_words [] = refl
read_words-write_words (t ∷ ts) = rw (read_words-write_words ts) refl

abbrev probe_of : Option (List Text) → ℤ → ℤ → ℤ → ℤ → Option Probe
probe_of none a b c d = none
probe_of (some ts) a b c d = some (record {
  command = ts;
  timeout_seconds = a;
  period_seconds = b;
  failure_threshold = c;
  initial_delay_seconds = d;
})

abbrev probe_codec : Codec Probe
probe_codec = record {
  encode = λ p. array (
      cons (array (write_words p.command)) (
        cons (int p.timeout_seconds) (
          cons (int p.period_seconds)
            (cons (int p.failure_threshold) (cons (int p.initial_delay_seconds) nil)))));
  decode = λ j. elim j [
    | array (cons (array ts) (cons (int a) (cons (int b) (cons (int c) (cons (int d) nil))))) ↦
        probe_of (read_words ts) a b c d
    | _ ↦ none
  ];
}

abbrev pub codecs : KubeCodecs
codecs = record {
  env_var = env_var_codec;
  container_port = port_codec;
  resources = resources_codec;
  probe = probe_codec;
}

unfoldable pub codecs-IsKubeCodecs : IsKubeCodecs codecs
codecs-IsKubeCodecs = record {
  env_var = record { round_trip = λ e. refl; not_null = λ e h. cc };
  container_port = record { round_trip = λ p. refl; not_null = λ p h. cc };
  canonical = λ r. record {
    limits = canonical_quantities r.limits;
    requests = canonical_quantities r.requests;
  };
  resources = λ r.
      rw (read_quantities-write_quantities r.limits, read_quantities-write_quantities r.requests)
        refl;
  resources_not_null = λ r h. cc;
  canonical_lem = refl;
  probe = record {
    round_trip = λ p. rw (read_words-write_words p.command) refl;
    not_null = λ p h. cc;
  };
}

abbrev pub platform : Platform
platform = record {
  sha = zero_digest;
  lower = ascii_lower;
  marshal = λ s. s.image;
  codecs = codecs;
}

pub platform-IsPlatform : IsPlatform platform
platform-IsPlatform = record {
  sha = zero_digest-IsDigest;
  lower = ascii_lower-IsLower;
  codecs = codecs-IsKubeCodecs;
}

abbrev pub no_resources : ResourceRequirements
no_resources = record { limits = []; requests = [] }

-- A web server with a config and a volume.
abbrev pub web_spec : ContainerSpec
web_spec = record {
  image = codes "nginx:1.27";
  command = [];
  args = codes "-g" ∷ codes "daemon off;" ∷ [];
  desired_state = codes "Running";
  stdin = false;
  tty = false;
  env = record { name = codes "MODE"; value = codes "prod" } ∷ [];
  working_dir = codes "/srv";
  ports = record { name = codes "p80-tcp"; container_port = pos 80; protocol = codes "TCP" } ∷ [];
  mounts =
      record {
        name = codes "volume-0";
        type = codes "pvc";
        source = codes "shop-data";
        target = codes "/data";
        read_only = false;
        sub_path = [];
        items = [];
        content_hash = [];
      }
      ∷ record {
        name = codes "config-0";
        type = codes "configMap";
        source = codes "shop-config-site";
        target = codes "/etc/site";
        read_only = true;
        sub_path = codes "content";
        items = (codes "content", codes "content") ∷ [];
        content_hash = codes "abc";
      }
      ∷ [];
  resources = record {
    limits = (codes "memory", parsed (codes "1Mi")) ∷ [];
    requests = (codes "cpu", parsed (codes "500m")) ∷ [];
  };
  readiness = none;
  liveness = some (record {
    command = codes "true" ∷ [];
    timeout_seconds = pos 1;
    period_seconds = pos 30;
    failure_threshold = pos 3;
    initial_delay_seconds = pos 0;
  });
  startup = none;
  labels = (codes "dockube.io/compose-project", codes "shop") ∷ [];
}

abbrev pub web : DockerContainer
web = record {
  name = codes "shop-web";
  namespace = codes "default";
  uid = codes "uid-1";
  resource_version = codes "7";
  creation_timestamp = codes "2026-01-01T00:00:00Z";
  deleting = false;
  labels = [];
  finalizers = codes "dockube.io/container-cleanup" ∷ [];
  spec = spec_map codecs web_spec;
  status = λ k. none;
}

-- The quantities of the spec are canonical, so it is read as it was written, in whatever desired state.
pub spec-set_spec-web :
    (obj : DockerContainer) (state : Text)
    → is_nil state ≡ false
    → spec codecs (set_spec codecs obj (record web_spec { desired_state = state }))
      ≡ ok (record web_spec { desired_state = state })
unfolding ◌==◌ codecs-IsKubeCodecs
spec-set_spec-web obj state given =
    spec-set_spec codecs-IsKubeCodecs (record web_spec { desired_state = state }) obj refl given
