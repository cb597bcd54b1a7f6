-- ===== src/Api/Spec/RoundTrip.antt =====
-- What SetSpec writes, Spec reads.
use docker_in_k8s.Common.{◌≡◌, refl, ◌∙◌, ap, false, Option, none, some, List, [], ◌∷◌, is_nil}
use docker_in_k8s.Text.{Text, codes, ◌==◌}
use docker_in_k8s.Result.{ok}
use docker_in_k8s.Api.Types.{ContainerSpec, Probe, ResourceRequirements}
use docker_in_k8s.Api.Json.{
  Json, null, text, Codec, IsCodec, write_list, read_list, write_map, read_map, read_field,
  read_field_of_not_null, read_field-write_list, read_field-write_map,
  nested_string_slice-write_list, nested_string,
}
use docker_in_k8s.Api.Container.{DockerContainer}
use docker_in_k8s.Api.Spec.{
  KubeCodecs, IsKubeCodecs, get, mount_codec, spec_map, read_extended, spec, set_spec, omit_empty,
  assemble, write_pointer, read_pointer, as_text,
}

mount_codec-IsCodec : IsCodec mount_codec
unfolding mount_codec get ◌==◌
mount_codec-IsCodec = record {
  round_trip = λ m. rw (read_field-write_map m.items);
  not_null = λ m e. cc;
}

list_field {ℓ} :
    {A : Type ℓ} {c : Codec A}
    → IsCodec c
    → (l : List A) → read_field (read_list c) [] (omit_empty (is_nil l) (write_list c l)) ≡ some l
list_field h [] = refl
list_field h (a ∷ l) = read_field-write_list h (a ∷ l)

text_field : (t : Text) → read_field as_text [] (omit_empty (is_nil t) (text t)) ≡ some t
text_field [] = refl
text_field (c ∷ t) = refl

map_field :
    (m : List (Text × Text)) → read_field read_map [] (omit_empty (is_nil m) (write_map m)) ≡ some m
map_field [] = refl
map_field (e ∷ m) = read_field-write_map (e ∷ m)

read_pointer_of :
    {c : Codec Probe}
    → IsCodec c
    → (p : Probe) (j : Json) → c.encode p ≡ j
    → read_pointer c (some j) ≡ some (some p)
read_pointer_of h p null e = absurd (h.not_null p e)
read_pointer_of h p (Json.bool b) e = rw (← e) (rw (h.round_trip p))
read_pointer_of h p (Json.int b) e = rw (← e) (rw (h.round_trip p))
read_pointer_of h p (Json.text b) e = rw (← e) (rw (h.round_trip p))
read_pointer_of h p (Json.array b) e = rw (← e) (rw (h.round_trip p))
read_pointer_of h p (Json.object b) e = rw (← e) (rw (h.round_trip p))

pointer_field :
    {c : Codec Probe} → IsCodec c → (o : Option Probe) → read_pointer c (write_pointer c o) ≡ some o
pointer_field h none = refl
pointer_field h (some p) = read_pointer_of h p _ refl

-- A spec as the JSON of its resource has it: the quantities are in their canonical form.
abbrev pub canonical_spec : {k : KubeCodecs} → IsKubeCodecs k → ContainerSpec → ContainerSpec
canonical_spec h s = record s { resources = h.canonical s.resources }

module _ {k : KubeCodecs} (h : IsKubeCodecs k) (s : ContainerSpec) where
  resources_field :
      (zero : ResourceRequirements)
      → read_field k.resources.decode zero (some (k.resources.encode s.resources))
        ≡ some (h.canonical s.resources)
  resources_field zero =
      read_field_of_not_null k.resources.decode zero (k.resources.encode s.resources)
        (h.resources_not_null s.resources)
      ∙ h.resources s.resources

  read_extended-spec_map :
      read_extended k (spec_map k s)
      ≡ some (record {
        env = s.env;
        working_dir = s.working_dir;
        ports = s.ports;
        mounts = s.mounts;
        resources = h.canonical s.resources;
        readiness = s.readiness;
        liveness = s.liveness;
        startup = s.startup;
        labels = s.labels;
      })
  unfolding read_extended spec_map ◌==◌
  read_extended-spec_map =
      rw (list_field h.env_var s.env, text_field s.working_dir, list_field h.container_port s.ports)
        (rw (list_field mount_codec-IsCodec s.mounts, resources_field _)
          (rw (pointer_field h.probe s.readiness) (
            rw (pointer_field h.probe s.liveness)
              (rw (pointer_field h.probe s.startup) (rw (map_field s.labels))))))

  assemble-spec_map :
      is_nil s.desired_state ≡ false
      → assemble (spec_map k s) (
          some (record {
            env = s.env;
            working_dir = s.working_dir;
            ports = s.ports;
            mounts = s.mounts;
            resources = h.canonical s.resources;
            readiness = s.readiness;
            liveness = s.liveness;
            startup = s.startup;
            labels = s.labels;
          }))
        ≡ ok (canonical_spec h s)
  unfolding assemble spec_map ◌==◌
  assemble-spec_map state =
      rw
        (
          nested_string_slice-write_list (spec_map k s) (codes "command") s.command refl,
          nested_string_slice-write_list (spec_map k s) (codes "args") s.args refl,
        )
        (rw state)

  spec-unfold :
      (obj : DockerContainer)
      → is_nil (nested_string obj.spec (codes "image")) ≡ false
      → spec k obj ≡ assemble obj.spec (read_extended k obj.spec)
  unfolding spec
  spec-unfold obj e = rw e

  image_of : is_nil s.image ≡ false → is_nil (nested_string (spec_map k s) (codes "image")) ≡ false
  unfolding spec_map ◌==◌
  image_of e = e

  -- A spec with an image and a desired state that is set on an object is read back with the
  -- quantities of its resources in canonical form and nothing else changed, if the JSON codecs of
  -- the Kubernetes types round-trip but for that form.
  pub spec-set_spec :
      (obj : DockerContainer)
      → is_nil s.image ≡ false
      → is_nil s.desired_state ≡ false
      → spec k (set_spec k obj s) ≡ ok (canonical_spec h s)
  unfolding set_spec
  spec-set_spec obj image state =
      spec-unfold (record obj { spec = spec_map k s }) (image_of image)
      ∙ ap (assemble (spec_map k s)) read_extended-spec_map
      ∙ assemble-spec_map state
