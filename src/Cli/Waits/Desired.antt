-- ===== src/Cli/Waits/Desired.antt =====
-- The desired state that setDesiredState writes, as Spec reads it.
use docker_in_k8s.Common.{◌≡◌, ap, Bool, true, false, Option, none, some, is_nil, if◌then◌else◌}
use docker_in_k8s.Text.{Text, codes, ◌==◌}
use docker_in_k8s.Result.{Result, ok, err, message, ok-injective, err-ne-ok}
use docker_in_k8s.Api.Types.{ContainerSpec}
use docker_in_k8s.Api.Json.{text, JsonMap, nested_string, nested_string_slice}
use docker_in_k8s.Api.Container.{DockerContainer}
use docker_in_k8s.Api.Spec.{KubeCodecs, Extended, assemble, read_extended, spec}
use docker_in_k8s.Cli.Waits.{set_key, with_desired_state}

module _ (state : Text) (given : is_nil state ≡ false) where
  abbrev desired : JsonMap → JsonMap
  desired m = set_key (codes "desiredState") (text state) m

  assemble-desired :
      (m : JsonMap) (o : Option Extended) (sp : ContainerSpec)
      → assemble m o ≡ ok sp
      → assemble (desired m) o ≡ ok (record sp { desired_state = state })
  unfolding assemble set_key ◌==◌ nested_string_slice
  assemble-desired m none sp h = absurd (err-ne-ok h)
  assemble-desired m (some extended) sp h =
      rw given
        (ap (λ (x : ContainerSpec). ok (record x { desired_state = state })) (ok-injective h))

  -- The test of the image, with the rest of the reading.
  behind_image :
      (b : Bool) (r r' : Result ContainerSpec) (sp : ContainerSpec)
      → (r ≡ ok sp → r' ≡ ok (record sp { desired_state = state }))
      → (if b then err (message (codes "spec.image is required")) else r) ≡ ok sp
      → (if b then err (message (codes "spec.image is required")) else r')
        ≡ ok (record sp { desired_state = state })
  behind_image true r r' sp f h = absurd (err-ne-ok h)
  behind_image false r r' sp f h = f h

  -- A container whose spec can be read is read with the new desired state and otherwise
  -- unchanged, once setDesiredState has put a state that is not empty into it.
  pub spec-with_desired_state :
      (k : KubeCodecs) (obj : DockerContainer) (sp : ContainerSpec)
      → spec k obj ≡ ok sp
      → spec k (with_desired_state state obj) ≡ ok (record sp { desired_state = state })
  unfolding spec read_extended set_key ◌==◌
  spec-with_desired_state k obj sp =
      behind_image (is_nil (nested_string obj.spec (codes "image"))) _ _ sp
        (assemble-desired obj.spec (read_extended k obj.spec) sp)
