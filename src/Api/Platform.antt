-- ===== src/Api/Platform.antt =====
-- What the program calls of the libraries and cannot be read here: crypto/sha256 with encoding/hex,
-- unicode.ToLower, and encoding/json of a ContainerSpec and of the types of k8s.io/api.
use docker_in_k8s.Common.{ℕ}
use docker_in_k8s.Text.{Text}
use docker_in_k8s.Compose.Names.Labels.{IsDigest, IsLower}
use docker_in_k8s.Api.Types.{ContainerSpec}
use docker_in_k8s.Api.Spec.{KubeCodecs, IsKubeCodecs}

pub record Platform : Type 0 where
  pub sha : Text → Text
  pub lower : ℕ → ℕ
  pub marshal : ContainerSpec → Text
  pub codecs : KubeCodecs

pub record IsPlatform (p : Platform) : Type 0 where
  pub sha : IsDigest p.sha
  pub lower : IsLower p.lower
  pub codecs : IsKubeCodecs p.codecs
