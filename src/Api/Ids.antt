-- ===== src/Api/Ids.antt =====
-- ContainerID and PodName. `sha` is the digest of crypto/sha256 as hexadecimal text. A container's
-- name is ASCII, since the API server admits no other, so its bytes are its characters.
pub mod Laws
use docker_in_k8s.Common.{ℕ, ◌-◌, ◌∷◌, ◌++◌, ltb, length, take, if◌then◌else◌}
use docker_in_k8s.Text.{Text, trim}
use docker_in_k8s.Compose.Names.{is_dash}

unfoldable pub container_id : (Text → Text) → Text → Text
container_id sha uid = take 12 (sha uid)

-- name[:max] of a longer name
unfoldable pub clip : ℕ → Text → Text
clip max name = if ltb max (length name) then take max name else name

unfoldable pub pod_name : (Text → Text) → Text → Text → Text
unfolding trim
pod_name sha container_name uid =
    let id = container_id sha uid in
    let name = trim is_dash container_name in
    let max_name = 63 - 1 - length id in clip max_name name ++ b'-' ∷ id
