-- ===== src/Api/Ids/Laws.antt =====
-- Pod names fit a DNS label, and tell the containers' IDs apart.
use docker_in_k8s.Common.{
  ℕ, ◌-◌, ◌≤◌, ◌≡◌, ap, [], ◌∷◌, ◌++◌, arith, length, length-append, length-take,
}
use docker_in_k8s.Text.{Text, trim}
use docker_in_k8s.Compose.Names.{is_dash}
use docker_in_k8s.Compose.Names.Labels.{IsDigest}
use docker_in_k8s.Api.Ids.{container_id, clip, pod_name}

length-container_id :
    {sha : Text → Text} → IsDigest sha → (uid : Text) → length (container_id sha uid) ≡ 12
unfolding container_id
length-container_id {sha} d uid = omega (arith, length-take 12 (sha uid), d.sized uid)

-- Texts with ends of one length that are equal have equal ends.
ends_eq : (s s' t t' : Text) → length t ≡ length t' → s ++ t ≡ s' ++ t' → t ≡ t'
ends_eq [] [] t t' h e = e
ends_eq [] (c ∷ s') t t' h e = absurd (omega (arith, ap length e, length-append s' t'))
ends_eq (c ∷ s) [] t t' h e = absurd (omega (arith, ap length e, length-append s t))
ends_eq (c ∷ s) (c' ∷ s') t t' h e = ends_eq s s' t t' h (cc)

length-clip : (max : ℕ) (name : Text) → length (clip max name) ≤ max
unfolding clip
length-clip max name = ground (arith, length-take max name)

module _ {sha : Text → Text} (d : IsDigest sha) where
  -- A Pod's name has at most 63 characters, whatever the container's name, if the digest has 64
  -- digits.
  pub length-pod_name : (name uid : Text) → length (pod_name sha name uid) ≤ 63
  unfolding pod_name
  length-pod_name name uid = omega (
    arith,
    length-append (clip (63 - 1 - length (container_id sha uid)) (trim is_dash name))
        (b'-' ∷ container_id sha uid),
    length-clip (63 - 1 - length (container_id sha uid)) (trim is_dash name),
    length-container_id d uid,
  )

  -- Containers whose Pods have one name have one ID, if the digest has 64 digits.
  pub container_id_of_pod_name :
      (name name' uid uid' : Text)
      → pod_name sha name uid ≡ pod_name sha name' uid'
      → container_id sha uid ≡ container_id sha uid'
  unfolding pod_name
  container_id_of_pod_name name name' uid uid' e =
      tail_eq
        (ends_eq _ _ _ _ (omega (arith, length-container_id d uid, length-container_id d uid')) e)
    where
      tail_eq : {s t : Text} → b'-' ∷ s ≡ b'-' ∷ t → s ≡ t
      tail_eq e = cc
