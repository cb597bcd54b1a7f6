-- ===== src/Api/Status/Laws.antt =====
-- What the commands read of a status that the controller wrote.
use docker_in_k8s.Common.{
  ◌≡◌, refl, Bool, false, ◌&&◌, Option, none, some, List, [], ◌∷◌, if◌then◌else◌, is_nil, arith,
}
use docker_in_k8s.Common.Int.{ℤ, pos}
use docker_in_k8s.Text.{Text, ◌==◌}
use docker_in_k8s.Api.Types.{Terminated, Pod}
use docker_in_k8s.Api.Ids.{container_id}
use docker_in_k8s.Api.Json.{nested_string, nested_int}
use docker_in_k8s.Api.Container.{DockerContainer}
use docker_in_k8s.Api.Status.{
  override, first_state, waiting_of, terminated_of, waiting_reason, terminated_reason, status_map,
  status, phase_map, or_zero, is_given, exit_code_of,
}

-- The first text of a list that is not empty.
abbrev pub first_given : List Text → Text
first_given [] = []
first_given ([] ∷ ts) = first_given ts
first_given ((c ∷ t) ∷ ts) = c ∷ t

-- How a container ended, if it did.
abbrev pub ending : Pod → Option Terminated
ending pod = terminated_of (first_state pod.status.container_statuses)

id_or : (id : Text) (b : Bool) → (if is_nil id && b then id else id) ≡ id
id_or id b = ground arith

override-first :
    (a b c : Text)
    → nested_string (λ k. override a (override b (override c none))) []
      ≡ first_given (a ∷ b ∷ c ∷ [])
override-first [] [] [] = refl
override-first [] [] (x ∷ c) = refl
override-first [] (x ∷ b) c = refl
override-first (x ∷ a) b c = refl

abbrev pub exit_code_or_zero : Option Terminated → ℤ
exit_code_or_zero none = pos 0
exit_code_or_zero (some t) = t.exit_code

exit_code_lem :
    (o : Option Terminated) → or_zero (nested_int (λ k. exit_code_of o) []) ≡ exit_code_or_zero o
exit_code_lem none = refl
exit_code_lem (some t) = refl

has_exit_code_lem :
    (o : Option Terminated) → is_given (nested_int (λ k. exit_code_of o) []) ≡ is_given o
has_exit_code_lem none = refl
has_exit_code_lem (some t) = refl

module _ (sha : Text → Text) (obj : DockerContainer) where
  -- Of the status written for a Pod the commands read back the container's ID, the Pod's phase
  -- and name, the most specific reason that is given, and the exit code of a container that has
  -- ended.
  pub status-status_map :
      (pod : Pod)
      → let st = status sha (record obj { status = status_map sha obj pod }) in
        let state = first_state pod.status.container_statuses in
        (st.id ≡ container_id sha obj.uid)
        × (st.phase ≡ pod.status.phase)
        × (st.pod_name ≡ pod.name)
        × (st.reason
            ≡ first_given (
                terminated_reason (ending pod)
                ∷ waiting_reason (waiting_of state)
                ∷ pod.status.reason
                ∷ []))
        × (st.exit_code ≡ exit_code_or_zero (ending pod))
        × (st.has_exit_code ≡ is_given (ending pod))
  unfolding status status_map ◌==◌
  status-status_map pod = (
    id_or _ _,
    refl,
    refl,
    override-first (terminated_reason (ending pod))
        (waiting_reason (waiting_of (first_state pod.status.container_statuses))) pod.status.reason,
    exit_code_lem (ending pod),
    has_exit_code_lem (ending pod),
  )

  -- Of the status written for a phase without a Pod the commands read back the container's ID and
  -- the phase, and neither a Pod nor an exit code.
  pub status-phase_map :
      (phase : Text)
      → let st = status sha (record obj { status = phase_map sha obj phase }) in
        (st.id ≡ container_id sha obj.uid)
        × (st.phase ≡ phase)
        × (st.pod_name ≡ [])
        × (st.has_exit_code ≡ false)
  unfolding status phase_map ◌==◌
  status-phase_map phase = (id_or _ _, refl, refl, refl)
