-- ===== src/Cli/Show.antt =====
-- humanDuration, displayStatus and the rows of dockube ps.
pub mod Laws
use docker_in_k8s.Common.{◌/◌, ◌*◌, ◌||◌, Bool, List, [], ◌∷◌, ◌++◌, ltb, if◌then◌else◌}
use docker_in_k8s.Common.Int.{ℤ, pos, negsuc}
use docker_in_k8s.Text.{Text, codes, ◌==◌, print_nat, print_int}
use docker_in_k8s.Result.{Result, ok, ◌>>=◌}
use docker_in_k8s.Api.Types.{ContainerStatus}
use docker_in_k8s.Api.Platform.{Platform}
use docker_in_k8s.Api.Container.{DockerContainer}
use docker_in_k8s.Api.Spec.{spec}
use docker_in_k8s.Api.Status.{status}

-- A duration is in nanoseconds.
unfoldable pub human_duration : ℤ → Text
human_duration (negsuc n) = codes "0 seconds ago"
human_duration (pos n) =
    if ltb n (60 * 1000000000)
    then print_nat (n / 1000000000) ++ codes " seconds ago"
    else if ltb n (3600 * 1000000000)
    then print_nat (n / (60 * 1000000000)) ++ codes " minutes ago"
    else print_nat (n / (3600 * 1000000000)) ++ codes " hours ago"

unfoldable pub display_status : ContainerStatus → Text
display_status st =
    if st.phase == []
    then codes "Created"
    else if st.phase == codes "Running"
    then codes "Up"
    else if st.phase == codes "Succeeded"
    then codes "Exited (0)"
    else if st.phase == codes "Failed"
    then (if st.has_exit_code
        then codes "Exited (" ++ print_int st.exit_code ++ codes ")"
        else codes "Failed")
    else st.phase

abbrev pub heading : List Text
heading =
    codes "CONTAINER ID" ∷ codes "IMAGE" ∷ codes "CREATED" ∷ codes "STATUS" ∷ codes "NAMES" ∷ []

-- `age` is the time since a creation timestamp.
module _ (p : Platform) (age : Text → ℤ) where
  unfoldable pub ps_row : DockerContainer → Result (List Text)
  unfolding human_duration display_status
  ps_row obj = do
    sp ← spec p.codecs obj
    ok (
        (status p.sha obj).id
        ∷ sp.image
        ∷ human_duration (age obj.creation_timestamp)
        ∷ display_status (status p.sha obj)
        ∷ obj.name
        ∷ [])

  -- The container has a row: all have one with --all, and else those that run.
  abbrev pub shown : Bool → DockerContainer → Bool
  shown all obj = all || (status p.sha obj).phase == codes "Running"

  unfoldable pub ps_rows : Bool → List DockerContainer → Result (List (List Text))
  ps_rows all [] = ok []
  ps_rows all (obj ∷ items) =
      let rest = ps_rows all items in
      let with_row = (do row ← ps_row obj; rows ← rest; ok (row ∷ rows)) in
      if shown all obj then with_row else rest
