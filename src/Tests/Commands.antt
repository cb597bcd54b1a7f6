-- ===== src/Tests/Commands.antt =====
-- Commands on a web server.
use docker_in_k8s.Common.{
  ℕ, suc, zero, ◌≤◌, ◌≡◌, ◌⊎◌, refl, false, filter, none, some, List, [], ◌∷◌, arith, inl,
}
use docker_in_k8s.Text.{Text, codes, ◌==◌}
use docker_in_k8s.Result.{Result, ok, err, message}
use docker_in_k8s.Api.Types.{ContainerSpec}
use docker_in_k8s.Api.Container.{DockerContainer, new_container}
use docker_in_k8s.Api.Spec.{spec, spec_map, set_spec}
use docker_in_k8s.Api.Status.{status, phase_map}
use docker_in_k8s.Cli.Console.{Console, for_each}
use docker_in_k8s.Compose.Plan.{Plan, ServicePlan}
use docker_in_k8s.Compose.Projects.{
  set_state, set_states, list_project, sort_containers, insert_container,
}
use docker_in_k8s.Cli.Poll.{Verdict, again, done, poll}
use docker_in_k8s.Cli.Poll.Laws.{Polls, poll-Polls, Polls-poll}
use docker_in_k8s.Cli.Waits.{
  set_key, with_desired_state, set_desired_state, attempt_state, wait_for_phase, check_phase,
  wait_for_deletion, check_deletion,
}
use docker_in_k8s.Cli.Waits.Desired.{spec-with_desired_state}
use docker_in_k8s.Cli.Lookup.{resolve_name, resolve_reply, match_ids, has_id_prefix}
use docker_in_k8s.Cli.Lookup.Laws.{of_matches, match_ids-eq-of_matches}
use docker_in_k8s.Cli.Projects.{compose_restart}
use docker_in_k8s.Cli.Projects.Laws.{ProjectRestarted, compose_restart-ProjectRestarted}
use docker_in_k8s.Cli.Commands.{
  restart_command, restart_one, reach, remove_command, remove_one, run_spec,
}
use docker_in_k8s.Cli.Commands.Laws.{
  Handled, Restarted, Removed, restart_command-Each, remove_command-Each,
}
use docker_in_k8s.Cli.Commands.Laws.Steps.{Each}
use docker_in_k8s.Tests.Concrete.{platform, codecs, spec-set_spec-web, web, web_spec}
use docker_in_k8s.Tests.Memory.{foreign}
use docker_in_k8s.Tests.Fleet.{Fleet, fleet, settle, admit, two_ticks}

abbrev default : Text
default = codes "default"

abbrev start : Console Fleet
start = (some web, [])

abbrev restarted : Fleet
restarted = some (
    settle
      (with_desired_state (codes "Running") (settle (with_desired_state (codes "Stopped") web))))

restart_command-Each_example :
    Each
      (Handled fleet platform two_ticks default (Restarted fleet platform two_ticks default))
      (codes "shop-web" ∷ [])
      start
      (restarted, codes "shop-web" ∷ [])
restart_command-Each_example =
    restart_command-Each fleet platform two_ticks default (codes "shop-web" ∷ []) start
      (restarted, codes "shop-web" ∷ []) accepted
  where
    accepted :
        restart_command fleet platform two_ticks default (codes "shop-web" ∷ []) start
        ≡ (ok tt, (restarted, codes "shop-web" ∷ []))
    accepted =
        unfold restart_command for_each restart_one reach resolve_name resolve_reply
          set_desired_state attempt_state poll wait_for_phase check_phase set_key status phase_map
          ◌==◌ in
        refl

remove_command-Each_example :
    Each
      (Handled fleet platform two_ticks default (Removed fleet platform two_ticks default))
      (codes "shop-web" ∷ [])
      start
      (none, codes "shop-web" ∷ [])
remove_command-Each_example =
    remove_command-Each fleet platform two_ticks default (codes "shop-web" ∷ []) start
      (none, codes "shop-web" ∷ []) accepted
  where
    accepted :
        remove_command fleet platform two_ticks default (codes "shop-web" ∷ []) start
        ≡ (ok tt, (none, codes "shop-web" ∷ []))
    accepted =
        unfold remove_command for_each remove_one resolve_name resolve_reply poll wait_for_deletion
          check_deletion ◌==◌ in
        refl

-- dockube run -d --name job busybox echo hello
abbrev echo_spec : ContainerSpec
echo_spec = run_spec false false (codes "busybox") (codes "echo" ∷ codes "hello" ∷ [])

abbrev created_job : DockerContainer
created_job = admit (new_container (spec_map codecs) (codes "job") default echo_spec)

web_readable : spec codecs (set_spec codecs web web_spec) ≡ ok web_spec
web_readable = spec-set_spec-web web (codes "Running") refl

spec-with_desired_state_example :
    spec codecs (with_desired_state (codes "Stopped") (set_spec codecs web web_spec))
    ≡ ok (record web_spec { desired_state = codes "Stopped" })
spec-with_desired_state_example =
    spec-with_desired_state (codes "Stopped") refl codecs (set_spec codecs web web_spec) web_spec
      web_readable

-- Two containers, whose IDs are alike.
abbrev twins : List DockerContainer
twins = web ∷ record web { name = codes "shop-db" } ∷ []

match_ids-eq-of_matches_example :
    match_ids platform (codes "00") [] twins
    ≡ of_matches (codes "00") (filter (has_id_prefix platform (codes "00")) twins)
match_ids-eq-of_matches_example =
    match_ids-eq-of_matches platform (codes "00") twins (refl, (refl, tt))

-- A check that counts down to its result.
abbrev countdown : ℕ → Result (Verdict Text) × ℕ
countdown zero = (ok (done (ok (codes "up"))), zero)
countdown (suc n) = (ok again, n)

countdown_ends : Polls countdown 2 2 (ok (codes "up")) 0
countdown_ends = (1, refl, (0, refl, inl refl))

poll-Polls_example : poll 5 (message (codes "timed out")) countdown 2 ≡ (ok (codes "up"), 0)
poll-Polls_example =
    poll-Polls countdown (message (codes "timed out")) 5 2 2 0 (ok (codes "up")) (omega arith)
      countdown_ends

Polls-poll_example :
    ((n : ℕ) × (n ≤ 5) × Polls countdown 2 n (ok (codes "up")) 0)
    ⊎ (ok (codes "up") ≡ err (message (codes "timed out")))
Polls-poll_example =
    Polls-poll countdown (message (codes "timed out")) 5 2 0 (ok (codes "up")) accepted
  where
    accepted : poll 5 (message (codes "timed out")) countdown 2 ≡ (ok (codes "up"), 0)
    accepted = unfold poll in refl

-- A project with the web server.
abbrev shop_service : ServicePlan
shop_service = record {
  name = codes "web";
  container_name = codes "shop-web";
  spec = web_spec;
  service = foreign;
}

abbrev shop : Plan
shop = record {
  name = codes "shop";
  services = shop_service ∷ [];
  volumes = [];
  configs = [];
  secrets = [];
  normalized = [];
}

abbrev in_state : Text → DockerContainer → DockerContainer
in_state state o = settle (set_spec codecs o (record web_spec { desired_state = state }))

abbrev shop_web : DockerContainer
shop_web = set_spec codecs web web_spec

abbrev shop_end : DockerContainer
shop_end = in_state (codes "Running") (in_state (codes "Stopped") shop_web)

stopped :
    set_state fleet default platform (codes "shop") (codes "Stopped") (some shop_web)
    ≡ (ok tt, some (in_state (codes "Stopped") shop_web))
unfolding set_state set_states list_project sort_containers insert_container
stopped = rw (spec-set_spec-web web (codes "Running") refl) refl

started :
    set_state fleet default platform
      (codes "shop")
      (codes "Running")
      (some (in_state (codes "Stopped") shop_web))
    ≡ (ok tt, some shop_end)
unfolding set_state set_states list_project sort_containers insert_container
started = rw (spec_of_settled) refl
  where
    spec_of_settled :
        spec codecs (in_state (codes "Stopped") shop_web)
        ≡ ok (record web_spec { desired_state = codes "Stopped" })
    spec_of_settled =
        unfold spec set_spec in
        unfold spec set_spec in spec-set_spec-web shop_web (codes "Stopped") refl

compose_restart-ProjectRestarted_example :
    ProjectRestarted fleet platform two_ticks default shop
      (some shop_web, [])
      (some shop_end, codes "web" ∷ [])
compose_restart-ProjectRestarted_example =
    compose_restart-ProjectRestarted fleet platform two_ticks default shop (some shop_web, [])
      (some shop_end, codes "web" ∷ []) accepted
  where
    seen_stopped :
        wait_for_phase fleet platform two_ticks default
          (codes "shop-web")
          (codes "Stopped")
          (some (in_state (codes "Stopped") shop_web))
        ≡ (ok tt, some (in_state (codes "Stopped") shop_web))
    seen_stopped =
        unfold wait_for_phase check_phase poll status phase_map set_spec spec_map ◌==◌ in refl

    seen_running :
        wait_for_phase fleet platform two_ticks default
          (codes "shop-web")
          (codes "Running")
          (some shop_end)
        ≡ (ok tt, some shop_end)
    seen_running =
        unfold wait_for_phase check_phase poll status phase_map set_spec spec_map ◌==◌ in refl

    accepted :
        compose_restart fleet platform two_ticks default (ok shop) (some shop_web, [])
        ≡ (ok tt, (some shop_end, codes "web" ∷ []))
    accepted =
        unfold compose_restart for_each in
        rw stopped (rw seen_stopped (rw started (rw seen_running refl)))
