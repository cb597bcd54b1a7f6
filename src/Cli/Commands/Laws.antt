-- ===== src/Cli/Commands/Laws.antt =====
-- What the commands have done when they succeed, and where they stop.
pub mod Steps
use docker_in_k8s.Common.{
  ℕ, ◌≡◌, refl, subst, sym, ap, ◌∙◌, List, [], ◌∷◌, ◌++◌, Bool, false, none, is_nil,
}
use docker_in_k8s.Text.{Text, codes}
use docker_in_k8s.Result.{Result, ok, err, Error}
use docker_in_k8s.Api.Types.{ContainerSpec, ResourceRequirements}
use docker_in_k8s.Api.Platform.{Platform}
use docker_in_k8s.Api.Ids.{container_id}
use docker_in_k8s.Api.Container.{DockerContainer, new_container}
use docker_in_k8s.Api.Spec.{spec, spec_map, set_spec, IsKubeCodecs}
use docker_in_k8s.Api.Spec.RoundTrip.{spec-set_spec}
use docker_in_k8s.Cluster.{Cluster}
use docker_in_k8s.Cluster.Calls.{Action, return, ◌>>=◌, ◌>>◌}
use docker_in_k8s.Cli.Console.{Console, call, say, for_each}
use docker_in_k8s.Cli.Waits.{wait_for_phase, wait_for_deletion, set_desired_state}
use docker_in_k8s.Cli.Waits.Laws.{
  bind_reply-eq-ok, SeenIn, SeenGone, Updated, wait_for_phase-SeenIn, wait_for_deletion-SeenGone,
  set_desired_state-Updated,
}
use docker_in_k8s.Cli.Lookup.{resolve_name}
use docker_in_k8s.Cli.Commands.{
  run_spec, reach, state_one, state_command, restart_one, restart_command, remove_one,
  remove_command, stop_and_start, delete_and_wait,
}
use docker_in_k8s.Cli.Commands.Laws.Steps.{Each, for_each-Each, call-eq-ok, say-eq-ok}

module _ (c : Cluster) (p : Platform) (clock : c.State → ℕ) (ns : Text) where
  -- Where a container has reached a desired state: its update was taken, and later a read showed
  -- the phase.
  abbrev pub Reached : Text → Text → c.State → c.State → Type 0
  Reached name state s s' =
      (t : c.State) × (set_desired_state c ns name state s ≡ (ok tt, t))
      × Updated c ns name state t
      × (wait_for_phase c p clock ns name state t ≡ (ok tt, s'))
      × SeenIn c p clock ns name state s'

  reach-Reached :
      (name state : Text) (s s' : c.State) (out out' : List Text)
      → reach c p clock ns name state (s, out) ≡ (ok tt, (s', out'))
      → Reached name state s s' × (out' ≡ out)
  unfolding reach
  reach-Reached name state s s' out out' h =
      let (a, (t, out1), set, next) =
        bind_reply-eq-ok (call (set_desired_state c ns name state) (s, out)) _ h in
      let (set', kept) = call-eq-ok (set_desired_state c ns name state) s t out out1 set in
      let (waited, kept') =
        call-eq-ok (wait_for_phase c p clock ns name state) t s' out1 out' next in
      (
        (
          t,
          set',
          set_desired_state-Updated c ns name state s t set',
          waited,
          wait_for_phase-SeenIn c p clock ns name state t s' waited,
        ),
        kept' ∙ kept,
      )

  -- A step of a command for an argument: its name was looked up, `Did` holds between the states
  -- behind that, and the name was printed.
  abbrev pub Handled :
      (Text → c.State → c.State → Type 0) → Text → Console c.State → Console c.State → Type 0
  Handled Did value (s, out) (s', out') =
      (name : Text) × (t : c.State) × (resolve_name c p ns value s ≡ (ok name, t))
      × Did name t s'
      × (out' ≡ out ++ name ∷ [])

  abbrev pub Restarted : Text → c.State → c.State → Type 0
  Restarted name s s' =
      (t : c.State) × Reached name (codes "Stopped") s t × Reached name (codes "Running") t s'

  abbrev pub Removed : Text → c.State → c.State → Type 0
  Removed name s s' =
      (t : c.State) × ((c.containers ns).delete name none s ≡ (ok tt, t))
      × SeenGone c p clock ns name s'

  -- The lookup at the start of a step and the line at its end.
  handled :
      (Did : Text → c.State → c.State → Type 0) (work : Text → Action (Console c.State) (Unit {0}))
      → ((name : Text) (s s' : c.State) (out out' : List Text)
          → work name (s, out) ≡ (ok tt, (s', out'))
          → Did name s s' × (out' ≡ out))
      → (value : Text) (k k' : Console c.State)
      → (do name ← call (resolve_name c p ns value); work name; say name) k ≡ (ok tt, k')
      → Handled Did value k k'
  handled Did work does value (s, out) (s', out') h =
      let (name, (t, out1), looked, next) =
        bind_reply-eq-ok (call (resolve_name c p ns value) (s, out)) _ h in
      let (looked', kept) = call-eq-ok (resolve_name c p ns value) s t out out1 looked in
      let (u, (s2, out2), worked, last) = bind_reply-eq-ok (work name (t, out1)) _ next in
      let (did, kept') = does name t s2 out1 out2 worked in
      let (same, said) = say-eq-ok name s2 s' out2 out' last in
      (
        name,
        t,
        looked',
        subst (Did name t) (sym same) did,
        said ∙ ap (λ (o : List Text). o ++ name ∷ []) (kept' ∙ kept),
      )

  -- stop and start: when the command succeeds, each argument in turn was found, its update was taken
  -- and its phase seen, and one line per argument was printed.
  pub state_command-Each :
      (state : Text) (values : List Text) (k k' : Console c.State)
      → state_command c p clock ns state values k ≡ (ok tt, k')
      → Each (Handled (λ name. Reached name state)) values k k'
  unfolding state_command state_one
  state_command-Each state =
      for_each-Each (state_one c p clock ns state) (Handled (λ name. Reached name state)) (
        handled (λ name. Reached name state) (λ name. reach c p clock ns name state)
          (λ name. reach-Reached name state))

  restart-Restarted :
      (name : Text) (s s' : c.State) (out out' : List Text)
      → stop_and_start c p clock ns name (s, out) ≡ (ok tt, (s', out'))
      → Restarted name s s' × (out' ≡ out)
  restart-Restarted name s s' out out' h =
      let (a, (t, out1), stopped, next) =
        bind_reply-eq-ok (reach c p clock ns name (codes "Stopped") (s, out)) _ h in
      let (down, kept) = reach-Reached name (codes "Stopped") s t out out1 stopped in
      let (up, kept') = reach-Reached name (codes "Running") t s' out1 out' next in
      ((t, down, up), kept' ∙ kept)

  -- When restart succeeds, each argument in turn was found, was seen stopped after an update to
  -- Stopped, was seen running after an update to Running, and its name was printed.
  pub restart_command-Each :
      (values : List Text) (k k' : Console c.State)
      → restart_command c p clock ns values k ≡ (ok tt, k')
      → Each (Handled Restarted) values k k'
  unfolding restart_command restart_one
  restart_command-Each =
      for_each-Each (restart_one c p clock ns) (Handled Restarted)
        (handled Restarted (stop_and_start c p clock ns) restart-Restarted)

  delete-Removed :
      (name : Text) (s s' : c.State) (out out' : List Text)
      → delete_and_wait c p clock ns name (s, out) ≡ (ok tt, (s', out'))
      → Removed name s s' × (out' ≡ out)
  delete-Removed name s s' out out' h =
      let delete = (c.containers ns).delete name none in
      let (a, (t, out1), deleted, next) = bind_reply-eq-ok (call delete (s, out)) _ h in
      let (gone, kept) = call-eq-ok delete s t out out1 deleted in
      let (waited, kept') = call-eq-ok (wait_for_deletion c p clock ns name) t s' out1 out' next in
      ((t, gone, wait_for_deletion-SeenGone c p clock ns name t s' waited), kept' ∙ kept)

  -- When rm succeeds, each argument in turn was found, its deletion was taken, a later read found
  -- no such container, and its name was printed.
  pub remove_command-Each :
      (values : List Text) (k k' : Console c.State)
      → remove_command c p clock ns values k ≡ (ok tt, k')
      → Each (Handled Removed) values k k'
  unfolding remove_command remove_one
  remove_command-Each =
      for_each-Each (remove_one c p clock ns) (Handled Removed)
        (handled Removed (delete_and_wait c p clock ns) delete-Removed)

  -- The container that run creates has the spec of its arguments, for whoever reads it back.
  pub spec-run_spec :
      (h : IsKubeCodecs p.codecs) (name image : Text) (stdin tty : Bool) (words : List Text)
      → is_nil image ≡ false
      → spec p.codecs (new_container (spec_map p.codecs) name ns (run_spec stdin tty image words))
        ≡ ok (run_spec stdin tty image words)
  unfolding new_container run_spec set_spec
  spec-run_spec h name image stdin tty words given =
      spec-set_spec h (run_spec stdin tty image words)
        (new_container (spec_map p.codecs) name ns (run_spec stdin tty image words)) given refl
      ∙ ap
          (λ (r : ResourceRequirements).
            ok (record (run_spec stdin tty image words) { resources = r }))
          h.canonical_lem

  -- run -d: when the command succeeds, a container with the spec of the arguments was created, and
  -- its ID was printed.
  abbrev pub Created : ContainerSpec → Console c.State → Console c.State → Type 0
  Created sp k k' =
      (obj created : DockerContainer) × ((c.containers ns).create obj k.0 ≡ (ok created, k'.0))
      × (spec p.codecs obj ≡ ok sp)
      × (k'.1 ≡ k.1 ++ container_id p.sha created.uid ∷ [])
