-- ===== src/Cli/Projects/Laws.antt =====
-- What compose restart has seen when it succeeds.
use docker_in_k8s.Common.{ℕ, ◌≡◌, refl, subst, sym, ap, ◌∙◌, List, [], ◌∷◌, ◌++◌}
use docker_in_k8s.Text.{Text, codes}
use docker_in_k8s.Result.{Result, ok}
use docker_in_k8s.Api.Platform.{Platform}
use docker_in_k8s.Cluster.{Cluster}
use docker_in_k8s.Compose.Plan.{Plan, ServicePlan}
use docker_in_k8s.Compose.Projects.{set_state}
use docker_in_k8s.Cli.Console.{Console, call, for_each}
use docker_in_k8s.Cli.Waits.{wait_for_phase}
use docker_in_k8s.Cli.Waits.Laws.{bind_reply-eq-ok, SeenIn, wait_for_phase-SeenIn}
use docker_in_k8s.Cli.Commands.Laws.Steps.{Each, for_each-Each, call-eq-ok, say-eq-ok}
use docker_in_k8s.Cli.Projects.{compose_restart, await_service, await_and_say}

module _ (c : Cluster) (p : Platform) (clock : c.State → ℕ) (ns : Text) (plan : Plan) where
  abbrev loaded : Result Plan
  loaded = ok plan

  -- A read between the states showed the container of the service in the phase; where it is
  -- announced, its name was printed then.
  abbrev pub Waited : Text → ServicePlan → Console c.State → Console c.State → Type 0
  Waited state service (s, out) (s', out') =
      (wait_for_phase c p clock ns service.container_name state s ≡ (ok tt, s'))
      × SeenIn c p clock ns service.container_name state s'
      × (out' ≡ out)

  abbrev pub Announced : Text → ServicePlan → Console c.State → Console c.State → Type 0
  Announced state service (s, out) (s', out') =
      Waited state service (s, out) (s', out) × (out' ≡ out ++ service.name ∷ [])

  await_service-Waited :
      (state : Text) (service : ServicePlan) (k k' : Console c.State)
      → await_service c p clock ns loaded state service k ≡ (ok tt, k')
      → Waited state service k k'
  await_service-Waited state service (s, out) (s', out') h =
      let wait = wait_for_phase c p clock ns service.container_name state in
      let (waited, kept) = call-eq-ok wait s s' out out' h in
      (waited, wait_for_phase-SeenIn c p clock ns service.container_name state s s' waited, kept)

  await_and_say-Announced :
      (state : Text) (service : ServicePlan) (k k' : Console c.State)
      → await_and_say c p clock ns loaded state service k ≡ (ok tt, k')
      → Announced state service k k'
  await_and_say-Announced state service (s, out) (s', out') h =
      let (a, (t, out1), waited, last) =
        bind_reply-eq-ok (await_service c p clock ns loaded state service (s, out)) _ h in
      let (there, seen, kept) = await_service-Waited state service (s, out) (t, out1) waited in
      let (same, said) = say-eq-ok service.name t s' out1 out' last in
      (
        subst (λ u. Waited state service (s, out) (u, out)) (sym same) (there, seen, refl),
        said ∙ ap (λ (o : List Text). o ++ service.name ∷ []) kept,
      )

  abbrev Stepped : Text → Console c.State → Console c.State → Type 0
  Stepped state (s, out) (s', out') =
      (set_state c ns p plan.name state s ≡ (ok tt, s')) × (out' ≡ out)

  -- compose restart: when the command succeeds, all services were seen stopped between the two
  -- updates of the project, and each was seen running behind the second, where its name was printed.
  abbrev pub ProjectRestarted : Console c.State → Console c.State → Type 0
  ProjectRestarted k k' =
      (k1 k2 k3 : Console c.State) × Stepped (codes "Stopped") k k1
      × Each (Waited (codes "Stopped")) plan.services k1 k2
      × Stepped (codes "Running") k2 k3
      × Each (Announced (codes "Running")) plan.services k3 k'

  -- When compose restart succeeds, the project was set to Stopped, then each of its services was
  -- seen stopped in turn, then the project was set to Running, and then each service was seen
  -- running and its name printed.
  pub compose_restart-ProjectRestarted :
      (k k' : Console c.State)
      → compose_restart c p clock ns loaded k ≡ (ok tt, k')
      → ProjectRestarted k k'
  unfolding compose_restart
  compose_restart-ProjectRestarted (s, out) (s', out') h =
      let stop = set_state c ns p plan.name (codes "Stopped") in
      let start = set_state c ns p plan.name (codes "Running") in
      let waits = for_each (await_service c p clock ns loaded (codes "Stopped")) plan.services in
      let (a, (s1, o1), stopped, h1) = bind_reply-eq-ok (call stop (s, out)) _ h in
      let (b, (s2, o2), seen, h2) = bind_reply-eq-ok (waits (s1, o1)) _ h1 in
      let (d, (s3, o3), started, h3) = bind_reply-eq-ok (call start (s2, o2)) _ h2 in
      (
        (s1, o1),
        (s2, o2),
        (s3, o3),
        call-eq-ok stop s s1 out o1 stopped,
        for_each-Each (await_service c p clock ns loaded (codes "Stopped"))
            (Waited (codes "Stopped")) (await_service-Waited (codes "Stopped")) plan.services
            (s1, o1) (s2, o2) seen,
        call-eq-ok start s2 s3 o2 o3 started,
        for_each-Each (await_and_say c p clock ns loaded (codes "Running"))
            (Announced (codes "Running")) (await_and_say-Announced (codes "Running")) plan.services
            (s3, o3) (s', out') h3,
      )
