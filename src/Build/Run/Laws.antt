-- ===== src/Build/Run/Laws.antt =====
-- The Job of a build is deleted however the build ends, and a build that succeeds has seen it complete.
use docker_in_k8s.Common.{ℕ, ◌≡◌, refl, ◌∙◌, sym, ap, Bool, true, false, List, any}
use docker_in_k8s.Text.{Text, codes}
use docker_in_k8s.Result.{Result, ok, err, ok-injective, err-ne-ok}
use docker_in_k8s.Api.Types.{PodCondition}
use docker_in_k8s.Cluster.Calls.{Action, attempt, return, wrap, ◌>>=◌, ◌>>◌}
use docker_in_k8s.Build.Job.{BuildJob, build_job, job_name, build_debug_message, collects}
use docker_in_k8s.Build.Builder.{Builder}
use docker_in_k8s.Build.Builder.Laws.{is_complete, judge-any}
use docker_in_k8s.Build.Steps.{wait_for_build, check_build, signal_build_result_collected}
use docker_in_k8s.Build.Run.{
  Request, final_build_error, deliver, collect, collect_if, follow, publish, build_steps, cleaned,
  run_build, complain_if, announce,
}
use docker_in_k8s.Cli.Console.{Console, call}
use docker_in_k8s.Cli.Commands.Laws.Steps.{call-eq-ok}
use docker_in_k8s.Cli.Poll.Laws.{poll-last}
use docker_in_k8s.Cli.Waits.Laws.{bind_reply-eq-ok, reply_of_pair, pair_of}

final_build_error-eq-ok :
    {A : Type 0} (r : Result A) (log : Result (Unit {0})) {a : A}
    → final_build_error r log ≡ ok a
    → r ≡ ok a
unfolding final_build_error
final_build_error-eq-ok (err e) log h = absurd (err-ne-ok h)
final_build_error-eq-ok (ok a) (err e) h = absurd (err-ne-ok h)
final_build_error-eq-ok (ok a) (ok u) h = h

module _ {Context : Type 0} (b : Builder Context) (clock : b.State → ℕ)
    (image_id : Text → Result Text) where
  -- However the collection of results has gone, it ends with the signal on which the Pod waits.
  pub collect-signalled :
      (pod : Text) (q : Request Context) (s : b.State)
      → (t : b.State) × ((collect b clock image_id pod q s).1
          ≡ (signal_build_result_collected b clock pod t).1)
  unfolding collect
  collect-signalled pod q s = (_, refl)

  abbrev pub Deleted : Text → Console b.State → Type 0
  Deleted name k = (t : b.State) × (k.0 ≡ (b.delete_job name t).1)

  cleaned-Deleted :
      (name : Text) (steps : Action (Console b.State) (Unit {0})) (k : Console b.State)
      → Deleted name (cleaned b clock image_id false name steps k).1
  cleaned-Deleted name steps k = (_, refl)

  -- A creation that succeeds, with the steps behind it and the deletion at their end.
  created_then :
      (create : Action b.State (Unit {0})) (text name : Text) (keep : Bool)
      (steps : Action (Console b.State) (Unit {0})) (k : Console b.State)
      → keep ≡ false
      → (create k.0).0 ≡ ok tt
      → Deleted name ((do call (wrap text create); cleaned b clock image_id keep name steps) k).1
  created_then create text name keep steps (s, out) kept created =
      rw (pair_of (create s) created refl)
        (rw kept (cleaned-Deleted name steps ((create s).1, out)))

  -- The state in which the Job is created: behind the debug message, if any.
  abbrev pub told : Text → Request Context → Console b.State → Console b.State
  told suffix q k =
      (attempt
        (call (
          complain_if b clock image_id q.options.debug
            (build_debug_message (job_name suffix) q.namespace q.options q.keep q.deadline)))
        k).1

  abbrev pub job_of : Text → Request Context → BuildJob
  job_of suffix q = build_job (job_name suffix) q.dockerfile q.registry q.options q.results

  -- Without --keep-build, if the creation of the Job succeeds in the state behind the debug
  -- message, then however the run ends, its last call is the deletion of the Job under the name
  -- that it was created with.
  pub run_build-Deleted :
      (suffix : Text) (q : Request Context) (k : Console b.State)
      → q.keep ≡ false
      → (b.create_job (job_of suffix q) (told suffix q k).0).0 ≡ ok tt
      → ((job_of suffix q).name ≡ job_name suffix)
        × Deleted (job_name suffix) (run_build b clock image_id suffix q k).1
  unfolding run_build build_job
  run_build-Deleted suffix q k kept created = (
    refl,
    created_then (b.create_job (job_of suffix q)) (codes "create BuildKit job") (job_name suffix)
        q.keep (build_steps b clock image_id (job_name suffix) q) (told suffix q k) kept created,
  )

  -- A read of the Job's conditions that showed it complete and led to the state.
  abbrev pub SeenComplete : Text → b.State → Type 0
  SeenComplete name s' =
      (t : b.State) × (conditions : List PodCondition) × (b.job_conditions name t
        ≡ (ok conditions, s'))
      × (any is_complete conditions ≡ true)

  wait_for_build-SeenComplete :
      (name : Text) (s s' : b.State)
      → wait_for_build b clock name s ≡ (ok tt, s')
      → SeenComplete name s'
  unfolding wait_for_build check_build
  wait_for_build-SeenComplete name s s' h =
      let (t, last) = poll-last (check_build b clock name) _ (clock s) s s' tt h in
      let (conditions, t', got, verdict) = bind_reply-eq-ok (b.job_conditions name t) _ last in
      let (is_done, same) = reply_of_pair verdict in
      (
        t,
        conditions,
        got ∙ ap (λ (x : b.State). (ok conditions, x)) same,
        judge-any conditions (ok-injective is_done),
      )

  -- The logs are joined behind a read that showed the Job complete.
  abbrev pub Followed : Text → b.State → Type 0
  Followed name s' = (t : b.State) × SeenComplete name t × (s' ≡ (b.join_logs t).1)

  follow-Followed :
      (name pod : Text) (q : Request Context) (s s' : b.State) (metadata : Text)
      → follow b clock image_id name pod q s ≡ (ok metadata, s')
      → Followed name s'
  unfolding follow
  follow-Followed name pod q s s' metadata h =
      let (u, s1, started, h1) = bind_reply-eq-ok (b.start_logs pod q.results.quiet s) _ h in
      let outcome =
        (do
          metadata ← collect_if b clock image_id (collects q.results q.options) pod q
          wait_for_build b clock name
          return metadata)
          s1 in
      let good = final_build_error-eq-ok outcome.0 (b.join_logs outcome.1).0 (reply_of_pair h1).0 in
      let (m, s2, collected, rest) =
        bind_reply-eq-ok (collect_if b clock image_id (collects q.results q.options) pod q s1) _
          (pair_of outcome good refl) in
      let (v, s3, waited, last) = bind_reply-eq-ok (wait_for_build b clock name s2) _ rest in
      (
        s3,
        wait_for_build-SeenComplete name s2 s3 waited,
        sym (reply_of_pair h1).1
            ∙ ap (λ (x : b.State). (b.join_logs x).1) (sym (reply_of_pair last).1),
      )

  -- What is published, and the deletion, are all that comes behind the logs.
  abbrev pub Completed : Text → Request Context → Console b.State → Type 0
  Completed name q k' =
      (s : b.State) × (out : List Text) × (metadata : Text) × Followed name s
      × (cleaned b clock image_id q.keep name (publish b clock image_id q metadata) (s, out)
          ≡ (ok tt, k'))

  -- Steps that end alike, with the deletion behind them.
  cleaned_alike :
      (keep : Bool) (name : Text) (steps steps' : Action (Console b.State) (Unit {0}))
      (k k1 k' : Console b.State)
      → steps k ≡ steps' k1
      → cleaned b clock image_id keep name steps k ≡ (ok tt, k')
      → cleaned b clock image_id keep name steps' k1 ≡ (ok tt, k')
  cleaned_alike true name steps steps' k k1 k' same h = sym same ∙ h
  cleaned_alike false name steps steps' k k1 k' same h =
      ap (λ (x : Result (Unit {0}) × Console b.State). (x.0, (call (b.delete_job name) x.1).1))
        (sym same)
      ∙ h

  cleaned-eq-ok :
      (keep : Bool) (name : Text) (steps : Action (Console b.State) (Unit {0}))
      (k k' : Console b.State)
      → cleaned b clock image_id keep name steps k ≡ (ok tt, k')
      → (t : Console b.State) × (steps k ≡ (ok tt, t))
  cleaned-eq-ok true name steps k k' h = (k', h)
  cleaned-eq-ok false name steps k k' h = ((steps k).1, pair_of (steps k) (reply_of_pair h).0 refl)

  build_steps-Completed :
      (name : Text) (q : Request Context) (k k' : Console b.State)
      → cleaned b clock image_id q.keep name (build_steps b clock image_id name q) k ≡ (ok tt, k')
      → Completed name q k'
  unfolding build_steps
  build_steps-Completed name q k k' whole =
      let (k4, h) = cleaned-eq-ok q.keep name (build_steps b clock image_id name q) k k' whole in
      let (u1, (s1, o1), said, h1) = bind_reply-eq-ok (announce b clock image_id name q k) _ h in
      let (pod, (s2, o2), delivered, h2) =
        bind_reply-eq-ok (call (deliver b clock image_id name q) (s1, o1)) _ h1 in
      let followed = follow b clock image_id name pod q in
      let (m, (s3, o3), done, h3) = bind_reply-eq-ok (call followed (s2, o2)) _ h2 in
      (
        s3,
        o3,
        m,
        follow-Followed name pod q s2 s3 m (call-eq-ok followed s2 s3 o2 o3 done).0,
        cleaned_alike q.keep name (build_steps b clock image_id name q)
            (publish b clock image_id q m) k (s3, o3) k' (h ∙ sym h3) whole,
      )

  -- A run that succeeds had a read of the Job that showed it complete, and behind it only the end
  -- of the logs, what is written and printed, and, without --keep-build, the deletion of the Job.
  pub run_build-Completed :
      (suffix : Text) (q : Request Context) (k k' : Console b.State)
      → run_build b clock image_id suffix q k ≡ (ok tt, k')
      → Completed (job_name suffix) q k'
  unfolding run_build
  run_build-Completed suffix q k k' h =
      let name = job_name suffix in
      let (u, k2, created, h2) =
        bind_reply-eq-ok
          (call (wrap (codes "create BuildKit job") (b.create_job (job_of suffix q)))
            (told suffix q k))
          (λ u. cleaned b clock image_id q.keep name (build_steps b clock image_id name q)) h in
      build_steps-Completed name q k2 k' h2
