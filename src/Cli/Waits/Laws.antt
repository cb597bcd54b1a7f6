-- ===== src/Cli/Waits/Laws.antt =====
-- What the waits and the update of the desired state have seen when they succeed.
use docker_in_k8s.Common.{ℕ, ◌≡◌, refl, ◌∙◌, ap, Bool, true, false, if◌then◌else◌}
use docker_in_k8s.Text.{Text, ◌==◌, eq_iff, eq_refl}
use docker_in_k8s.Result.{Result, ok, err, Error, is_not_found, ok-injective, err-ne-ok}
use docker_in_k8s.Cluster.{Cluster}
use docker_in_k8s.Cluster.Calls.{Action, bind_reply}
use docker_in_k8s.Api.Platform.{Platform}
use docker_in_k8s.Api.Json.{Json, JsonMap}
use docker_in_k8s.Common.{some}
use docker_in_k8s.Api.Container.{DockerContainer}
use docker_in_k8s.Api.Status.{status}
use docker_in_k8s.Cli.Poll.{again, done}
use docker_in_k8s.Cli.Poll.Laws.{poll-last}
use docker_in_k8s.Cli.Waits.{
  set_key, after_update, if_deleted, check_phase, wait_for_phase, check_deletion, wait_for_deletion,
  with_desired_state, attempt_state, set_desired_state,
}

module _ {S A : Type 0} where
  -- The reply of a call that is followed by another, where both succeed.
  pub bind_reply-eq-ok :
      {B : Type 0} (reply : Result A × S) (next : A → Action S B) {b : B} {s' : S}
      → bind_reply reply next ≡ (ok b, s')
      → (a : A) × (t : S) × (reply ≡ (ok a, t)) × (next a t ≡ (ok b, s'))
  bind_reply-eq-ok (ok a, t) next h = (a, t, refl, h)
  bind_reply-eq-ok (err e, t) next h = cc

  pub reply_of_pair :
      {a b : Result A} {s t : S} → ◌≡◌ {A = Result A × S} (a, s) (b, t) → (a ≡ b) × (s ≡ t)
  reply_of_pair e = (ap (λ (x : Result A × S). x.0) e, ap (λ (x : Result A × S). x.1) e)

  pub pair_of : (x : Result A × S) {r : Result A} {s : S} → x.0 ≡ r → x.1 ≡ s → x ≡ (r, s)
  pair_of (a, b) e f = cc

done-injective : {A : Type 0} {a b : Result A} → done a ≡ done b → a ≡ b
done-injective e = cc

-- The tests of the checks, where the check ends with success.
phase_of_verdict : (b : Bool) → (if b then done (ok tt) else again) ≡ done (ok tt) → b ≡ true
phase_of_verdict true h = refl
phase_of_verdict false h = cc

gone_of_verdict :
    (b : Bool) (e : Error) → (if b then done (ok tt) else done (err e)) ≡ done (ok tt) → b ≡ true
gone_of_verdict true e h = refl
gone_of_verdict false e h = absurd (err-ne-ok (done-injective h))

refused_of_verdict : (b : Bool) (e : Error) → (if b then again else done (err e)) ≡ done (ok tt) → ⊥
refused_of_verdict true e h = cc
refused_of_verdict false e h = err-ne-ok (done-injective h)

-- A reply that ends a wait for a deletion with success is that there is no such container.
deleted_of_verdict :
    {A : Type 0} (reply : Result A)
    → if_deleted reply ≡ done (ok tt)
    → (e : Error) × (reply ≡ err e) × (is_not_found e ≡ true)
deleted_of_verdict (ok obj) h = cc
deleted_of_verdict (err e) h = (e, refl, gone_of_verdict _ e h)

-- A reply that ends the attempts with success is that of an update that the server took.
updated_of_verdict :
    {A : Type 0} (reply : Result A) → after_update reply ≡ done (ok tt) → (a : A) × (reply ≡ ok a)
updated_of_verdict (ok a) h = (a, refl)
updated_of_verdict (err e) h = absurd (refused_of_verdict _ e h)

module _ (c : Cluster) (p : Platform) (clock : c.State → ℕ) (ns : Text) where
  -- The last read of the container before the state shows it in the phase.
  abbrev pub SeenIn : Text → Text → c.State → Type 0
  SeenIn name phase s' =
      (t : c.State) × (obj : DockerContainer) × ((c.containers ns).get name t ≡ (ok obj, s'))
      × ((status p.sha obj).phase ≡ phase)

  -- The last read before the state says that there is no such container.
  abbrev pub SeenGone : Text → c.State → Type 0
  SeenGone name s' =
      (t : c.State) × (e : Error) × ((c.containers ns).get name t ≡ (err e, s'))
      × (is_not_found e ≡ true)

  pub wait_for_phase-SeenIn :
      (name phase : Text) (s s' : c.State)
      → wait_for_phase c p clock ns name phase s ≡ (ok tt, s')
      → SeenIn name phase s'
  unfolding wait_for_phase check_phase
  wait_for_phase-SeenIn name phase s s' h =
      let (t, last) = poll-last (check_phase c p clock ns name phase) _ (clock s) s s' tt h in
      let (obj, t', got, verdict) = bind_reply-eq-ok ((c.containers ns).get name t) _ last in
      let (is_done, same) = reply_of_pair verdict in
      (
        t,
        obj,
        got ∙ ap (λ (x : c.State). (ok obj, x)) same,
        (eq_iff _ _).0 (phase_of_verdict _ (ok-injective is_done)),
      )

  pub wait_for_deletion-SeenGone :
      (name : Text) (s s' : c.State)
      → wait_for_deletion c p clock ns name s ≡ (ok tt, s')
      → SeenGone name s'
  unfolding wait_for_deletion check_deletion
  wait_for_deletion-SeenGone name s s' h =
      let (t, last) = poll-last (check_deletion c p clock ns name) _ (clock s) s s' tt h in
      let (is_done, same) = reply_of_pair last in
      let (e, got, gone) =
        deleted_of_verdict ((c.containers ns).get name t).0 (ok-injective is_done) in
      (t, e, pair_of _ got same, gone)

module _ (c : Cluster) (ns : Text) where
  -- The update of the container that was read just before, in which only the desired state is
  -- changed, was taken, and led to the state.
  abbrev pub Updated : Text → Text → c.State → Type 0
  Updated name state s' =
      (t u : c.State) × (obj stored : DockerContainer) × ((c.containers ns).get name t
        ≡ (ok obj, u))
      × ((c.containers ns).update (with_desired_state state obj) u ≡ (ok stored, s'))

  pub set_desired_state-Updated :
      (name state : Text) (s s' : c.State)
      → set_desired_state c ns name state s ≡ (ok tt, s')
      → Updated name state s'
  unfolding set_desired_state attempt_state
  set_desired_state-Updated name state s s' h =
      let (t, last) = poll-last (attempt_state c ns name state) _ 4 s s' tt h in
      let (obj, u, got, next) = bind_reply-eq-ok ((c.containers ns).get name t) _ last in
      let (is_done, same) = reply_of_pair next in
      let (stored, taken) =
        updated_of_verdict ((c.containers ns).update (with_desired_state state obj) u).0
          (ok-injective is_done) in
      (t, u, obj, stored, got, pair_of _ taken same)

-- Only the key changes.
pub set_key_lem :
    (key : Text) (value : Json) (m : JsonMap)
    → (set_key key value m key ≡ some value)
      × ((k : Text) → (k == key) ≡ false → set_key key value m k ≡ m k)
unfolding set_key
set_key_lem key value m = (rw (eq_refl key) refl, λ k h. rw h refl)
