-- ===== src/Cli/Commands/Laws/Steps.antt =====
-- Calls and printed lines that succeed, and the loop over the arguments.
use docker_in_k8s.Common.{◌≡◌, sym, ap, List, [], ◌∷◌, ◌++◌}
use docker_in_k8s.Text.{Text}
use docker_in_k8s.Result.{Result, ok}
use docker_in_k8s.Cluster.Calls.{Action}
use docker_in_k8s.Cli.Waits.Laws.{bind_reply-eq-ok}
use docker_in_k8s.Cli.Console.{Console, call, say, for_each}

module _ {S : Type 0} where
  pub call-eq-ok :
      {A : Type 0} (m : Action S A) (s s' : S) (out out' : List Text) {a : A}
      → call m (s, out) ≡ (ok a, (s', out'))
      → (m s ≡ (ok a, s')) × (out' ≡ out)
  call-eq-ok {A = A} m s s' out out' h = (
    ap (λ (x : Result A × Console S). (x.0, x.1.0)) h,
    sym (ap (λ (x : Result A × Console S). x.1.1) h),
  )

  pub say-eq-ok :
      (line : Text) (s s' : S) (out out' : List Text)
      → say line (s, out) ≡ (ok tt, (s', out'))
      → (s' ≡ s) × (out' ≡ out ++ line ∷ [])
  say-eq-ok line s s' out out' h = (
    sym (ap (λ (x : Result (Unit {0}) × Console S). x.1.0) h),
    sym (ap (λ (x : Result (Unit {0}) × Console S). x.1.1) h),
  )

module _ {S A : Type 0} where
  -- The steps of the loop, each between the states before and behind it.
  abbrev pub Each : (A → S → S → Type 0) → List A → S → S → Type 0
  Each P [] k k' = k' ≡ k
  Each P (value ∷ values) k k' = (m : S) × P value k m × Each P values m k'

  module _ (body : A → Action S (Unit {0})) where
    pub for_each-Each :
        (P : A → S → S → Type 0)
        → ((value : A) (k k' : S) → body value k ≡ (ok tt, k') → P value k k')
        → (values : List A) (k k' : S) → for_each body values k ≡ (ok tt, k')
        → Each P values k k'
    unfolding for_each
    for_each-Each P each [] k k' h = sym (ap (λ (x : Result (Unit {0}) × S). x.1) h)
    for_each-Each P each (value ∷ values) k k' h =
        let (u, m, here, next) = bind_reply-eq-ok (body value k) _ h in
        (m, each value k m here, for_each-Each P each values m k' next)
