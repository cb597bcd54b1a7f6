-- ===== src/Compose/Projects/Removal.antt =====
-- What Down removes and how long it waits.
use docker_in_k8s.Common.{ℕ, zero, suc, ◌≡◌, refl, ap, subst, ◌⊎◌, inl, inr, false, List, [], ◌∷◌}
use docker_in_k8s.Text.{Text}
use docker_in_k8s.Result.{Result, ok, err}
use docker_in_k8s.Api.Container.{DockerContainer}
use docker_in_k8s.Cluster.{Cluster, Resource, Claim}
use docker_in_k8s.Cluster.Calls.{Action, bind_reply}
use docker_in_k8s.Compose.Projects.{down, await_removal, delete_claims}

-- Without --volumes the reply of Down and the state after it depend on no call that concerns
-- claims.
pub down_without_volumes :
    (c : Cluster) (namespace : Text) (claims : Text → Resource c.State Claim) (polls : ℕ)
    (project : Text) (s : c.State)
    → down (record c { claims = claims }) namespace polls project false s
      ≡ down c namespace polls project false s
unfolding down delete_claims
down_without_volumes c namespace claims polls project s = refl

module _ {S : Type 0} (list : Action S (List DockerContainer)) where
  -- The last list of the wait gave nothing, and the wait ends in the state after it.
  abbrev pub SeenGone : S → Type 0
  SeenGone s' = (s : S) × (list s ≡ (ok [], s'))

  state_of_reply : {s s' : S} → ◌≡◌ {A = Result (Unit {0}) × S} (ok tt, s) (ok tt, s') → s ≡ s'
  state_of_reply e = ap (λ (r : Result (Unit {0}) × S). r.1) e

  -- The wait of Down succeeds only if there were no workloads, or if its last list gave none.
  pub await_removal-SeenGone :
      (polls : ℕ) (items : List DockerContainer) (s s' : S)
      → await_removal polls list items s ≡ (ok tt, s')
      → (items ≡ []) ⊎ SeenGone s'
  unfolding await_removal
  await_removal-SeenGone polls [] s s' h = inl refl
  await_removal-SeenGone zero (o ∷ rest) s s' h = cc
  await_removal-SeenGone (suc polls) (o ∷ rest) s s' h =
      inr (seen (λ items t. await_removal-SeenGone polls items t s') (list s) refl h)
    where
      seen_of :
          (items : List DockerContainer) (t : S)
          → list s ≡ (ok items, t)
          → await_removal polls list items t ≡ (ok tt, s')
          → (items ≡ []) ⊎ SeenGone s'
          → SeenGone s'
      seen_of items t listed h (inr gone) = gone
      seen_of [] t listed h (inl none) =
          (s, subst (λ t. list s ≡ (ok [], t)) (state_of_reply h) listed)
      seen_of (o ∷ items) t listed h (inl none) = cc

      seen :
          ((items : List DockerContainer) (t : S)
            → await_removal polls list items t ≡ (ok tt, s')
            → (items ≡ []) ⊎ SeenGone s')
          → (r : Result (List DockerContainer) × S) → list s ≡ r
          → bind_reply r (await_removal polls list) ≡ (ok tt, s')
          → SeenGone s'
      seen later (ok items, t) listed h = seen_of items t listed h (later items t h)
      seen later (err e, t) listed h = cc
