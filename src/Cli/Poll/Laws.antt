-- ===== src/Cli/Poll/Laws.antt =====
-- What a loop returns, by the checks that it makes.
use docker_in_k8s.Common.{ℕ, zero, suc, ◌≤◌, ◌≡◌, refl, ◌∙◌, sym, ap, ◌⊎◌, inl, inr, arith}
use docker_in_k8s.Result.{Result, ok, err, Error}
use docker_in_k8s.Cluster.Calls.{Action, bind_reply, raise}
use docker_in_k8s.Cli.Poll.{Verdict, again, done, conclude, poll}

module _ {S A : Type 0} (check : Action S (Verdict A)) where
  -- A check that ends the loop with a result, in a state.
  abbrev pub Ends : S → Result A → S → Type 0
  Ends s r s' =
      (check s ≡ (ok (done r), s')) ⊎ ((e : Error) × (check s ≡ (err e, s')) × (r ≡ err e))

  -- So many checks say to wait, and the next ends the loop.
  abbrev pub Polls : S → ℕ → Result A → S → Type 0
  Polls s zero r s' = Ends s r s'
  Polls s (suc n) r s' = (t : S) × (check s ≡ (ok again, t)) × Polls t n r s'

  -- The loop after its first check.
  abbrev resume : Action S A → Result (Verdict A) × S → Result A × S
  resume later reply = bind_reply reply (λ v. conclude v later)

  resume_of_Ends :
      (later : Action S A) (s s' : S) (r : Result A)
      → Ends s r s'
      → resume later (check s) ≡ (r, s')
  resume_of_Ends later s s' r (inl e) = rw e refl
  resume_of_Ends later s s' r (inr (x, e, same)) = rw e (rw same refl)

  -- A loop with ticks for n more checks returns what its checks conclude, if the first n of them
  -- say to wait on and the next one concludes or fails.
  pub poll-Polls :
      (timeout : Error) (ticks n : ℕ) (s s' : S) (r : Result A)
      → n ≤ ticks
      → Polls s n r s'
      → poll ticks timeout check s ≡ (r, s')
  unfolding poll
  poll-Polls timeout zero zero s s' r le h = resume_of_Ends (raise timeout) s s' r h
  poll-Polls timeout zero (suc n) s s' r le h = absurd (omega arith)
  poll-Polls timeout (suc ticks) zero s s' r le h =
      resume_of_Ends (poll ticks timeout check) s s' r h
  poll-Polls timeout (suc ticks) (suc n) s s' r le (t, e, h) =
      rw e (poll-Polls timeout ticks n t s' r (omega arith) h)

  -- What a check leaves to the rest of the loop.
  data Resumed (later : Action S A) (s : S) (r : Result A) (s' : S) : Type 0 where
    ended : Ends s r s' → Resumed later s r s'
    resumed : (t : S) → check s ≡ (ok again, t) → later t ≡ (r, s') → Resumed later s r s'

  resume_cases :
      (later : Action S A) (s s' : S) (r : Result A) (reply : Result (Verdict A) × S)
      → check s ≡ reply
      → resume later reply ≡ (r, s')
      → Resumed later s r s'
  resume_cases later s s' r (ok again, t) e h = resumed t e h
  resume_cases later s s' r (ok (done q), t) e h =
      ended (inl (e ∙ ap (λ (x : Result A × S). (ok (done x.0), x.1)) h))
  resume_cases later s s' r (err x, t) e h = ended (
      inr
        (x, e ∙ ap (λ (y : Result A × S). (err x, y.1)) h, sym (ap (λ (y : Result A × S). y.0) h)))

  -- What a loop returns is what one of its first checks concludes, one for each tick and one
  -- more, all before it having said to wait on, or the error of its timeout.
  pub Polls-poll :
      (timeout : Error) (ticks : ℕ) (s s' : S) (r : Result A)
      → poll ticks timeout check s ≡ (r, s')
      → ((n : ℕ) × (n ≤ ticks) × Polls s n r s') ⊎ (r ≡ err timeout)
  unfolding poll
  Polls-poll timeout zero s s' r h =
      first_only (resume_cases (raise timeout) s s' r (check s) refl h)
    where
      first_only :
          Resumed (raise timeout) s r s'
          → ((n : ℕ) × (n ≤ zero) × Polls s n r s') ⊎ (r ≡ err timeout)
      first_only (ended e) = inl (zero, omega arith, e)
      first_only (resumed t e h) = inr (sym (ap (λ (y : Result A × S). y.0) h))
  Polls-poll timeout (suc ticks) s s' r h =
      both (λ t. Polls-poll timeout ticks t s' r)
        (resume_cases (poll ticks timeout check) s s' r (check s) refl h)
    where
      both :
          ((t : S)
            → poll ticks timeout check t ≡ (r, s')
            → ((n : ℕ) × (n ≤ ticks) × Polls t n r s') ⊎ (r ≡ err timeout))
          → Resumed (poll ticks timeout check) s r s'
          → ((n : ℕ) × (n ≤ suc ticks) × Polls s n r s') ⊎ (r ≡ err timeout)
      both ih (ended e) = inl (zero, omega arith, e)
      both ih (resumed t e h) = elim (ih t h) [
        | inl (n, le, p) ↦ inl (suc n, omega arith, (t, e, p))
        | inr out ↦ inr out
      ]

  -- The check at which a loop that succeeds has seen what it waits for.
  pub Polls-last :
      (n : ℕ) (s s' : S) (a : A)
      → Polls s n (ok a) s'
      → (t : S) × (check t ≡ (ok (done (ok a)), s'))
  Polls-last zero s s' a (inl e) = (s, e)
  Polls-last zero s s' a (inr (x, e, same)) = cc
  Polls-last (suc n) s s' a (t, e, h) = Polls-last n t s' a h

  pub poll-last :
      (timeout : Error) (ticks : ℕ) (s s' : S) (a : A)
      → poll ticks timeout check s ≡ (ok a, s')
      → (t : S) × (check t ≡ (ok (done (ok a)), s'))
  poll-last timeout ticks s s' a h = elim (Polls-poll timeout ticks s s' (ok a) h) [
    | inl (n, le, p) ↦ Polls-last n s s' a p
    | inr out ↦ cc
  ]
