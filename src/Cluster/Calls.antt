-- ===== src/Cluster/Calls.antt =====
-- Calls that may fail and that change the state of the cluster, in sequence.
use docker_in_k8s.Result.{Error, Result, ok, err, wrapped}
use docker_in_k8s.Text.{Text}

abbrev pub Action : Type 0 → Type 0 → Type 0
Action S A = S → Result A × S

module _ {S A : Type 0} where
  abbrev pub return : A → Action S A
  return a s = (ok a, s)

  abbrev pub raise : Error → Action S A
  raise e s = (err e, s)

  abbrev pub lift : Result A → Action S A
  lift r s = (r, s)

  -- The reply of a call as a value, for code that looks at its error.
  abbrev pub attempt : Action S A → Action S (Result A)
  attempt m s = (ok (m s).0, (m s).1)

  abbrev wrap_reply : Text → Result A × S → Result A × S
  wrap_reply t (ok a, s) = (ok a, s)
  wrap_reply t (err e, s) = (err (wrapped t e), s)

  -- `return fmt.Errorf("context: %w", err)`
  abbrev pub wrap : Text → Action S A → Action S A
  wrap t m s = wrap_reply t (m s)

module _ {S A B : Type 0} where
  abbrev pub bind_reply : Result A × S → (A → Action S B) → Result B × S
  bind_reply (ok a, s) f = f a s
  bind_reply (err e, s) f = (err e, s)

  infixl 5 ◌>>=◌ ◌>>◌
  abbrev pub ◌>>=◌ : Action S A → (A → Action S B) → Action S B
  ◌>>=◌ m f s = bind_reply (m s) f

  abbrev pub ◌>>◌ : Action S A → Action S B → Action S B
  ◌>>◌ m k s = bind_reply (m s) (λ _. k)

-- `defer`: a call that is made whatever the steps before it have returned, and whose error is dropped.
abbrev pub finally : {S A : Type 0} → Action S (Unit {0}) → Action S A → Action S A
finally cleanup steps = do reply ← attempt steps; attempt cleanup; lift reply
