-- ===== src/Dicts.antt =====
-- Go maps with text keys, as association lists in which the first entry of a key counts.
use docker_in_k8s.Common.{◌≡◌, refl, Option, none, some, List, [], ◌∷◌, arith, if◌then◌else◌}
use docker_in_k8s.Text.{Text, ◌==◌, eq_iff}

abbrev pub Dict {ℓ} : Type ℓ → Type ℓ
Dict V = List (Text × V)

module _ {ℓ} {V : Type ℓ} where
  unfoldable pub lookup : Text → Dict V → Option V
  lookup k [] = none
  lookup k ((j, v) ∷ m) = if k == j then some v else lookup k m

  -- m[k] = v
  unfoldable pub insert : Text → V → Dict V → Dict V
  insert k v [] = (k, v) ∷ []
  insert k v ((j, w) ∷ m) = if k == j then (k, v) ∷ m else (j, w) ∷ insert k v m

  -- `for key, value := range extra { base[key] = value }`
  unfoldable pub merge : Dict V → Dict V → Dict V
  unfolding insert
  merge base [] = base
  merge base ((k, v) ∷ extra) = insert k v (merge base extra)

  abbrev pub or_else : Option V → Option V → Option V
  or_else none o = o
  or_else (some v) o = some v

  pub lookup-insert :
      (j k : Text) (v : V) (m : Dict V)
      → lookup j (insert k v m) ≡ (if j == k then some v else lookup j m)
  unfolding lookup insert
  lookup-insert j k v [] = refl
  lookup-insert j k v ((i, w) ∷ m) =
      ground (arith, eq_iff j k, eq_iff j i, eq_iff k i, lookup-insert j k v m)

  -- The entries of the second map win.
  pub lookup-merge :
      (j : Text) (base extra : Dict V)
      → lookup j (merge base extra) ≡ or_else (lookup j extra) (lookup j base)
  unfolding lookup merge
  lookup-merge j base [] = refl
  lookup-merge j base ((k, v) ∷ extra) =
      ground (arith, lookup-insert j k v (merge base extra), lookup-merge j base extra)

-- m[k] of a map to texts, "" where there is none.
unfoldable pub text_at : Text → Dict Text → Text
unfolding lookup
text_at k m = elim (lookup k m) [ none ↦ [] | some v ↦ v ]

unfoldable pub keys {ℓ} : {V : Type ℓ} → Dict V → List Text
keys [] = []
keys ((k, v) ∷ m) = k ∷ keys m

abbrev pub map_values {ℓ κ} : {V : Type ℓ} {W : Type κ} → (V → W) → Dict V → Dict W
map_values f [] = []
map_values f ((k, v) ∷ m) = (k, f v) ∷ map_values f m
