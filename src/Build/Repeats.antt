-- ===== src/Build/Repeats.antt =====
-- The loops of build.go that keep the set of ids they have seen and refuse an id that repeats.
use docker_in_k8s.Common.{
  ◌≡◌, refl, ap, subst, ◌≢◌, false, suc, List, [], ◌∷◌, All, All-map_of, Distinct, length, map,
  ||-eq-false,
}
use docker_in_k8s.Text.{Text, ◌==◌, ne_of_eq-false, is_one_of}
use docker_in_k8s.Result.{Result, ok, ◌>>=◌, >>=-eq-ok, ok-injective}

module _ {A B : Type 0} (id : B → Text) (step : List Text → A → Result B) where
  unfoldable pub each_once : List Text → List A → Result (List B)
  each_once seen [] = ok []
  each_once seen (a ∷ as') = do b ← step seen a; bs ← each_once (id b ∷ seen) as'; ok (b ∷ bs)

  -- A result that a step gives: its id is new, and it has the property Q.
  abbrev New : (B → Type 0) → List Text → B → Type 0
  New Q seen b = (is_one_of (id b) seen ≡ false) × Q b

  New-tail :
      (Q : B → Type 0) (first : Text) (seen : List Text) (b : B)
      → New Q (first ∷ seen) b
      → New Q seen b
  unfolding is_one_of
  New-tail Q first seen b (new, q) = ((||-eq-false (id b == first) _ new).1, q)

  fresh_ids :
      (Q : B → Type 0) (first : Text) (seen : List Text) (bs : List B)
      → All (New Q (first ∷ seen)) bs
      → All (λ t. t ≢ first) (map id bs)
  unfolding is_one_of
  fresh_ids Q first seen [] h = tt
  fresh_ids Q first seen (b ∷ bs) ((new, q), h) =
      (ne_of_eq-false _ _ (||-eq-false (id b == first) _ new).0, fresh_ids Q first seen bs h)

  -- One result for each element; their ids are all different and new, and each has what a step gives.
  pub each_once-Distinct :
      (Q : B → Type 0)
      → ((seen : List Text) (a : A) (b : B) → step seen a ≡ ok b → New Q seen b)
      → (seen : List Text) (as' : List A) (bs : List B) → each_once seen as' ≡ ok bs
      → (length bs ≡ length as') × Distinct (map id bs) × All (New Q seen) bs
  unfolding each_once
  each_once-Distinct Q each seen [] bs h =
      subst (λ bs. (length bs ≡ 0) × Distinct (map id bs) × All (New Q seen) bs) (ok-injective h)
        (refl, tt, tt)
  each_once-Distinct Q each seen (a ∷ as') bs h =
      let (b, here, h') = >>=-eq-ok (step seen a) _ h in
      let (rest, there, e) = >>=-eq-ok (each_once (id b ∷ seen) as') _ h' in
      let (sized, distinct, news) = each_once-Distinct Q each (id b ∷ seen) as' rest there in
      subst (λ bs. (length bs ≡ suc (length as')) × Distinct (map id bs) × All (New Q seen) bs)
        (ok-injective e)
        (
          ap suc sized,
          (fresh_ids Q (id b) seen rest news, distinct),
          (each seen a b here, All-map_of (New-tail Q (id b) seen) rest news),
        )
