-- ===== src/Result.antt =====
-- Go errors as values: those of the API server that the program tells apart (apierrors.IsNotFound,
-- IsConflict, IsAlreadyExists), and all others by their message. fmt.Errorf with %w wraps an error,
-- errors.Join puts two together.
use docker_in_k8s.Common.{
  ◌≡◌, refl, ap, subst, Bool, true, false, ◌||◌, if◌then◌else◌, suc, Option, none, some, List, [],
  ◌∷◌, All, length,
}
use docker_in_k8s.Text.{Text}

pub data Error : Type 0 where
  not_found conflict already_exists : Error
  message : Text → Error
  wrapped : Text → Error → Error
  joined : Error → Error → Error

-- errors.As looks for an error of the API server in what is wrapped and joined, and takes the first.
abbrev pub has_status : Error → Bool
has_status (message t) = false
has_status (wrapped t e) = has_status e
has_status (joined e e') = has_status e || has_status e'
has_status _ = true

abbrev pub first_of : Bool → Bool → Bool → Bool
first_of true first next = first
first_of false first next = next

abbrev pub is_not_found : Error → Bool
is_not_found not_found = true
is_not_found (wrapped t e) = is_not_found e
is_not_found (joined e e') = first_of (has_status e) (is_not_found e) (is_not_found e')
is_not_found _ = false

abbrev pub is_conflict : Error → Bool
is_conflict conflict = true
is_conflict (wrapped t e) = is_conflict e
is_conflict (joined e e') = first_of (has_status e) (is_conflict e) (is_conflict e')
is_conflict _ = false

abbrev pub is_already_exists : Error → Bool
is_already_exists already_exists = true
is_already_exists (wrapped t e) = is_already_exists e
is_already_exists (joined e e') =
    first_of (has_status e) (is_already_exists e) (is_already_exists e')
is_already_exists _ = false

pub data Result {ℓ} (A : Type ℓ) : Type ℓ where
  ok : A → Result A
  err : Error → Result A

-- errors.Join of a result so far with a further error, and the result of a function that ends with it.
abbrev pub join_error : Option Error → Error → Option Error
join_error none e = some e
join_error (some e') e = some (joined e' e)

abbrev pub reply_of : Option Error → Result (Unit {0})
reply_of none = ok tt
reply_of (some e) = err e

module _ {ℓ κ} {Before : Type ℓ} {After : Type κ} where
  infixl 5 ◌>>=◌ ◌>>◌
  -- `if err != nil { return err }` between two steps.
  abbrev pub ◌>>=◌ : Result Before → (Before → Result After) → Result After
  err failure >>= next = err failure
  ok value >>= next = next value

  abbrev pub ◌>>◌ : Result Before → Result After → Result After
  step >> next = step >>= λ ignored. next

  -- The steps of a sequence that succeeds.
  pub >>=-eq-ok :
      (step : Result Before) (next : Before → Result After) {final : After}
      → (step >>= next) ≡ ok final
      → (value : Before) × (step ≡ ok value) × (next value ≡ ok final)
  >>=-eq-ok (err failure) next done = cc
  >>=-eq-ok (ok value) next done = (value, refl, done)

-- fmt.Errorf("context: %w", err)
abbrev pub wrap {ℓ} : {A : Type ℓ} → Text → Result A → Result A
wrap t (ok a) = ok a
wrap t (err e) = err (wrapped t e)

pub ok-injective {ℓ} : {A : Type ℓ} {a b : A} → ok a ≡ ok b → a ≡ b
ok-injective e = cc

-- A loop that appends what each element gives, and returns the first error.
module _ {ℓ κ} {A : Type ℓ} {B : Type κ} (f : A → Result B) where
  unfoldable pub traverse : List A → Result (List B)
  traverse [] = ok []
  traverse (a ∷ as') = do b ← f a; bs ← traverse as'; ok (b ∷ bs)

  -- One result for each element, and of all of them what holds of each that `f` gives.
  pub traverse-All {μ} :
      (Q : B → Type μ)
      → ((a : A) (b : B) → f a ≡ ok b → Q b)
      → (as' : List A) (bs : List B) → traverse as' ≡ ok bs
      → (length bs ≡ length as') × All Q bs
  unfolding traverse
  traverse-All Q each [] bs h = subst (λ bs. (length bs ≡ 0) × All Q bs) (ok-injective h) (refl, tt)
  traverse-All Q each (a ∷ as') bs h =
      let (b, here, h') = >>=-eq-ok (f a) _ h in
      let (rest, there, e) = >>=-eq-ok (traverse as') _ h' in
      let (sized, all) = traverse-All Q each as' rest there in
      subst (λ bs. (length bs ≡ suc (length as')) × All Q bs) (ok-injective e)
        (ap suc sized, (each a b here, all))

pub err-ne-ok {ℓ} : {A : Type ℓ} {e : Error} {a : A} → err e ≡ ok a → ⊥
err-ne-ok h = cc

-- A test that lets the rest of a function pass.
pub behind_test {ℓ} :
    {A : Type ℓ} (test : Bool) (e : Error) (r : Result A) {a : A}
    → (if test then err e else r) ≡ ok a
    → (test ≡ false) × (r ≡ ok a)
behind_test true e r h = absurd (err-ne-ok h)
behind_test false e r h = (refl, h)

-- Two lists of one length whose elements are related in turn.
abbrev pub Pairwise {ℓ κ} : {A : Type ℓ} {B : Type κ} → (A → B → Type 0) → List A → List B → Type 0
Pairwise R [] [] = Unit
Pairwise R [] (b ∷ bs) = ⊥
Pairwise R (a ∷ as') [] = ⊥
Pairwise R (a ∷ as') (b ∷ bs) = R a b × Pairwise R as' bs

pub traverse-Pairwise {ℓ κ} :
    {A : Type ℓ} {B : Type κ} (f : A → Result B) (R : A → B → Type 0)
    → ((a : A) (b : B) → f a ≡ ok b → R a b)
    → (as' : List A) (bs : List B) → traverse f as' ≡ ok bs
    → Pairwise R as' bs
unfolding traverse
traverse-Pairwise f R each [] bs h = subst (Pairwise R []) (ok-injective h) tt
traverse-Pairwise f R each (a ∷ as') bs h =
    let (b, here, h') = >>=-eq-ok (f a) _ h in
    let (rest, there, e) = >>=-eq-ok (traverse f as') _ h' in
    subst (Pairwise R (a ∷ as')) (ok-injective e)
      (each a b here, traverse-Pairwise f R each as' rest there)
