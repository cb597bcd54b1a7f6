-- ===== src/Text/Split.antt =====
-- strings.Cut, strings.Split and strings.Join at a single character.
use docker_in_k8s.Common.{
  ℕ, ◌≡◌, refl, ◌≢◌, inl, inr, Bool, true, false, List, [], ◌∷◌, ◌++◌, arith, eqb, All,
  if◌then◌else◌, Bool-cases, ap, ◌∙◌, eqb_iff,
}
use docker_in_k8s.Text.Equality.{Text}

pub record Parts : Type 0 where
  pub before : Text
  pub after : Text
  pub found : Bool

-- strings.Cut(s, c)
unfoldable pub cut : Text → ℕ → Parts
cut [] c = record { before = []; after = []; found = false }
cut (x ∷ xs) c =
    let rest = cut xs c in
    if eqb x c
    then record { before = []; after = xs; found = true }
    else record rest { before = x ∷ rest.before }

abbrev pub Lacks : ℕ → Text → Type 0
Lacks c s = All (λ x. x ≢ c) s

module _ (c : ℕ) where
  pub cut-Lacks : (s : Text) → Lacks c (cut s c).before
  unfolding cut
  cut-Lacks [] = tt
  cut-Lacks (x ∷ xs) = elim (Bool-cases (eqb x c)) [
    | inl e ↦ rw e tt
    | inr e ↦ rw e (ground arith, cut-Lacks xs)
  ]

  -- What was cut at the separator is the two parts and the separator between them.
  pub cut_lem : (s : Text) → (cut s c).found ≡ true → (cut s c).before ++ c ∷ (cut s c).after ≡ s
  unfolding cut
  cut_lem [] h = cc
  cut_lem (x ∷ xs) h = ground (arith, cut_lem xs)

  -- The first separator decides.
  pub cut-append :
      (s t : Text) → Lacks c s → cut (s ++ c ∷ t) c ≡ record { before = s; after = t; found = true }
  unfolding cut
  cut-append [] t h = ground arith
  cut-append (x ∷ s) t h = ground (arith, cut-append s t h.1)

  pub cut_of_Lacks :
      (s : Text) → Lacks c s → cut s c ≡ record { before = s; after = []; found = false }
  unfolding cut
  cut_of_Lacks [] h = refl
  cut_of_Lacks (x ∷ s) h = ground (arith, cut_of_Lacks s h.1)

-- strings.Split(s, c): put the characters up to a separator on the first part.
abbrev pub grow : ℕ → List Text → List Text
grow x [] = (x ∷ []) ∷ []
grow x (part ∷ parts) = (x ∷ part) ∷ parts

unfoldable pub split : Text → ℕ → List Text
split [] c = [] ∷ []
split (x ∷ xs) c = let rest = split xs c in if eqb x c then [] ∷ rest else grow x rest

-- strings.Join(parts, c)
unfoldable pub join : List Text → ℕ → Text
join [] c = []
join (part ∷ []) c = part
join (part ∷ next ∷ parts) c = part ++ c ∷ join (next ∷ parts) c

module _ (c : ℕ) where
  grow-Lacks :
      (x : ℕ) (parts : List Text) → x ≢ c → All (Lacks c) parts → All (Lacks c) (grow x parts)
  grow-Lacks x [] h k = ((h, tt), tt)
  grow-Lacks x (part ∷ parts) h k = ((h, k.0), k.1)

  pub split-Lacks : (s : Text) → All (Lacks c) (split s c)
  unfolding split
  split-Lacks [] = (tt, tt)
  split-Lacks (x ∷ xs) = elim (Bool-cases (eqb x c)) [
    | inl e ↦ rw e (tt, split-Lacks xs)
    | inr e ↦ rw e (grow-Lacks x _ (ground arith) (split-Lacks xs))
  ]

  pub split-ne-nil : (s : Text) → split s c ≢ []
  unfolding split
  split-ne-nil [] = cc
  split-ne-nil (x ∷ xs) = elim (split xs c) as (λ r. (if eqb x c then [] ∷ r else grow x r) ≢ []) [
    | [] ↦ ground arith
    | p ∷ ps ↦ ground arith
  ]

  join-nil-cons : (parts : List Text) → parts ≢ [] → join ([] ∷ parts) c ≡ c ∷ join parts c
  unfolding join
  join-nil-cons [] h = absurd (h refl)
  join-nil-cons (p ∷ ps) h = refl

  join-grow : (x : ℕ) (parts : List Text) → parts ≢ [] → join (grow x parts) c ≡ x ∷ join parts c
  unfolding join
  join-grow x [] h = absurd (h refl)
  join-grow x (p ∷ []) h = refl
  join-grow x (p ∷ q ∷ ps) h = refl

  -- Joining the parts of a split gives the text back.
  pub join-split : (s : Text) → join (split s c) c ≡ s
  unfolding split
  join-split [] = unfold join in refl
  join-split (x ∷ xs) = elim (Bool-cases (eqb x c)) [
    | inl e ↦
        rw e
          (join-nil-cons (split xs c) (split-ne-nil xs) ∙ (cc (join-split xs, (eqb_iff x c).0 e)))
    | inr e ↦
        rw e (join-grow x (split xs c) (split-ne-nil xs) ∙ ap (λ (t : Text). x ∷ t) (join-split xs))
  ]

  grow-append : (x : ℕ) (ps qs : List Text) → ps ≢ [] → grow x (ps ++ qs) ≡ grow x ps ++ qs
  grow-append x [] qs h = absurd (h refl)
  grow-append x (p ∷ ps) qs h = refl

  -- Splitting at a separator that is in the text.
  pub split-append : (s t : Text) → split (s ++ c ∷ t) c ≡ split s c ++ split t c
  unfolding split
  split-append [] t = ground arith
  split-append (x ∷ s) t = elim (Bool-cases (eqb x c)) [
    | inl e ↦ rw e (ap (λ (ps : List Text). [] ∷ ps) (split-append s t))
    | inr e ↦
        rw e
          (ap (grow x) (split-append s t) ∙ grow-append x (split s c) (split t c) (split-ne-nil s))
  ]
