-- ===== src/Text/Trim.antt =====
-- strings.Trim with a cut set, and strings.TrimSpace.
use docker_in_k8s.Common.{
  ℕ, ◌≤◌, ◌≡◌, refl, ◌≢◌, inl, inr, Bool, false, ◌&&◌, ◌||◌, [], ◌∷◌, ◌++◌, arith, leb, eqb, length,
  is_nil, All, if◌then◌else◌, Bool-cases,
}
use docker_in_k8s.Text.Equality.{Text}

module _ (cut : ℕ → Bool) where
  unfoldable pub trim_left : Text → Text
  trim_left [] = []
  trim_left (x ∷ xs) = if cut x then trim_left xs else x ∷ xs

  unfoldable pub trim_right : Text → Text
  trim_right [] = []
  trim_right (x ∷ xs) = let rest = trim_right xs in if cut x && is_nil rest then [] else x ∷ rest

  unfoldable pub trim : Text → Text
  unfolding trim_left trim_right
  trim s = trim_right (trim_left s)

  -- The first character is not in the cut set; likewise the last.
  abbrev pub StartsOutside : Text → Type 0
  StartsOutside [] = Unit
  StartsOutside (x ∷ xs) = cut x ≡ false

  abbrev pub EndsOutside : Text → Type 0
  EndsOutside [] = Unit
  EndsOutside (x ∷ []) = cut x ≡ false
  EndsOutside (x ∷ y ∷ ys) = EndsOutside (y ∷ ys)

  pub trim_left-StartsOutside : (s : Text) → StartsOutside (trim_left s)
  unfolding trim_left
  trim_left-StartsOutside [] = tt
  trim_left-StartsOutside (x ∷ xs) = ground (arith, trim_left-StartsOutside xs)

  trim_right_cons-StartsOutside :
      (x : ℕ) (xs : Text) → cut x ≡ false → StartsOutside (trim_right (x ∷ xs))
  unfolding trim_right
  trim_right_cons-StartsOutside x xs h = rw (h, h)

  pub trim_right-StartsOutside : (s : Text) → StartsOutside s → StartsOutside (trim_right s)
  unfolding trim_right
  trim_right-StartsOutside [] h = tt
  trim_right-StartsOutside (x ∷ xs) h = trim_right_cons-StartsOutside x xs h

  EndsOutside-cons : (x : ℕ) (xs : Text) → EndsOutside xs → xs ≢ [] → EndsOutside (x ∷ xs)
  EndsOutside-cons x [] h ne = absurd (ne refl)
  EndsOutside-cons x (y ∷ ys) h ne = h

  keep-EndsOutside :
      (x : ℕ) (rest : Text)
      → EndsOutside rest
      → EndsOutside (if cut x && is_nil rest then [] else x ∷ rest)
  keep-EndsOutside x [] h = elim (Bool-cases (cut x)) [ inl e ↦ rw e tt | inr e ↦ rw (e, e) ]
  keep-EndsOutside x (y ∷ ys) h = elim (Bool-cases (cut x)) [ inl e ↦ rw e h | inr e ↦ rw e h ]

  pub trim_right-EndsOutside : (s : Text) → EndsOutside (trim_right s)
  unfolding trim_right
  trim_right-EndsOutside [] = tt
  trim_right-EndsOutside (x ∷ xs) = keep-EndsOutside x (trim_right xs) (trim_right-EndsOutside xs)

  pub trim-StartsOutside : (s : Text) → StartsOutside (trim s)
  unfolding trim
  trim-StartsOutside s = trim_right-StartsOutside _ (trim_left-StartsOutside s)

  pub trim-EndsOutside : (s : Text) → EndsOutside (trim s)
  unfolding trim
  trim-EndsOutside s = trim_right-EndsOutside _

  module _ (P : ℕ → Type 0) where
    All-trim_left : (s : Text) → All P s → All P (trim_left s)
    unfolding trim_left
    All-trim_left [] h = tt
    All-trim_left (x ∷ xs) h = elim (Bool-cases (cut x)) [
      | inl e ↦ rw e (All-trim_left xs h.1)
      | inr e ↦ rw e h
    ]

    All-trim_right : (s : Text) → All P s → All P (trim_right s)
    unfolding trim_right
    All-trim_right [] h = tt
    All-trim_right (x ∷ xs) h = elim (Bool-cases (cut x && is_nil (trim_right xs))) [
      | inl e ↦ rw e tt
      | inr e ↦ rw e (h.0, All-trim_right xs h.1)
    ]

    -- What holds of every character still does after trimming.
    pub All-trim : (s : Text) → All P s → All P (trim s)
    unfolding trim
    All-trim s h = All-trim_right _ (All-trim_left s h)

  length-trim_left : (s : Text) → length (trim_left s) ≤ length s
  unfolding trim_left
  length-trim_left [] = omega arith
  length-trim_left (x ∷ xs) = ground (arith, length-trim_left xs)

  length-trim_right : (s : Text) → length (trim_right s) ≤ length s
  unfolding trim_right
  length-trim_right [] = omega arith
  length-trim_right (x ∷ xs) = ground (arith, length-trim_right xs)

  pub length-trim : (s : Text) → length (trim s) ≤ length s
  unfolding trim
  length-trim s = omega (arith, length-trim_left s, length-trim_right (trim_left s))

  trim_left_of_StartsOutside : (s : Text) → StartsOutside s → trim_left s ≡ s
  unfolding trim_left
  trim_left_of_StartsOutside [] h = refl
  trim_left_of_StartsOutside (x ∷ xs) h = rw h

  trim_right_of_EndsOutside : (s : Text) → EndsOutside s → trim_right s ≡ s
  unfolding trim_right
  trim_right_of_EndsOutside [] h = refl
  trim_right_of_EndsOutside (x ∷ []) h = rw h
  trim_right_of_EndsOutside (x ∷ y ∷ ys) h =
      rw (trim_right_of_EndsOutside (y ∷ ys) h) (ground arith)

  -- A text with nothing to cut at its ends is left alone.
  pub trim_of_outside : (s : Text) → StartsOutside s → EndsOutside s → trim s ≡ s
  unfolding trim
  trim_of_outside s h k = rw (trim_left_of_StartsOutside s h) (trim_right_of_EndsOutside s k)

  -- A text that starts outside the cut set is not trimmed to nothing.
  pub trim-ne-nil : (x : ℕ) (xs : Text) → cut x ≡ false → trim (x ∷ xs) ≢ []
  unfolding trim
  trim-ne-nil x xs h = rw (h, h) (cc)

  -- An end that is kept as it is stays the end of a longer text.
  pub EndsOutside-append : (s t : Text) → t ≢ [] → EndsOutside t → EndsOutside (s ++ t)
  EndsOutside-append [] t ne h = h
  EndsOutside-append (x ∷ []) [] ne h = absurd (ne refl)
  EndsOutside-append (x ∷ []) (y ∷ t) ne h = h
  EndsOutside-append (x ∷ y ∷ ys) t ne h = EndsOutside-append (y ∷ ys) t ne h

-- unicode.IsSpace
unfoldable pub is_space : ℕ → Bool
is_space c =
    (leb 9 c && leb c 13)
    || eqb c 32
    || eqb c 0x85
    || eqb c 0xA0
    || eqb c 0x1680
    || (leb 0x2000 c && leb c 0x200A)
    || eqb c 0x2028
    || eqb c 0x2029
    || eqb c 0x202F
    || eqb c 0x205F
    || eqb c 0x3000

unfoldable pub trim_space : Text → Text
unfolding trim is_space
trim_space = trim is_space
