-- ===== src/Text/Search.antt =====
-- strings.HasPrefix, strings.TrimPrefix, strings.Contains and strings.ContainsAny.
use docker_in_k8s.Common.{
  ℕ, ◌≡◌, refl, Bool, true, false, ◌&&◌, ◌||◌, [], ◌∷◌, ◌++◌, arith, eqb, any, if◌then◌else◌,
}
use docker_in_k8s.Text.Equality.{Text}

-- strings.HasPrefix(s, prefix)
unfoldable pub has_prefix : Text → Text → Bool
has_prefix s [] = true
has_prefix [] (p ∷ ps) = false
has_prefix (x ∷ xs) (p ∷ ps) = eqb x p && has_prefix xs ps

-- What is left of `s` behind as many characters as the prefix has.
unfoldable pub skip : Text → Text → Text
skip s [] = s
skip [] (p ∷ ps) = []
skip (x ∷ xs) (p ∷ ps) = skip xs ps

-- strings.TrimPrefix(s, prefix)
unfoldable pub trim_prefix : Text → Text → Text
unfolding skip has_prefix
trim_prefix s prefix = if has_prefix s prefix then skip s prefix else s

-- strings.Contains(s, sub)
unfoldable pub contains : Text → Text → Bool
unfolding has_prefix
contains [] sub = has_prefix [] sub
contains (x ∷ xs) sub = has_prefix (x ∷ xs) sub || contains xs sub

-- strings.Contains of one character
unfoldable pub contains_char : Text → ℕ → Bool
contains_char s c = any (λ x. eqb x c) s

-- strings.ContainsAny(s, chars)
unfoldable pub contains_any : Text → Text → Bool
unfolding contains_char
contains_any s chars = any (λ x. contains_char chars x) s

pub has_prefix-append : (s t : Text) → has_prefix (s ++ t) s ≡ true
unfolding has_prefix
has_prefix-append [] t = refl
has_prefix-append (x ∷ s) t = ground (arith, has_prefix-append s t)

pub has_prefix-skip : (s prefix : Text) → has_prefix s prefix ≡ true → s ≡ prefix ++ skip s prefix
unfolding has_prefix skip
has_prefix-skip s [] h = refl
has_prefix-skip [] (p ∷ ps) h = cc
has_prefix-skip (x ∷ xs) (p ∷ ps) h = ground (arith, has_prefix-skip xs ps)

-- What a text contains, a longer text contains.
pub contains-append : (s t sub : Text) → contains t sub ≡ true → contains (s ++ t) sub ≡ true
unfolding contains
contains-append [] t sub h = h
contains-append (x ∷ s) t sub h = ground (arith, contains-append s t sub h)
