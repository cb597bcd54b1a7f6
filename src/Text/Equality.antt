-- ===== src/Text/Equality.antt =====
-- Texts as lists of code points, and Go's == on strings.
use Prim.Native.Char.{code}
use Prim.Native.String.{String}
use docker_in_k8s.Common.{
  ℕ, ◌≡◌, refl, ◌↔◌, ◌≢◌, Bool, true, false, ◌&&◌, ◌||◌, List, [], ◌∷◌, arith, eqb, All, ||-eq-true,
  inl, inr, subst, sym,
}

abbrev pub Text : Type 0
Text = List ℕ

-- The literal.
abbrev pub codes : String → Text
codes String.[] = []
codes (String.◌∷◌ c s) = code c ∷ codes s

infix 50 ◌==◌
unfoldable pub ◌==◌ : Text → Text → Bool
[] == [] = true
(x ∷ xs) == (y ∷ ys) = eqb x y && (xs == ys)
[] == (y ∷ ys) = false
(x ∷ xs) == [] = false

sound : (s t : Text) → (s == t) ≡ true → s ≡ t
unfolding ◌==◌
sound [] [] h = refl
sound (x ∷ xs) (y ∷ ys) h = ground (arith, sound xs ys)
sound [] (y ∷ ys) h = cc
sound (x ∷ xs) [] h = cc

pub eq_refl : (s : Text) → (s == s) ≡ true
unfolding ◌==◌
eq_refl [] = refl
eq_refl (x ∷ xs) = ground (arith, eq_refl xs)

complete : (s t : Text) → s ≡ t → (s == t) ≡ true
complete s t e = rw e (eq_refl t)

pub eq_iff : (s t : Text) → ((s == t) ≡ true) ↔ (s ≡ t)
eq_iff s t = (sound s t, complete s t)

pub eq-false : (s t : Text) → s ≢ t → (s == t) ≡ false
eq-false s t h = ground (arith, eq_iff s t)

pub ne_of_eq-false : (s t : Text) → (s == t) ≡ false → s ≢ t
ne_of_eq-false s t h e = cc (h, complete s t e)

-- `value` is one of the texts of the list: a Go switch, or a set of names.
unfoldable pub is_one_of : Text → List Text → Bool
is_one_of value [] = false
is_one_of value (t ∷ ts) = value == t || is_one_of value ts

-- What holds of all elements of a list holds of each that it has.
pub is_one_of-All :
    (P : Text → Type 0) (t : Text) (ts : List Text) → is_one_of t ts ≡ true → All P ts → P t
unfolding is_one_of
is_one_of-All P t [] h all = cc
is_one_of-All P t (u ∷ ts) h all = elim (||-eq-true (t == u) _ h) [
  | inl e ↦ subst P (sym ((eq_iff t u).0 e)) all.0
  | inr e ↦ is_one_of-All P t ts e all.1
]
