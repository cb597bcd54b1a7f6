-- ===== src/Text/Paths.antt =====
-- filepath.Clean of a slash-separated path: its parts are walked from the left, where ".." takes back the
-- part before it, or is kept in front where there is none.
use docker_in_k8s.Common.{
  ℕ, zero, suc, ◌≡◌, refl, ◌≢◌, inl, inr, ◌||◌, ||-eq-false, Bool, false, List, [], ◌∷◌, is_nil,
  eqb, All, Bool-cases, if◌then◌else◌,
}
use docker_in_k8s.Text.Equality.{Text, codes, ◌==◌, ne_of_eq-false}
use docker_in_k8s.Text.Split.{split, join, Lacks, split-Lacks}
use docker_in_k8s.Text.Search.{has_prefix}

-- How far up a path begins, and the parts below that, the last one first.
pub record Walked : Type 0 where
  pub ups : ℕ
  pub down : List Text

abbrev up : Walked → Walked
up w = elim w.down [ [] ↦ record w { ups = suc w.ups } | part ∷ rest ↦ record w { down = rest } ]

abbrev enter : Walked → Text → Walked
enter w part =
    if is_nil part || part == codes "."
    then w
    else if part == codes ".."
    then up w
    else record w { down = part ∷ w.down }

unfoldable walk : Walked → List Text → Walked
walk w [] = w
walk w (part ∷ parts) = walk (enter w part) parts

abbrev reverse_onto : List Text → List Text → List Text
reverse_onto [] tail = tail
reverse_onto (x ∷ xs) tail = reverse_onto xs (x ∷ tail)

abbrev dots : ℕ → List Text → List Text
dots zero tail = tail
dots (suc n) tail = codes ".." ∷ dots n tail

abbrev pub is_abs : Text → Bool
is_abs [] = false
is_abs (c ∷ t) = eqb c b'/'

abbrev or_dot : List Text → Text
or_dot [] = codes "."
or_dot (part ∷ parts) = join (part ∷ parts) b'/'

abbrev at_root : Walked → Text
at_root w = b'/' ∷ join (reverse_onto w.down []) b'/'

abbrev from_here : Walked → Text
from_here w = or_dot (dots w.ups (reverse_onto w.down []))

unfoldable pub clean : Text → Text
unfolding walk
clean path =
    let w = walk (record { ups = 0; down = [] }) (split path b'/') in
    if is_abs path then at_root w else from_here w

-- The names that leave the directory, or are it: the guard of both extractions.
unfoldable pub is_unsafe : Text → Bool
is_unsafe name =
    name == codes "." || is_abs name || name == codes ".." || has_prefix name (codes "../")

-- A part that names an entry of the directory before it.
abbrev pub IsName : Text → Type 0
IsName part = (part ≢ []) × (part ≢ codes ".") × (part ≢ codes "..") × Lacks b'/' part

enter-IsName :
    (w : Walked) (part : Text)
    → Lacks b'/' part
    → All IsName w.down
    → All IsName (enter w part).down
enter-IsName w part lacks h = elim (Bool-cases (is_nil part || part == codes ".")) [
  | inl e ↦ rw e h
  | inr e ↦ elim (Bool-cases (part == codes "..")) [
    | inl d ↦ rw (e, d) (up-IsName w.ups w.down h)
    | inr d ↦
        rw (e, d)
          (let (given, other) = ||-eq-false (is_nil part) _ e in
            ((given_ne part given, ne_of_eq-false _ _ other, ne_of_eq-false _ _ d, lacks), h))
  ]
]
  where
    given_ne : (t : Text) → is_nil t ≡ false → t ≢ []
    given_ne [] h = cc
    given_ne (x ∷ t) h = cc

    up-IsName :
        (ups : ℕ) (down : List Text)
        → All IsName down
        → All IsName (up (record { ups = ups; down = down })).down
    up-IsName ups [] h = tt
    up-IsName ups (part ∷ rest) h = h.1

walk-IsName :
    (w : Walked) (parts : List Text)
    → All (Lacks b'/') parts
    → All IsName w.down
    → All IsName (walk w parts).down
unfolding walk
walk-IsName w [] lacks h = h
walk-IsName w (part ∷ parts) (here, lacks) h =
    walk-IsName (enter w part) parts lacks (enter-IsName w part here h)

reverse_onto-All :
    (xs tail : List Text) → All IsName xs → All IsName tail → All IsName (reverse_onto xs tail)
reverse_onto-All [] tail h k = k
reverse_onto-All (x ∷ xs) tail (p, h) k = reverse_onto-All xs (x ∷ tail) h (p, k)

-- A path below a directory: the names of entries, one in the other.
abbrev pub IsInside : Text → Type 0
IsInside name = (parts : List Text) × (parts ≢ []) × All IsName parts × (name ≡ join parts b'/')

dotted : (rest : List Text) → is_unsafe (or_dot (codes ".." ∷ rest)) ≡ false → ⊥
unfolding is_unsafe join has_prefix ◌==◌
dotted [] h = cc
dotted (part ∷ rest) h = cc

inside :
    (ups : ℕ) (parts : List Text)
    → All IsName parts
    → is_unsafe (or_dot (dots ups parts)) ≡ false
    → IsInside (or_dot (dots ups parts))
unfolding is_unsafe ◌==◌
inside (suc n) parts h safe = absurd (dotted (dots n parts) safe)
inside zero [] h safe = cc
inside zero (part ∷ parts) h safe = (part ∷ parts, (λ e. cc), h, refl)

rooted : (t : Text) → is_unsafe (b'/' ∷ t) ≡ false → ⊥
unfolding is_unsafe ◌==◌
rooted t h = cc

-- A cleaned path that is not unsafe leads to a place below the directory.
pub clean-IsInside : (path : Text) → is_unsafe (clean path) ≡ false → IsInside (clean path)
unfolding clean
clean-IsInside path = elim (Bool-cases (is_abs path)) [
  | inl e ↦ rw e (λ safe. absurd (rooted _ safe))
  | inr e ↦ rw e (
      inside (walk start (split path b'/')).ups _
        (reverse_onto-All _ [] (walk-IsName start (split path b'/') (split-Lacks b'/' path) tt) tt))
]
  where
    start : Walked
    start = record { ups = 0; down = [] }
