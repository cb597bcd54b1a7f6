-- ===== src/Text/Atoi.antt =====
-- strconv.Atoi, and strings.ToLower of an ASCII text.
use docker_in_k8s.Common.{
  ℕ, ◌+◌, ◌-◌, ◌^◌, ◌&&◌, Bool, Option, none, some, [], ◌∷◌, map, all, eqb, leb, suc, zero,
  if◌then◌else◌,
}
use docker_in_k8s.Common.Int.{ℤ, pos, negsuc}
use docker_in_k8s.Text.Equality.{Text}
use docker_in_k8s.Text.Decimal.{read_digits}

unfoldable pub is_digit : ℕ → Bool
is_digit c = leb b'0' c && leb c b'9'

-- -n
abbrev pub minus : ℕ → ℤ
minus zero = pos 0
minus (suc n) = negsuc n

-- The digits behind a sign: none where there are none, or another character among them.
unfoldable pub digits : Text → Option ℕ
unfolding is_digit read_digits
digits [] = none
digits (c ∷ t) = if all is_digit (c ∷ t) then some (read_digits 0 (c ∷ t)) else none

abbrev up_to : ℕ → (ℕ → ℤ) → Option ℕ → Option ℤ
up_to limit sign none = none
up_to limit sign (some n) = if leb n limit then some (sign n) else none

-- strconv.Atoi, none for its error: a number of 64 bits with a sign or none.
unfoldable pub atoi : Text → Option ℤ
unfolding digits
atoi [] = none
atoi (c ∷ t) =
    if eqb c b'-'
    then up_to (2 ^ 63) minus (digits t)
    else if eqb c b'+'
    then up_to (2 ^ 63 - 1) pos (digits t)
    else up_to (2 ^ 63 - 1) pos (digits (c ∷ t))

abbrev pub lower_ascii : Text → Text
lower_ascii = map (λ c. if leb b'A' c && leb c b'Z' then c + 32 else c)
