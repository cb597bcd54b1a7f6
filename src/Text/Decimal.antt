-- ===== src/Text/Decimal.antt =====
-- fmt's %d and strconv.Itoa.
use docker_in_k8s.Common.{
  ℕ, zero, suc, ◌+◌, ◌*◌, ◌/◌, ◌%◌, ◌<◌, ◌≡◌, refl, ◌∙◌, inl, inr, [], ◌∷◌, ◌++◌, arith, ltb,
  ltb→lt, if◌then◌else◌, Bool-cases, ◌-◌, ◌≢◌, All-append,
}
use docker_in_k8s.Common.Int.{ℤ, pos, negsuc}
use docker_in_k8s.Text.Equality.{Text}
use docker_in_k8s.Text.Split.{Lacks}

print_digits : ℕ → ℕ → Text
print_digits zero n = []
print_digits (suc fuel) n =
    let more = print_digits fuel (n / 10) ++ (b'0' + n % 10) ∷ [] in
    if ltb n 10 then (b'0' + n) ∷ [] else more

unfoldable pub print_nat : ℕ → Text
unfolding print_digits
print_nat n = print_digits (suc n) n

-- fmt's %d of a signed number
abbrev pub print_int : ℤ → Text
print_int (pos n) = print_nat n
print_int (negsuc n) = b'-' ∷ print_nat (suc n)

-- The number that decimal digits stand for, behind those already read.
unfoldable pub read_digits : ℕ → Text → ℕ
read_digits acc [] = acc
read_digits acc (c ∷ t) = read_digits (acc * 10 + (c - b'0')) t

read_digits-append :
    (acc : ℕ) (s t : Text) → read_digits acc (s ++ t) ≡ read_digits (read_digits acc s) t
unfolding read_digits
read_digits-append acc [] t = refl
read_digits-append acc (c ∷ s) t = read_digits-append (acc * 10 + (c - b'0')) s t

read_digits-print_digits : (fuel n : ℕ) → n < fuel → read_digits 0 (print_digits fuel n) ≡ n
unfolding print_digits read_digits
read_digits-print_digits zero n h = absurd (omega arith)
read_digits-print_digits (suc fuel) n h = elim (Bool-cases (ltb n 10)) [
  | inl e ↦ rw e (omega arith)
  | inr e ↦ rw e (
      read_digits-append 0 (print_digits fuel (n / 10)) ((b'0' + n % 10) ∷ [])
      ∙ rw (read_digits-print_digits fuel (n / 10) (ground arith)) (omega arith))
]

-- Numbers printed alike are equal.
pub print_nat_injective : (m n : ℕ) → print_nat m ≡ print_nat n → m ≡ n
unfolding print_nat
print_nat_injective m n e = cc (
  read_digits-print_digits (suc m) m (omega arith),
  read_digits-print_digits (suc n) n (omega arith),
)

digit-ne-dot : (n : ℕ) → n < 10 → b'0' + n ≢ b'.'
digit-ne-dot n h e = omega arith

-- There is no dot in a printed number.
print_digits-digits : (fuel n : ℕ) → Lacks b'.' (print_digits fuel n)
unfolding print_digits
print_digits-digits zero n = tt
print_digits-digits (suc fuel) n = elim (Bool-cases (ltb n 10)) [
  | inl e ↦ rw e (digit-ne-dot n (ltb→lt n 10 e), tt)
  | inr e ↦ rw e (
      All-append (λ x. x ≢ b'.') _ _ (print_digits-digits fuel (n / 10))
        (digit-ne-dot (n % 10) (omega arith), tt))
]

pub print_nat-digits : (n : ℕ) → Lacks b'.' (print_nat n)
unfolding print_nat
print_nat-digits n = print_digits-digits (suc n) n
