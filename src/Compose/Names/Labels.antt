-- ===== src/Compose/Names/Labels.antt =====
-- dnsName yields Kubernetes DNS labels, and changes exactly the texts that are none.
use docker_in_k8s.Common.{
  ℕ, ◌+◌, ◌≤◌, ◌<◌, ◌≡◌, refl, ◌≢◌, ◌↔◌, inl, inr, Bool, true, false, [], ◌∷◌, ◌++◌, map, arith,
  zero, suc, leb, leb→le, le→leb, length, is_nil, take, All, All-append, All-take, length-append,
  length-take, if◌then◌else◌, Bool-cases, subst,
}
use docker_in_k8s.Text.{
  Text, codes, trim, StartsOutside, EndsOutside, trim-StartsOutside, trim-EndsOutside, All-trim,
  length-trim, trim_of_outside, trim-ne-nil, EndsOutside-append,
}
use docker_in_k8s.Compose.Names.{is_label_char, is_dash, label_char, sanitize, shorten, dns_name}

-- A DNS label of RFC 1123, as Kubernetes asks for in the names of Services.
pub record IsDnsLabel (t : Text) : Type 0 where
  pub nonempty : 0 < length t
  pub short : length t ≤ 63
  pub chars : All (λ c. is_label_char c ≡ true) t
  pub starts : StartsOutside is_dash t
  pub ends : EndsOutside is_dash t

-- What is used of the digest: 64 hexadecimal digits in lower case.
abbrev pub is_hex : ℕ → Bool
is_hex c =
    if leb b'0' c
    then (if leb c b'9' then true else if leb b'a' c then leb c b'f' else false)
    else false

pub record IsDigest (sha : Text → Text) : Type 0 where
  pub sized : (t : Text) → length (sha t) ≡ 64
  pub hex : (t : Text) → All (λ c. is_hex c ≡ true) (sha t)

-- What is used of unicode.ToLower: it leaves lower-case ASCII letters, digits and the dash alone.
pub record IsLower (lower : ℕ → ℕ) : Type 0 where
  pub fixed : (c : ℕ) → is_label_char c ≡ true → lower c ≡ c

label_char-is_label_char : (c : ℕ) → is_label_char (label_char c) ≡ true
unfolding label_char
label_char-is_label_char c = ground arith

map-label_char : (t : Text) → All (λ c. is_label_char c ≡ true) (map label_char t)
map-label_char [] = tt
map-label_char (c ∷ t) = (label_char-is_label_char c, map-label_char t)

map-label_char_fixed :
    {lower : ℕ → ℕ}
    → IsLower lower
    → (t : Text) → All (λ c. is_label_char c ≡ true) t
    → map label_char (map lower t) ≡ t
unfolding label_char
map-label_char_fixed l [] h = refl
map-label_char_fixed {lower} l (c ∷ t) h =
    rw (l.fixed c h.0, map-label_char_fixed l t h.1) (ground (arith, h.0))

dash-label : is_label_char b'-' ≡ true
unfolding is_label_char
dash-label = refl

module _ (lower : ℕ → ℕ) (value : Text) where
  sanitize-chars : All (λ c. is_label_char c ≡ true) (sanitize lower value)
  unfolding sanitize
  sanitize-chars = All-trim is_dash _ _ (map-label_char (map lower value))

  sanitize-starts : StartsOutside is_dash (sanitize lower value)
  unfolding sanitize
  sanitize-starts = trim-StartsOutside is_dash (map label_char (map lower value))

  sanitize-ends : EndsOutside is_dash (sanitize lower value)
  unfolding sanitize
  sanitize-ends = trim-EndsOutside is_dash (map label_char (map lower value))

hex-label : (c : ℕ) → is_hex c ≡ true → is_label_char c ≡ true
unfolding is_label_char
hex-label c h = ground arith

hex-chars : (t : Text) → All (λ c. is_hex c ≡ true) t → All (λ c. is_label_char c ≡ true) t
hex-chars [] h = tt
hex-chars (c ∷ t) h = (hex-label c h.0, hex-chars t h.1)

hex-ends : (t : Text) → All (λ c. is_hex c ≡ true) t → EndsOutside is_dash t
hex-ends [] h = tt
hex-ends (c ∷ []) h = ground (arith, h.0)
hex-ends (c ∷ d ∷ t) h = hex-ends (d ∷ t) h.1

pos-ne-nil : (t : Text) → 0 < length t → t ≢ []
pos-ne-nil [] h = absurd (omega arith)
pos-ne-nil (c ∷ t) h = cc

ne-nil-pos : (t : Text) → is_nil t ≡ false → 0 < length t
ne-nil-pos [] h = cc
ne-nil-pos (c ∷ t) h = omega arith

starts-append :
    (s t : Text) → 0 < length s → StartsOutside is_dash s → StartsOutside is_dash (s ++ t)
starts-append [] t h k = absurd (omega arith)
starts-append (c ∷ s) t h k = k

starts-take : (n : ℕ) (t : Text) → StartsOutside is_dash t → StartsOutside is_dash (take n t)
starts-take zero t h = tt
starts-take (suc n) [] h = tt
starts-take (suc n) (c ∷ t) h = h

trim-pos : (t : Text) → 0 < length t → StartsOutside is_dash t → 0 < length (trim is_dash t)
trim-pos [] h k = absurd (omega arith)
trim-pos (c ∷ t) h k = elim (Bool-cases (is_nil (trim is_dash (c ∷ t)))) [
  | inl e ↦ absurd (trim-ne-nil is_dash c t k (is_nil-eq (trim is_dash (c ∷ t)) e))
  | inr e ↦ ne-nil-pos _ e
]
  where
    is_nil-eq : (s : Text) → is_nil s ≡ true → s ≡ []
    is_nil-eq [] h = refl
    is_nil-eq (d ∷ s) h = cc

-- A label but for its length, cut and given a digest's first eight digits.
module _ {sha : Text → Text} (d : IsDigest sha) where
  shorten-IsDnsLabel :
      (t : Text)
      → All (λ c. is_label_char c ≡ true) t
      → StartsOutside is_dash t
      → 63 < length t
      → IsDnsLabel (trim is_dash (take 54 t) ++ b'-' ∷ take 8 (sha t))
  shorten-IsDnsLabel t chars starts long =
      let head = trim is_dash (take 54 t) in
      let tail = take 8 (sha t) in
      let head_pos : 0 < length head =
        trim-pos (take 54 t) (omega (arith, length-take 54 t)) (starts-take 54 t starts) in
      let sized : length tail ≡ 8 = omega (arith, length-take 8 (sha t), d.sized t) in
      let whole : length (head ++ b'-' ∷ tail) ≡ length head + 9 =
        omega (arith, length-append head (b'-' ∷ tail)) in
      record {
        nonempty = omega arith;
        short = omega (arith, length-trim is_dash (take 54 t), length-take 54 t);
        chars =
            All-append _ head (b'-' ∷ tail) (All-trim is_dash _ (take 54 t) (All-take _ 54 t chars))
              (dash-label, hex-chars tail (All-take _ 8 (sha t) (d.hex t)));
        starts = starts-append head (b'-' ∷ tail) head_pos (trim-StartsOutside is_dash (take 54 t));
        ends = EndsOutside-append is_dash head (b'-' ∷ tail) (cc) (
            EndsOutside-append is_dash (b'-' ∷ []) tail (pos-ne-nil tail (omega arith))
              (hex-ends tail (All-take _ 8 (sha t) (d.hex t))));
      }

  close-IsDnsLabel :
      (t : Text)
      → All (λ c. is_label_char c ≡ true) t
      → StartsOutside is_dash t
      → EndsOutside is_dash t
      → 0 < length t
      → IsDnsLabel (shorten sha t)
  unfolding shorten
  close-IsDnsLabel t chars starts ends pos = elim (Bool-cases (leb (length t) 63)) [
    | inl e ↦ rw e (record {
      nonempty = pos;
      short = leb→le _ _ e;
      chars = chars;
      starts = starts;
      ends = ends;
    })
    | inr e ↦ rw e (shorten-IsDnsLabel t chars starts (ground arith))
  ]

dockube-IsDnsLabel : IsDnsLabel (codes "dockube")
unfolding is_label_char
dockube-IsDnsLabel = record {
  nonempty = omega arith;
  short = omega arith;
  chars = (refl, (refl, (refl, (refl, (refl, (refl, (refl, tt)))))));
  starts = refl;
  ends = refl;
}

shorten_of_short : (sha : Text → Text) (t : Text) → length t ≤ 63 → shorten sha t ≡ t
unfolding shorten
shorten_of_short sha t h = rw (le→leb _ _ h)

-- Whatever the text, dnsName yields a DNS label, if the digest has 64 hexadecimal digits: 1 to 63
-- lower-case letters, digits and dashes, with no dash at an end.
pub dns_name-IsDnsLabel :
    (lower : ℕ → ℕ) {sha : Text → Text}
    → IsDigest sha
    → (value : Text) → IsDnsLabel (dns_name lower sha value)
unfolding dns_name
dns_name-IsDnsLabel lower {sha} d value = elim (Bool-cases (is_nil (sanitize lower value))) [
  | inl e ↦ rw e (rw (shorten_of_short sha (codes "dockube") (omega arith)) dockube-IsDnsLabel)
  | inr e ↦ rw e (
      close-IsDnsLabel d _ (sanitize-chars lower value) (sanitize-starts lower value)
        (sanitize-ends lower value) (ne-nil-pos _ e))
]

sanitize_of_IsDnsLabel :
    {lower : ℕ → ℕ} → IsLower lower → (t : Text) → IsDnsLabel t → sanitize lower t ≡ t
unfolding sanitize
sanitize_of_IsDnsLabel l t h =
    rw (map-label_char_fixed l t h.chars) (trim_of_outside is_dash t h.starts h.ends)

is_nil_of_pos : (t : Text) → 0 < length t → is_nil t ≡ false
is_nil_of_pos [] h = absurd (omega arith)
is_nil_of_pos (c ∷ t) h = refl

dns_name_of_IsDnsLabel :
    {lower : ℕ → ℕ} (sha : Text → Text)
    → IsLower lower
    → (t : Text) → IsDnsLabel t
    → dns_name lower sha t ≡ t
unfolding dns_name
dns_name_of_IsDnsLabel sha l t h =
    rw (sanitize_of_IsDnsLabel l t h)
      (rw (is_nil_of_pos t h.nonempty) (shorten_of_short sha t h.short))

-- dnsName leaves a text as it is if and only if it is a DNS label, so the test of validate on
-- service names admits exactly these, if the digest has 64 hexadecimal digits and lower-casing
-- keeps the characters of labels.
pub dns_name-eq-self_iff :
    {lower : ℕ → ℕ} {sha : Text → Text}
    → IsLower lower
    → IsDigest sha
    → (t : Text) → (dns_name lower sha t ≡ t) ↔ IsDnsLabel t
dns_name-eq-self_iff {lower} {sha} l d t =
    (λ e. subst IsDnsLabel e (dns_name-IsDnsLabel lower d t), dns_name_of_IsDnsLabel sha l t)

-- A second application of dnsName changes nothing, if the digest has 64 hexadecimal digits and
-- lower-casing keeps the characters of labels.
pub dns_name_idempotent :
    {lower : ℕ → ℕ} {sha : Text → Text}
    → IsLower lower
    → IsDigest sha
    → (value : Text) → dns_name lower sha (dns_name lower sha value) ≡ dns_name lower sha value
dns_name_idempotent {lower} {sha} l d value =
    dns_name_of_IsDnsLabel sha l _ (dns_name-IsDnsLabel lower d value)
