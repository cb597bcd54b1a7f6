-- ===== src/Compose/Names.antt =====
-- internal/compose/project.go: dnsName and shortHash.
-- `lower` is unicode.ToLower and `sha` is the digest of crypto/sha256 as hexadecimal text.
pub mod Labels
use docker_in_k8s.Common.{
  ℕ, Bool, ◌&&◌, ◌||◌, ◌∷◌, ◌++◌, map, leb, eqb, length, is_nil, take, if◌then◌else◌,
}
use docker_in_k8s.Text.{Text, codes, trim}

-- The characters that dnsName keeps.
unfoldable pub is_label_char : ℕ → Bool
is_label_char r = (leb b'a' r && leb r b'z') || (leb b'0' r && leb r b'9') || eqb r b'-'

abbrev pub is_dash : ℕ → Bool
is_dash r = eqb r b'-'

unfoldable pub label_char : ℕ → ℕ
unfolding is_label_char
label_char r = if is_label_char r then r else b'-'

-- Lower case, every other character a dash, and no dash at the ends.
unfoldable pub sanitize : (ℕ → ℕ) → Text → Text
unfolding label_char trim
sanitize lower value = trim is_dash (map label_char (map lower value))

-- The end of dnsName: a name of more than 63 characters is cut and given a digest.
unfoldable pub shorten : (Text → Text) → Text → Text
unfolding trim
shorten sha name =
    if leb (length name) 63 then name else trim is_dash (take 54 name) ++ b'-' ∷ take 8 (sha name)

unfoldable pub dns_name : (ℕ → ℕ) → (Text → Text) → Text → Text
dns_name lower sha value =
    let trimmed = sanitize lower value in
    shorten sha (if is_nil trimmed then codes "dockube" else trimmed)

unfoldable pub short_hash : (Text → Text) → Text → Text
short_hash sha value = take 16 (sha value)
