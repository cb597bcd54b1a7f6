-- ===== src/Build/Credentials.antt =====
-- parseBuildSecrets, parseBuildSSH and buildSecretIDPattern. The operating system is a parameter, and
-- contents are lists of bytes; the value of a variable is ASCII, so that its code points are its bytes.
pub mod Laws
use docker_in_k8s.Common.{
  ℕ, Bool, true, false, not, ◌&&◌, ◌||◌, Option, none, some, List, [], ◌∷◌, if◌then◌else◌, is_nil,
  all, leb, eqb,
}
use docker_in_k8s.Text.{Text, codes, ◌==◌, is_one_of, Parts, cut, split}
use docker_in_k8s.Dicts.{Dict, insert, text_at}
use docker_in_k8s.Result.{Result, ok, err, message, wrap, ◌>>=◌}
use docker_in_k8s.Build.Repeats.{each_once}

pub data FileMode : Type 0 where
  socket regular other : FileMode

-- os.LookupEnv, os.ReadFile, os.Stat and filepath.Abs, whose error is dropped with an empty path.
pub record Host : Type 0 where
  pub lookup_env : Text → Option Text
  pub read_file : Text → Result (List ℕ)
  pub stat : Text → Result FileMode
  pub absolute : Text → Text

pub record Credential : Type 0 where
  pub id : Text
  pub contents : List ℕ
  pub source : Text

abbrev pub is_id_char : ℕ → Bool
is_id_char c =
    (leb b'A' c && leb c b'Z')
    || (leb b'a' c && leb c b'z')
    || (leb b'0' c && leb c b'9')
    || eqb c b'.'
    || eqb c b'_'
    || eqb c b'-'

-- buildSecretIDPattern
unfoldable pub is_id : Text → Bool
is_id t = not (is_nil t) && all is_id_char t

-- The loop over the fields of a secret's specification.
unfoldable pub read_fields : List Text → Dict Text → Result (Dict Text)
read_fields [] attributes = ok attributes
read_fields (field ∷ fields) attributes =
    let parts = cut field b'=' in
    let rest = read_fields fields (insert parts.before parts.after attributes) in
    if not parts.found || is_nil parts.before
    then err (message (codes "invalid secret specification"))
    else rest

-- The first text that is not empty, of a chain of defaults.
unfoldable pub first_given : List Text → Text
first_given [] = []
first_given (t ∷ ts) = let rest = first_given ts in if is_nil t then rest else t

abbrev is_set {ℓ} : {A : Type ℓ} → Option A → Bool
is_set none = false
is_set (some a) = true

abbrev or_empty : Option Text → Text
or_empty none = []
or_empty (some t) = t

module _ (os : Host) where
  unfoldable pub secret_type : Text → Dict Text → Text
  secret_type id attributes =
      let type = text_at (codes "type") attributes in
      if not (is_nil type)
      then type
      else if is_set (os.lookup_env id)
          && (is_nil (text_at (codes "src") attributes)
              && is_nil (text_at (codes "source") attributes))
      then codes "env"
      else codes "file"

  abbrev pub env_secret : Text → Option Text → Result Credential
  env_secret id none = err (message (codes "environment variable for build secret is not set"))
  env_secret id (some value) = ok (record { id = id; contents = value; source = [] })

  -- A credential read from a file, where `context` is the error's.
  unfoldable pub load_file : Text → Text → Text → Result Credential
  load_file context id path = do
    contents ← wrap context (os.read_file path)
    ok (record { id = id; contents = contents; source = os.absolute path })

  -- The switch over a secret's type.
  unfoldable pub load_secret : Text → Dict Text → Result Credential
  load_secret id attributes =
      let type = secret_type id attributes in
      let src = text_at (codes "src") attributes in
      let source = text_at (codes "source") attributes in
      let path = first_given (src ∷ source ∷ id ∷ []) in
      let variable = first_given (text_at (codes "env") attributes ∷ src ∷ source ∷ id ∷ []) in
      if type == codes "file"
      then load_file (codes "read build secret") id path
      else if type == codes "env"
      then env_secret id (os.lookup_env variable)
      else err (message (codes "build secret has unsupported type"))

  unfoldable pub checked_secret : List Text → Dict Text → Result Credential
  checked_secret seen attributes =
      let id = text_at (codes "id") attributes in
      if is_nil id || not (is_id id)
      then err (message (codes "secret has an invalid or missing id"))
      else if is_one_of id seen
      then err (message (codes "duplicate build secret id"))
      else load_secret id attributes

  unfoldable pub parse_secret : List Text → Text → Result Credential
  parse_secret seen spec = do
    attributes ← read_fields (split spec b',') []
    checked_secret seen attributes

  unfoldable pub parse_build_secrets : List Text → Result (List Credential)
  parse_build_secrets specs = each_once (λ s. s.id) parse_secret [] specs

  abbrev pub load_key : Text → Text → FileMode → Result Credential
  load_key id source socket = err (message (codes "SSH agent sockets are not yet supported"))
  load_key id source other = err (message (codes "SSH source is not a regular private-key file"))
  load_key id source regular = load_file (codes "read SSH source") id source

  unfoldable pub checked_ssh : List Text → Text → Text → Result Credential
  checked_ssh seen id source =
      if not (is_id id) || is_nil source
      then err (message (codes "invalid SSH specification; expected ID=PRIVATE_KEY_PATH"))
      else if is_one_of id seen
      then err (message (codes "duplicate SSH id"))
      else do mode ← wrap (codes "read SSH source") (os.stat source); load_key id source mode

  unfoldable pub parse_ssh : List Text → Text → Result Credential
  parse_ssh seen spec =
      let parts = cut spec b'=' in
      checked_ssh seen (if is_nil parts.before then codes "default" else parts.before)
        (if parts.found then parts.after else or_empty (os.lookup_env (codes "SSH_AUTH_SOCK")))

  unfoldable pub parse_build_ssh : List Text → Result (List Credential)
  parse_build_ssh specs = each_once (λ k. k.id) parse_ssh [] specs
