-- ===== src/Build/Remote.antt =====
-- What dockube build fetches: validateRemoteURL, downloadRemoteInput, cloneGitContext and textBuildContext.
pub mod Laws
use docker_in_k8s.Common.{
  ℕ, suc, ◌+◌, ◌||◌, ◌&&◌, not, Bool, true, false, Option, none, some, List, [], ◌∷◌, ◌++◌, is_nil,
  ltb, leb, length, any, eqb, if◌then◌else◌,
}
use docker_in_k8s.Common.Int.{ℤ, pos, negsuc}
use docker_in_k8s.Text.{Text, codes, ◌==◌, has_prefix, contains, cut, Parts, trim_prefix, is_one_of}
use docker_in_k8s.Result.{Result, ok, err, Error, message, wrap, ◌>>=◌, ◌>>◌}
use docker_in_k8s.Build.Archive.{limit, add64, is_negative}

-- isGitContext
unfoldable pub is_git_context : Text → Bool
is_git_context value =
    has_prefix value (codes "git+https://")
    || has_prefix value (codes "file://")
    || (has_prefix value (codes "https://") && contains (cut value b'#').before (codes ".git"))

-- The parts of a URL that are read; url.Parse is a parameter.
pub record Url : Type 0 where
  pub scheme : Text
  pub user : Bool
  pub host : Text

abbrev is_http : Result Url → Bool
is_http (err e) = false
is_http (ok url) = url.scheme == codes "https" || url.scheme == codes "http"

unfoldable pub is_remote_input : (Text → Result Url) → Text → Bool
is_remote_input parse value = is_http (parse value)

abbrev checked_url : Url → Result Url
checked_url url =
    if url.user
    then err (message (codes "URL-embedded credentials are not allowed"))
    else if not (url.scheme == codes "https")
    then err (message (codes "remote input scheme is not allowed; use verified HTTPS"))
    else if is_nil url.host
    then err (message (codes "remote input URL has no host"))
    else ok url

unfoldable pub validate_remote_url : (Text → Result Url) → Text → Result Url
validate_remote_url parse value = do url ← parse value; checked_url url

abbrev pub refuse : Bool → Text → Result (Unit {0})
refuse true text = err (message text)
refuse false text = ok tt

-- A response of the server; `save` copies at most so many bytes of its body into a new file, and says
-- the name of the file and how many bytes there were.
pub record Response : Type 0 where
  pub status : ℕ
  pub content_length : ℤ
  pub save : ℕ → Result (Text × ℕ)

-- What is called of libraries and of git. `get` requests a URL, and gives the URLs that it was sent on
-- to in turn with the last response; `make_directory` makes a
-- temporary directory, and `git` runs git; `sizes` has the sizes of the regular files below a directory, `read_file` the bytes of a file,
-- and `write_dockerfile` puts a Dockerfile into a new directory.
pub record Remote : Type 0 where
  pub parse_url : Text → Result Url
  pub get : Url → List Text × Result Response
  pub make_directory : Result Text
  pub git : List Text → Result (Unit {0})
  pub sizes : Text → Result (List ℕ)
  pub read_file : Text → Result Text
  pub is_utf8 : Text → Bool
  pub write_dockerfile : Text → Result Text

module _ (r : Remote) where
  -- CheckRedirect at each of the URLs, with the number of those before it.
  unfoldable pub check_redirects : ℕ → List Text → Result (Unit {0})
  unfolding validate_remote_url
  check_redirects redirects [] = ok tt
  check_redirects redirects (url ∷ rest) = do
    refuse (ltb 5 (suc redirects)) (codes "remote input exceeded five redirects")
    wrap (codes "unsafe remote redirect") (validate_remote_url r.parse_url url)
    check_redirects (suc redirects) rest

  abbrev is_longer : ℤ → ℕ → Bool
  is_longer (pos n) most = ltb most n
  is_longer (negsuc n) most = false

  abbrev stored : ℕ → Response → Result Text
  stored most response = do
    refuse (ltb response.status 200 || leb 300 response.status) (codes "remote input returned HTTP")
    refuse (is_longer response.content_length most) (codes "remote input exceeds the limit")
    (path, written) ← response.save (most + 1)
    refuse (ltb most written) (codes "remote input exceeds the limit")
    ok path

  unfoldable pub download_remote_input : Text → ℕ → Result Text
  unfolding validate_remote_url check_redirects
  download_remote_input value most = do
    url ← validate_remote_url r.parse_url value
    check_redirects 0 (r.get url).0
    response ← (r.get url).1
    stored most response

  -- The loop over the regular files of a clone.
  unfoldable pub check_sizes : ℕ → List ℕ → Result (Unit {0})
  check_sizes total [] = ok tt
  check_sizes total (size ∷ sizes) =
      let rest = check_sizes (add64 total size) sizes in
      if not (is_negative (add64 total size)) && ltb limit (add64 total size)
      then err (message (codes "Git build context exceeds the 2 GiB limit"))
      else rest

  abbrev checked_git_url : Result Url → Result (Unit {0})
  checked_git_url (err e) = err (message (codes "invalid Git context URL or embedded credentials"))
  checked_git_url (ok url) = do
    refuse url.user (codes "invalid Git context URL or embedded credentials")
    refuse (not (url.scheme == codes "https") && not (url.scheme == codes "file"))
        (codes "Git context scheme is unsupported; use verified HTTPS")

  abbrev clone_arguments : Text → Text → Text → List Text
  clone_arguments ref url root =
      codes "clone"
      ∷ codes "--depth=1"
      ∷ ((if is_nil ref then [] else codes "--branch" ∷ ref ∷ []) ++ codes "--" ∷ url ∷ root ∷ [])

  unfoldable pub clone_git_context : Text → Result Text
  unfolding check_sizes
  clone_git_context value =
      let parts = cut (trim_prefix value (codes "git+")) b'#' in
      do
        checked_git_url (r.parse_url parts.before)
        root ← r.make_directory
        wrap (codes "clone Git build context")
            (r.git (clone_arguments parts.after parts.before root))
        sizes ← r.sizes root
        check_sizes 0 sizes
        ok root

  -- textBuildContext
  unfoldable pub text_build_context : Text → Result Text
  text_build_context source = do
    contents ← r.read_file source
    refuse
        (ltb 16777216 (length contents)
          || (not (r.is_utf8 contents) || any (λ x. eqb x 0) contents))
        (codes "remote text Dockerfile is not valid UTF-8 or exceeds 16 MiB")
    r.write_dockerfile contents
