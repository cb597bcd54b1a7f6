-- ===== src/Build/Inputs.antt =====
-- The contexts of a build from wherever they come: parseNamedBuildContexts, prepareNamedBuildContext
-- and prepareBuildContextInput. Temporary files and their removal are left out.
use docker_in_k8s.Common.{
  ℕ, ◌+◌, ◌||◌, ◌&&◌, not, Bool, true, false, List, [], ◌∷◌, is_nil, ltb, if◌then◌else◌,
}
use docker_in_k8s.Text.{Text, codes, ◌==◌, is_one_of, cut, contains}
use docker_in_k8s.Result.{Result, ok, err, Error, message, wrap, ◌>>=◌, ◌>>◌}
use docker_in_k8s.Build.Credentials.{is_id}
use docker_in_k8s.Build.Repeats.{each_once}
use docker_in_k8s.Build.Archive.{limit}
use docker_in_k8s.Build.Context.{
  Kind, directory, regular, Disk, PreparedContext, path_parts, build_context_matcher,
  prepare_build_context_with_file,
}
use docker_in_k8s.Build.Remote.{
  Remote, refuse, is_git_context, is_remote_input, download_remote_input, clone_git_context,
  text_build_context,
}

-- A named context of parseNamedBuildContexts; `prepare` is prepareNamedBuildContext.
unfoldable pub parse_named_build_contexts :
    {Context : Type 0} → (Text → Result Context) → List Text → Result (List (Text × Context))
parse_named_build_contexts {Context = Context} prepare specs =
    each_once (λ (named : Text × Context). named.0) step [] specs
  where
    step : List Text → Text → Result (Text × Context)
    step seen spec =
        let parts = cut spec b'=' in
        if not parts.found || not (is_id parts.before) || is_nil parts.after
        then err (message (codes "invalid build context; expected NAME=PATH_OR_URL"))
        else if is_one_of parts.before seen
        then err (message (codes "duplicate build context name"))
        else do
          context ← wrap (codes "prepare build context") (prepare parts.after)
          ok (parts.before, context)

-- Where contexts are read from. `receive` copies at most so many bytes of the standard input into a new
-- file, and says its name and how many bytes there were; `error_text` is what an error prints.
pub record Source : Type 0 where
  pub disk : Disk
  pub remote : Remote
  pub receive : ℕ → Result (Text × ℕ)
  pub error_text : Error → Text

abbrev unused_dockerfile : Text
unused_dockerfile = codes ".dockube-unused-Dockerfile"

-- A Dockerfile with whether it was named explicitly.
abbrev Named : Type 0
Named = Text × Bool

module _ (o : Source) where
  -- The directory of a root: itself, a clone, or a download.
  unfoldable pub fetch : Text → Result Text
  unfolding is_git_context is_remote_input clone_git_context download_remote_input
  fetch root =
      if is_git_context root
      then clone_git_context o.remote root
      else if is_remote_input o.remote.parse_url root
      then download_remote_input o.remote root limit
      else ok root

  abbrev opened : Text → Kind → Result Text
  opened root regular = o.disk.extract root
  opened root directory = ok root
  opened root _ = err (message (codes "named context is neither a directory nor a tar archive"))

  unfoldable pub prepare_named_build_context : Text → Result PreparedContext
  unfolding fetch build_context_matcher
  prepare_named_build_context source = do
    refuse (source == codes "-") (codes "stdin is reserved for the primary context or Dockerfile")
    fetched ← fetch source
    absolute ← o.disk.absolute fetched
    info ← o.disk.stat absolute
    root ← opened absolute info.kind
    (patterns, ignore_path) ← build_context_matcher o.disk root unused_dockerfile
    ok (record {
      root = root;
      dockerfile = unused_dockerfile;
      ignore_path = ignore_path;
      dockerfile_source = [];
      patterns = patterns;
      excluded_paths = [];
    })

  -- The standard input in a file.
  abbrev received : Text → ℕ → Result Text
  received text most = do
    (path, written) ← o.receive (most + 1)
    refuse (ltb most written) text
    ok path

  abbrev remote_dockerfile : Text → Bool → Result Named
  remote_dockerfile dockerfile explicit =
      if not (is_remote_input o.remote.parse_url dockerfile) then ok (dockerfile, explicit) else do
        path ←
            wrap (codes "download remote Dockerfile")
              (download_remote_input o.remote dockerfile 16777216)
        ok (path, true)

  abbrev remote_root : Text → Result Text
  remote_root root =
      if is_git_context root
      then clone_git_context o.remote root
      else if is_remote_input o.remote.parse_url root
      then wrap (codes "download remote build context") (download_remote_input o.remote root limit)
      else ok root

  abbrev stdin_root : Text → Result Text
  stdin_root root =
      if root == codes "-"
      then received (codes "stdin build context exceeds the 2 GiB limit") limit
      else ok root

  abbrev stdin_dockerfile : Named → Result Named
  stdin_dockerfile (dockerfile, explicit) =
      if not (dockerfile == codes "-") then ok (dockerfile, explicit) else do
        path ← received (codes "stdin Dockerfile exceeds the 16 MiB limit") 16777216
        ok (path, true)

  -- filepath.Base, where it is not a dot or a slash.
  abbrev base : List Text → Text
  base [] = []
  base (part ∷ []) = part
  base (part ∷ next ∷ rest) = base (next ∷ rest)

  unfoldable pub is_text_build_context : Text → Error → Bool
  is_text_build_context path e =
      contains (o.error_text e) (codes "read build context archive")
      && contains (base (path_parts path)) (codes "dockube-remote-input-")

  -- A download that is no archive is taken for a Dockerfile.
  abbrev or_text : Text → Text → Result PreparedContext → Result PreparedContext
  or_text root dockerfile (ok context) = ok context
  or_text root dockerfile (err e) =
      if is_text_build_context root e && dockerfile == codes "Dockerfile"
      then as_text e (text_build_context o.remote root)
      else err e
    where
      as_text : Error → Result Text → Result PreparedContext
      as_text e (err e') = err e
      as_text e (ok place) = prepare_build_context_with_file o.disk place (codes "Dockerfile") false

  unfoldable pub prepare_build_context_input : Text → Text → Bool → Result PreparedContext
  unfolding is_text_build_context
  prepare_build_context_input given_root given_dockerfile given_explicit = do
    refuse (given_root == codes "-" && given_dockerfile == codes "-")
        (codes "stdin cannot provide both the build context and Dockerfile")
    named ← remote_dockerfile given_dockerfile given_explicit
    fetched ← remote_root given_root
    root ← stdin_root fetched
    (dockerfile, explicit) ← stdin_dockerfile named
    or_text root dockerfile (prepare_build_context_with_file o.disk root dockerfile explicit)
