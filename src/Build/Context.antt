-- ===== src/Build/Context.antt =====
-- Build contexts: prepareBuildContextWithFile, buildContextMatcher, excludeBuildCredentialSources and
-- the selection of writeBuildContext. The disk is a parameter, and so is the pattern matcher; temporary
-- directories and their removal are left out.
pub mod Laws
use docker_in_k8s.Common.{
  ℕ, zero, suc, ◌||◌, ◌&&◌, not, Bool, true, false, Option, none, some, List, [], ◌∷◌, ◌++◌, map,
  filter, length, is_nil, if◌then◌else◌,
}
use docker_in_k8s.Text.{
  Text, codes, ◌==◌, is_one_of, split, join, has_prefix, contains, cut, clean, is_abs,
}
use docker_in_k8s.Result.{
  Result, ok, err, Error, message, is_not_found, wrap, traverse, ◌>>=◌, ◌>>◌,
}
use docker_in_k8s.Build.Credentials.{Credential, is_id}
use docker_in_k8s.Build.Repeats.{each_once}

-- filepath.Rel of two clean absolute paths: as many steps up as the base has parts that the target does
-- not share, and then the rest of the target.
abbrev steps_up : ℕ → List Text → List Text
steps_up zero tail = tail
steps_up (suc n) tail = codes ".." ∷ steps_up n tail

unfoldable pub rel_parts : List Text → List Text → List Text
rel_parts [] target = target
rel_parts (b ∷ base) [] = steps_up (length (b ∷ base)) []
rel_parts (b ∷ base) (t ∷ target) =
    let rest = rel_parts base target in
    if b == t then rest else steps_up (length (b ∷ base)) (t ∷ target)

abbrev pub path_parts : Text → List Text
path_parts path = filter (λ part. not (is_nil part)) (split path b'/')

abbrev joined : List Text → Text
joined [] = codes "."
joined (part ∷ parts) = join (part ∷ parts) b'/'

unfoldable pub rel : Text → Text → Text
unfolding rel_parts
rel base target = joined (rel_parts (path_parts base) (path_parts target))

abbrev pub leaves : Text → Bool
leaves relative = relative == codes ".." || has_prefix relative (codes "../")

pub data Kind : Type 0 where
  directory regular link special : Kind

-- What os.Stat and fs.DirEntry.Info say; `readable` is that a bit of 0o444 is set.
pub record FileInfo : Type 0 where
  pub kind : Kind
  pub readable : Bool

pub record PreparedContext : Type 0 where
  pub root : Text
  pub dockerfile : Text
  pub ignore_path : Text
  pub dockerfile_source : Text
  pub patterns : List Text
  pub excluded_paths : List Text

-- filepath.Abs, os.Stat, extractBuildArchive, the opening and reading of an ignore file, and the check of
-- its patterns by patternmatcher.New.
pub record Disk : Type 0 where
  pub absolute : Text → Result Text
  pub stat : Text → Result FileInfo
  pub extract : Text → Result Text
  pub open_file : Text → Result Text
  pub read_patterns : Text → Result (List Text)
  pub check_patterns : List Text → Result (Unit {0})

-- buildContextMatcher: the patterns, and the path of the file that they come from.
module _ (disk : Disk) where
  abbrev patterns_of : Text → Text → Result (List Text × Text)
  patterns_of ignore_path file = do
    patterns ← wrap (codes "read ignore file") (disk.read_patterns file)
    wrap (codes "parse ignore file") (disk.check_patterns patterns)
    ok (patterns, ignore_path)

  abbrev without_ignore_file : Result (List Text × Text)
  without_ignore_file = do disk.check_patterns []; ok ([], [])

  abbrev general_ignore : Result Text → Result (List Text × Text)
  general_ignore (ok file) = patterns_of (codes ".dockerignore") file
  general_ignore (err e) =
      if is_not_found e then without_ignore_file else wrap (codes "open .dockerignore") (err e)

  abbrev specific_ignore : Text → Text → Result Text → Result (List Text × Text)
  specific_ignore root ignore_path (ok file) = patterns_of ignore_path file
  specific_ignore root ignore_path (err e) =
      if is_not_found e
      then general_ignore (disk.open_file (root ++ codes "/.dockerignore"))
      else wrap (codes "open Dockerfile-specific ignore file") (err e)

  unfoldable pub build_context_matcher : Text → Text → Result (List Text × Text)
  build_context_matcher root dockerfile =
      let ignore_path = dockerfile ++ codes ".dockerignore" in
      specific_ignore root ignore_path (disk.open_file (root ++ b'/' ∷ ignore_path))

  abbrev root_of : Text → Kind → Result Text
  root_of root regular = disk.extract root
  root_of root directory = ok root
  root_of root _ = err (message (codes "build context is neither a directory nor a tar archive"))

  abbrev dockerfile_source_of : Bool → Text → Text → Result Text
  dockerfile_source_of explicit root dockerfile =
      if is_abs dockerfile
      then ok dockerfile
      else if explicit
      then disk.absolute dockerfile
      else ok (clean (root ++ b'/' ∷ dockerfile))

  abbrev not_directory : Kind → Result (Unit {0})
  not_directory directory = err (message (codes "is a directory"))
  not_directory _ = ok tt

  abbrev reject : Bool → Text → Result (Unit {0})
  reject true text = err (message text)
  reject false text = ok tt

  -- A Dockerfile below the root is sent with the context, another one under a name of its own.
  abbrev with_dockerfile : Text → Text → Result PreparedContext
  with_dockerfile root source =
      let relative = rel root source in
      let target = if leaves relative then codes ".dockube.Dockerfile" else relative in
      do
        (patterns, ignore_path) ← build_context_matcher root target
        ok (record {
          root = root;
          dockerfile = target;
          ignore_path = ignore_path;
          dockerfile_source = if leaves relative then source else [];
          patterns = patterns;
          excluded_paths = [];
        })

  -- prepareBuildContextWithFile. The permissions that it tests are those of the context, where the
  -- declaration of the Dockerfile's has ended.
  unfoldable pub prepare_build_context_with_file : Text → Text → Bool → Result PreparedContext
  unfolding rel build_context_matcher
  prepare_build_context_with_file given_root given_dockerfile explicit = do
    absolute ← disk.absolute given_root
    info ← disk.stat absolute
    root ← root_of absolute info.kind
    reject (given_dockerfile == codes "-") (codes "Dockerfile from stdin is not yet supported")
    let dockerfile = clean given_dockerfile
    reject (not explicit && (is_abs dockerfile || leaves dockerfile))
        (codes "Dockerfile must be inside the build context unless -f/--file is set explicitly")
    source ← dockerfile_source_of explicit root dockerfile
    found ← wrap (codes "Dockerfile") (disk.stat source)
    wrap (codes "Dockerfile") (not_directory found.kind)
    reject (not info.readable) (codes "Dockerfile is not readable")
    with_dockerfile root source

-- excludeBuildCredentialSources
abbrev exclude : Text → Text → List Text → List Text
exclude root source paths =
    if is_nil source || leaves (rel root source) then paths else rel root source ∷ paths

unfoldable pub excluded : Text → List Credential → List Text
unfolding rel
excluded root [] = []
excluded root (s ∷ rest) = exclude root s.source (excluded root rest)

unfoldable pub exclude_build_credential_sources :
    PreparedContext → List Credential → List Credential → PreparedContext
unfolding excluded
exclude_build_credential_sources ctx secrets ssh = record ctx {
  excluded_paths = excluded ctx.root (secrets ++ ssh);
}

-- An entry of the walk, by its path relative to the root.
pub record Entry : Type 0 where
  pub path : Text
  pub info : FileInfo

abbrev writable : Entry → Result (Option Text)
writable entry = elim entry.info.kind [
  | regular ↦
      if entry.info.readable
      then ok (some entry.path)
      else err (message (codes "build context file is not readable"))
  | special ↦ err (message (codes "unsupported special file in build context"))
  | _ ↦ ok (some entry.path)
]

abbrev unless_hidden : Bool → Entry → Result (Option Text)
unless_hidden true entry = ok none
unless_hidden false entry = writable entry

-- What the function that writeBuildContext walks with does with an entry: the name of the header that it
-- writes, if any. `ignored` is MatchesOrParentMatches.
unfoldable pub context_entry : (Text → Result Bool) → PreparedContext → Entry → Result (Option Text)
context_entry ignored ctx entry =
    if entry.path == codes "." || is_one_of entry.path ctx.excluded_paths then ok none else do
      hidden ← wrap (codes "match build context path") (ignored entry.path)
      unless_hidden
          (hidden && (not (entry.path == ctx.dockerfile) && not (entry.path == ctx.ignore_path)))
          entry

abbrev given : List (Option Text) → List Text
given [] = []
given (none ∷ rest) = given rest
given (some name ∷ rest) = name ∷ given rest

abbrev last_entry : PreparedContext → List Text
last_entry ctx = if is_nil ctx.dockerfile_source then [] else ctx.dockerfile ∷ []

-- The names in the archive of writeBuildContext.
unfoldable pub context_names :
    (Text → Result Bool) → PreparedContext → List Entry → Result (List Text)
unfolding context_entry
context_names ignored ctx entries = do
  names ← traverse (context_entry ignored ctx) entries
  ok (given names ++ last_entry ctx)
