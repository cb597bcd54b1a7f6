-- ===== src/Build/Archive.antt =====
-- extractBuildArchive and extractLocalOutput: the entries of a tar stream, as operations on a file
-- system. An int64 is its two's complement, and filepath.Join of a clean root and a clean name below it
-- puts a slash between them.
pub mod Laws
pub mod Extract
use docker_in_k8s.Common.{
  ℕ, ◌+◌, ◌^◌, ◌%◌, ◌&&◌, ◌||◌, not, Bool, true, false, Option, none, some, List, [], ◌∷◌, ◌++◌,
  leb, ltb, if◌then◌else◌,
}
use docker_in_k8s.Text.{Text, codes, ◌==◌, clean, is_unsafe}
use docker_in_k8s.Result.{Result, ok, err, Error, message, ◌>>=◌}

pub data Kind : Type 0 where
  directory regular symlink other : Kind

pub record Header : Type 0 where
  pub name : Text
  pub kind : Kind
  pub size : ℕ
  pub mode : ℕ
  pub link_name : Text

-- What an entry does: nothing, a directory, a new file with so much of the stream, or a symbolic link.
pub data Operation : Type 0 where
  skip : Operation
  make_dirs : Text → ℕ → Operation
  create : Text → ℕ → ℕ → Operation
  link : Text → Text → Operation

-- maxArchiveContextSize
abbrev pub limit : ℕ
limit = 2 ^ 31

abbrev pub add64 : ℕ → ℕ → ℕ
add64 a b = (a + b) % 2 ^ 64

abbrev pub is_negative : ℕ → Bool
is_negative n = leb (2 ^ 63) n

-- The total behind a file of a size: refused where the size is negative or the total is above the limit.
unfoldable pub add_size : ℕ → ℕ → Result ℕ
add_size total size =
    let total' = add64 total size in
    if is_negative size || (not (is_negative total') && ltb limit total')
    then err (message (codes "build context archive exceeds the 2 GiB extraction limit"))
    else ok total'

abbrev is_directory : Kind → Bool
is_directory directory = true
is_directory _ = false

-- header.Mode & 0o777
abbrev permissions : ℕ → ℕ
permissions mode = mode % 512

-- The name of an entry, cleaned: none where it is the directory itself.
unfoldable pub safe_name : Text → Header → Result (Option Text)
safe_name what h =
    let name = clean h.name in
    if name == codes "." && is_directory h.kind
    then ok none
    else if is_unsafe name
    then err (message (codes "unsafe path in " ++ what))
    else ok (some name)

abbrev pub below : Text → Text → Text
below root name = root ++ b'/' ∷ name

abbrev archive_operation : Text → ℕ → Header → Kind → Result (Operation × ℕ)
archive_operation target total h directory = ok (make_dirs target 0o755, total)
archive_operation target total h regular = do
  total' ← add_size total h.size
  ok (create target (permissions h.mode) h.size, total')
archive_operation target total h symlink = ok (link h.link_name target, total)
archive_operation target total h other =
    err (message (codes "unsupported special file in build context archive"))

abbrev pub archive_named : Text → ℕ → Header → Option Text → Result (Operation × ℕ)
archive_named root total h none = ok (skip, total)
archive_named root total h (some name) = archive_operation (below root name) total h h.kind

-- An entry of extractBuildArchive, with the total before it and behind it.
unfoldable pub archive_entry : Text → ℕ → Header → Result (Operation × ℕ)
unfolding add_size
archive_entry root total h = do
  name ← safe_name (codes "build context archive") h
  archive_named root total h name

abbrev local_operation : Text → Header → Kind → Result Operation
local_operation target h directory = ok (make_dirs target (permissions h.mode))
local_operation target h regular = ok (create target (permissions h.mode) h.size)
local_operation target h _ = err (message (codes "unsafe special file in local output"))

abbrev pub local_named : Text → Header → Option Text → Result Operation
local_named root h none = ok skip
local_named root h (some name) = local_operation (below root name) h h.kind

-- An entry of extractLocalOutput.
unfoldable pub local_entry : Text → Header → Result Operation
local_entry root h = do name ← safe_name (codes "local output") h; local_named root h name
