-- ===== src/Build/Options.antt =====
-- The options of `dockube build` that are single values or plain lists: normalizeBuildResultOptions,
-- normalizeBuildArgs, normalizeCommaSeparated, normalizeBuildNetwork, normalizeShmSize and
-- normalizeBuildCall. An error's message is the fixed part of its text.
pub mod Laws
use docker_in_k8s.Common.{
  ℕ, Bool, true, false, ◌||◌, not, ◌&&◌, Option, none, some, List, [], ◌∷◌, ◌++◌, map,
  if◌then◌else◌, is_nil, eqb,
}
use docker_in_k8s.Text.{Text, codes, ◌==◌, is_one_of, contains_char, split, trim_space}
use docker_in_k8s.Result.{Result, ok, err, message}

pub record ResultOptions : Type 0 where
  pub progress : Text
  pub quiet : Bool
  pub iid_file : Text
  pub metadata_file : Text

-- The switch at the end of normalizeBuildResultOptions.
abbrev finish_result_options : Text → Text → Text → Result ResultOptions
finish_result_options progress iid_file metadata_file =
    if is_one_of progress (codes "plain" ∷ codes "quiet" ∷ codes "rawjson" ∷ [])
    then ok (record {
      progress = progress;
      quiet = progress == codes "quiet";
      iid_file = iid_file;
      metadata_file = metadata_file;
    })
    else err (message (codes "unsupported progress mode"))

unfoldable pub normalize_build_result_options : Text → Bool → Text → Text → Result ResultOptions
normalize_build_result_options progress quiet iid_file metadata_file =
    let mode = if progress == codes "auto" then codes "plain" else progress in
    if quiet
    then (if not (mode == codes "plain") && not (mode == codes "quiet")
        then err (message (codes "--quiet conflicts with --progress"))
        else finish_result_options (codes "quiet") iid_file metadata_file)
    else finish_result_options mode iid_file metadata_file

-- `getenv` is os.Getenv, "" for a variable that is not set.
unfoldable pub normalize_build_args : (Text → Text) → List Text → List Text
normalize_build_args getenv [] = []
normalize_build_args getenv (value ∷ values) =
    (if contains_char value b'=' then value else value ++ b'=' ∷ getenv value)
    ∷ normalize_build_args getenv values

-- The inner loop of normalizeCommaSeparated.
unfoldable pub trimmed_parts : List Text → List Text
trimmed_parts [] = []
trimmed_parts (part ∷ parts) =
    let rest = trimmed_parts parts in
    if is_nil (trim_space part) then rest else trim_space part ∷ rest

unfoldable pub normalize_comma_separated : List Text → List Text
normalize_comma_separated [] = []
normalize_comma_separated (value ∷ values) =
    trimmed_parts (split value b',') ++ normalize_comma_separated values

unfoldable pub normalize_build_network : Text → Result Text
normalize_build_network value =
    if is_one_of value (codes "" ∷ codes "default" ∷ [])
    then ok []
    else if value == codes "none"
    then ok (codes "none")
    else if value == codes "host"
    then err (message (codes "--network=host is disabled"))
    else err (message (codes "unsupported network mode"))

-- `ram_in_bytes` is units.RAMInBytes; its sizes that are not positive are refused with its errors.
unfoldable pub normalize_shm_size : (Text → Option ℕ) → Text → Result ℕ
normalize_shm_size ram_in_bytes value = if is_nil value then ok 0 else elim (ram_in_bytes value) [
  | none ↦ err (message (codes "invalid --shm-size"))
  | some bytes ↦ if eqb bytes 0 then err (message (codes "invalid --shm-size")) else ok bytes
]

abbrev pub call_modes : List Text
call_modes = codes "build" ∷ codes "check" ∷ codes "outline" ∷ codes "targets" ∷ []

abbrev finish_call : Text → Result Text
finish_call value =
    if is_one_of value call_modes then ok value else err (message (codes "unsupported build call"))

unfoldable pub normalize_build_call : Text → Bool → Result Text
normalize_build_call value check =
    if check
    then (if not (value == codes "build") && not (value == codes "check")
        then err (message (codes "--check conflicts with --call"))
        else finish_call (codes "check"))
    else finish_call value
