-- ===== src/Build/Options/Laws.antt =====
-- What the normalised options can be.
use docker_in_k8s.Common.{
  ◌≡◌, ◌≢◌, ◌⊎◌, inl, inr, Bool, true, false, not, ◌||◌, if◌then◌else◌, not, List, [], ◌∷◌, arith,
  All, All-append, if◌then◌else◌, is_nil, ne-nil_of_is_nil, Bool-cases,
}
use docker_in_k8s.Text.{
  Text, codes, ◌==◌, eq_iff, eq_refl, is_one_of, split-Lacks, Lacks, trim_space, is_space, All-trim,
  StartsOutside, EndsOutside, trim-StartsOutside, trim-EndsOutside,
}
use docker_in_k8s.Result.{ok}
use docker_in_k8s.Build.Options.{
  ResultOptions, normalize_build_result_options, trimmed_parts, normalize_comma_separated,
  normalize_build_network, normalize_build_call, call_modes,
}

-- A progress mode that is accepted is one of three, quiet is set exactly by the mode quiet,
-- --quiet selects it, and the files are those given.
pub normalize_build_result_options-modes :
    (progress : Text) (quiet : Bool) (iid_file metadata_file : Text) (r : ResultOptions)
    → normalize_build_result_options progress quiet iid_file metadata_file ≡ ok r
    → (is_one_of r.progress (codes "plain" ∷ codes "quiet" ∷ codes "rawjson" ∷ []) ≡ true)
      × (r.quiet ≡ (r.progress == codes "quiet"))
      × ((not quiet || r.quiet) ≡ true)
      × (r.iid_file ≡ iid_file)
      × (r.metadata_file ≡ metadata_file)
unfolding normalize_build_result_options is_one_of
normalize_build_result_options-modes progress quiet iid_file metadata_file r h =
    ground (arith, eq_refl (codes "quiet"))

-- A part of a comma-separated option: no comma, no space at its ends, and not empty.
pub record IsItem (t : Text) : Type 0 where
  pub given : t ≢ []
  pub whole : Lacks b',' t
  pub starts : StartsOutside is_space t
  pub ends : EndsOutside is_space t

trim_space-IsItem :
    (part : Text) → Lacks b',' part → is_nil (trim_space part) ≡ false → IsItem (trim_space part)
unfolding trim_space
trim_space-IsItem part lacks given = record {
  given = ne-nil_of_is_nil _ given;
  whole = All-trim is_space _ part lacks;
  starts = trim-StartsOutside is_space part;
  ends = trim-EndsOutside is_space part;
}

trimmed_parts-IsItem :
    (parts : List Text) → All (Lacks b',') parts → All IsItem (trimmed_parts parts)
unfolding trimmed_parts
trimmed_parts-IsItem [] h = tt
trimmed_parts-IsItem (part ∷ parts) h = elim (Bool-cases (is_nil (trim_space part))) [
  | inl e ↦ rw e (trimmed_parts-IsItem parts h.1)
  | inr e ↦ rw e (trim_space-IsItem part h.0 e, trimmed_parts-IsItem parts h.1)
]

-- Every item of a comma-separated option is trimmed, holds no comma and is not empty.
pub normalize_comma_separated-IsItem :
    (values : List Text) → All IsItem (normalize_comma_separated values)
unfolding normalize_comma_separated
normalize_comma_separated-IsItem [] = tt
normalize_comma_separated-IsItem (value ∷ values) =
    All-append IsItem _ _ (trimmed_parts-IsItem _ (split-Lacks b',' value))
      (normalize_comma_separated-IsItem values)

-- A network mode that is accepted is the default or none, and never the node's network.
pub normalize_build_network-modes :
    (value network : Text)
    → normalize_build_network value ≡ ok network
    → ((network ≡ []) ⊎ (network ≡ codes "none")) × (value ≢ codes "host")
unfolding normalize_build_network is_one_of
normalize_build_network-modes value network h = ground (
  arith,
  eq_iff value (codes "host"),
  eq_iff value (codes "none"),
  eq_iff value (codes ""),
  eq_iff value (codes "default"),
)

-- A call that is accepted is one of four; it is check if --check is given, which goes with build
-- and check only, and else it is the one given.
pub normalize_build_call-modes :
    (value : Text) (check : Bool) (call : Text)
    → normalize_build_call value check ≡ ok call
    → (is_one_of call call_modes ≡ true)
      × (call ≡ (if check then codes "check" else value))
      × ((not check || is_one_of value (codes "build" ∷ codes "check" ∷ [])) ≡ true)
unfolding normalize_build_call is_one_of
normalize_build_call-modes value check call h = ground (
  arith,
  eq_iff value (codes "build"),
  eq_iff value (codes "check"),
  eq_refl (codes "check"),
  eq_refl (codes "build"),
)
