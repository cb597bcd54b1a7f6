-- ===== src/Build/Cache.antt =====
-- normalizeCacheEntries
pub mod Laws
use docker_in_k8s.Common.{Bool, true, false, ◌&&◌, ◌||◌, not, List, [], ◌∷◌, ◌++◌, if◌then◌else◌}
use docker_in_k8s.Text.{Text, codes, ◌==◌, Parts, cut, split, contains, contains_char}
use docker_in_k8s.Result.{Result, ok, err, message, traverse}

-- The loop over the fields of an entry: the last field type=… decides.
unfoldable pub cache_type_from : Text → List Text → Text
cache_type_from found [] = found
cache_type_from found (field ∷ fields) =
    let parts = cut field b'=' in
    cache_type_from (if parts.found && parts.before == codes "type" then parts.after else found)
      fields

abbrev pub cache_type : Text → Text
cache_type entry = cache_type_from [] (split entry b',')

-- A value without "=" is a reference to a registry.
unfoldable pub full_entry : Text → Text
full_entry value = if contains_char value b'=' then value else codes "type=registry,ref=" ++ value

unfoldable pub insecure_entry : Bool → Text → Text → Text
insecure_entry insecure type entry =
    if insecure && (type == codes "registry" && not (contains entry (codes "registry.insecure=")))
    then entry ++ codes ",registry.insecure=true"
    else entry

unfoldable pub normalize_cache_entry : Bool → Bool → Text → Result Text
normalize_cache_entry insecure export value =
    let entry = full_entry value in
    let type = cache_type entry in
    if not (type == codes "registry") && not (export && type == codes "inline")
    then err (message (codes "unsupported cache backend"))
    else ok (insecure_entry insecure type entry)

unfoldable pub normalize_cache_entries : List Text → Bool → Bool → Result (List Text)
unfolding traverse
normalize_cache_entries values insecure export =
    traverse (normalize_cache_entry insecure export) values
