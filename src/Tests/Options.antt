-- ===== src/Tests/Options.antt =====
-- Options of `dockube build` that are single values or lists.
use docker_in_k8s.Common.{◌≡◌, refl, Bool, true, List, [], ◌∷◌, All, length}
use docker_in_k8s.Text.{
  Text, codes, ◌==◌, cut, trim, trim_left, trim_right, trim_space, contains_any, contains_char,
}
use docker_in_k8s.Result.{ok, traverse}
use docker_in_k8s.Build.Options.{ResultOptions}
use docker_in_k8s.Build.Hosts.{cut_host, checked_host, normalize_build_host, normalize_build_hosts}
use docker_in_k8s.Build.Hosts.Laws.{IsMapping, normalize_build_hosts-IsMapping}

abbrev quiet_result : ResultOptions
quiet_result = record {
  progress = codes "quiet";
  quiet = true;
  iid_file = codes "iid";
  metadata_file = [];
}

-- Taken for an IP address: a text of three letters.
abbrev is_ip : Text → Bool
is_ip t = t == codes "::1"

abbrev hosts : List Text
hosts = codes "db=[::1]" ∷ codes "db2:::1" ∷ []

normalize_build_hosts-IsMapping_example :
    (length (codes "db=[::1]" ∷ codes "db2=::1" ∷ []) ≡ 2)
    × All (IsMapping is_ip) (codes "db=[::1]" ∷ codes "db2=::1" ∷ [])
normalize_build_hosts-IsMapping_example =
    normalize_build_hosts-IsMapping is_ip hosts (codes "db=[::1]" ∷ codes "db2=::1" ∷ []) accepted
  where
    accepted : normalize_build_hosts is_ip hosts ≡ ok (codes "db=[::1]" ∷ codes "db2=::1" ∷ [])
    accepted =
        unfold normalize_build_hosts traverse normalize_build_host checked_host cut_host cut trim
          trim_space trim_left trim_right contains_any contains_char ◌==◌ in
        refl

abbrev entries : List Text
entries =
    codes "type=registry,ref=example.org/cache,registry.insecure=true" ∷ codes "type=inline" ∷ []
