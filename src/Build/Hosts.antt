-- ===== src/Build/Hosts.antt =====
-- normalizeBuildHosts. `is_ip` says whether net.ParseIP reads a text.
pub mod Laws
use docker_in_k8s.Common.{
  ℕ, Bool, true, false, ◌||◌, not, List, [], ◌∷◌, ◌++◌, if◌then◌else◌, is_nil, eqb,
}
use docker_in_k8s.Text.{Text, codes, ◌==◌, Parts, cut, trim, trim_space, contains_any}
use docker_in_k8s.Result.{Result, ok, err, message, traverse}

-- The cut at the first "=", or at the first ":" of a value without one.
unfoldable pub cut_host : Text → Parts
cut_host value = let parts = cut value b'=' in if parts.found then parts else cut value b':'

abbrev is_bracket : ℕ → Bool
is_bracket c = eqb c b'[' || eqb c b']'

-- "\t\r\n ,="
abbrev pub host_separators : Text
host_separators = 9 ∷ 13 ∷ 10 ∷ codes " ,="

module _ (is_ip : Text → Bool) where
  -- The checks behind the cut, on the trimmed host and address.
  unfoldable pub checked_host : Bool → Text → Text → Result Text
  checked_host found host address =
      if not found || is_nil host || contains_any host host_separators
      then err (message (codes "invalid --add-host: expected HOST=IP"))
      else if address == codes "host-gateway"
      then err (
          message
            (codes "invalid --add-host: host-gateway would expose the Kubernetes node network"))
      else if not (is_ip (trim is_bracket address))
      then err (message (codes "invalid --add-host: address must be an IP literal"))
      else ok (host ++ b'=' ∷ address)

  unfoldable pub normalize_build_host : Text → Result Text
  normalize_build_host value =
      let parts = cut_host value in
      checked_host parts.found (trim_space parts.before) (trim_space parts.after)

  unfoldable pub normalize_build_hosts : List Text → Result (List Text)
  unfolding traverse
  normalize_build_hosts = traverse normalize_build_host
