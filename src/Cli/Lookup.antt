-- ===== src/Cli/Lookup.antt =====
-- resolveName: a container by its name, or by a prefix of its ID that no other container has.
pub mod Laws
use docker_in_k8s.Common.{ℕ, List, [], ◌∷◌, ◌++◌, is_nil, if◌then◌else◌, Bool, ◌&&◌}
use docker_in_k8s.Text.{Text, codes, has_prefix}
use docker_in_k8s.Result.{Result, ok, err, Error, message, is_not_found}
use docker_in_k8s.Cluster.{Cluster}
use docker_in_k8s.Cluster.Calls.{Action, lift, raise, return, attempt, ◌>>=◌, ◌>>◌}
use docker_in_k8s.Api.Types.{managed_by_label, managed_by_value}
use docker_in_k8s.Api.Platform.{Platform}
use docker_in_k8s.Api.Container.{DockerContainer}
use docker_in_k8s.Api.Status.{status}

abbrev pub ambiguous : Text → Error
ambiguous value = message (codes "container ID prefix " ++ value ++ codes " is ambiguous")

abbrev pub no_such : Text → Error
no_such value = message (codes "no such container: " ++ value)

module _ (p : Platform) (value : Text) where
  -- The ID of the container starts with the value.
  unfoldable pub has_id_prefix : DockerContainer → Bool
  has_id_prefix obj = has_prefix (status p.sha obj).id value

  -- The loop of resolveName, with the match so far.
  unfoldable pub match_ids : Text → List DockerContainer → Result Text
  unfolding has_id_prefix
  match_ids match [] = if is_nil match then err (no_such value) else ok match
  match_ids match (obj ∷ items) =
      let here = if is_nil match then match_ids obj.name items else err (ambiguous value) in
      let rest = match_ids match items in if has_id_prefix obj then here else rest

module _ (c : Cluster) (p : Platform) (ns : Text) where
  -- What resolveName does with the reply to its read of the value as a name.
  unfoldable pub resolve_reply : Text → Result DockerContainer → Action c.State Text
  resolve_reply value (ok obj) = return value
  resolve_reply value (err e) =
      if is_not_found e
      then (do
        items ← (c.containers ns).list managed_by_label managed_by_value
        lift (match_ids p value [] items))
      else raise e

  unfoldable pub resolve_name : Text → Action c.State Text
  resolve_name value = do reply ← attempt ((c.containers ns).get value); resolve_reply value reply
