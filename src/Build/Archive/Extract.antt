-- ===== src/Build/Archive/Extract.antt =====
-- The loops of extractBuildArchive and extractLocalOutput over the entries of a stream.
use docker_in_k8s.Common.{ℕ, List, [], ◌∷◌}
use docker_in_k8s.Text.{Text}
use docker_in_k8s.Result.{Result}
use docker_in_k8s.Cluster.Calls.{Action, lift, ◌>>=◌, ◌>>◌}
use docker_in_k8s.Build.Archive.{Header, Operation, archive_entry, local_entry}

-- `perform` carries an operation out on the host; a new file or link has its parents made, a file that
-- is there is an error, and a file's contents are copied from the stream. `end` is how the stream ends.
module _ {S : Type 0} (perform : Operation → Action S (Unit {0})) (end : Result (Unit {0})) where
  unfoldable pub extract_build_archive : Text → ℕ → List Header → Action S (Unit {0})
  unfolding archive_entry
  extract_build_archive root total [] = lift end
  extract_build_archive root total (h ∷ rest) = do
    (operation, total') ← lift (archive_entry root total h)
    perform operation
    extract_build_archive root total' rest

  unfoldable pub extract_local_output : Text → List Header → Action S (Unit {0})
  unfolding local_entry
  extract_local_output root [] = lift end
  extract_local_output root (h ∷ rest) = do
    operation ← lift (local_entry root h)
    perform operation
    extract_local_output root rest
