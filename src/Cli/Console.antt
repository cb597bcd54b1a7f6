-- ===== src/Cli/Console.antt =====
-- What a command works on: the cluster, and what it has printed, a line or a piece of output at a time.
use docker_in_k8s.Common.{List, [], ◌∷◌, ◌++◌}
use docker_in_k8s.Text.{Text}
use docker_in_k8s.Result.{ok}
use docker_in_k8s.Cluster.Calls.{Action, return, ◌>>◌}

abbrev pub Console : Type 0 → Type 0
Console S = S × List Text

-- A call to the cluster, which prints nothing.
abbrev pub call : {S A : Type 0} → Action S A → Action (Console S) A
call m (s, out) = ((m s).0, ((m s).1, out))

-- fmt.Fprintln(opts.out, line)
abbrev pub say : {S : Type 0} → Text → Action (Console S) (Unit {0})
say line (s, out) = (ok tt, (s, out ++ line ∷ []))

-- A loop of a command, over its arguments or the services of a project.
unfoldable pub for_each : {S A : Type 0} → (A → Action S (Unit {0})) → List A → Action S (Unit {0})
for_each body [] = return tt
for_each body (value ∷ values) = do body value; for_each body values
