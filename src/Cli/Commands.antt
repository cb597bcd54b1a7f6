-- ===== src/Cli/Commands.antt =====
-- The commands run, ps, rm, logs, stop, start, restart and exec, and what runs before a command.
pub mod Laws
use docker_in_k8s.Common.{
  ℕ, List, [], ◌∷◌, ◌++◌, Option, none, some, Bool, true, false, not, is_nil, if◌then◌else◌,
}
use docker_in_k8s.Common.Int.{ℤ}
use docker_in_k8s.Text.{Text, codes, ◌==◌, print_nat}
use docker_in_k8s.Result.{Result, ok, err, message}
use docker_in_k8s.Api.Types.{ContainerSpec, ContainerStatus, managed_by_label, managed_by_value}
use docker_in_k8s.Api.Platform.{Platform}
use docker_in_k8s.Api.Ids.{container_id, pod_name}
use docker_in_k8s.Api.Container.{DockerContainer, new_container}
use docker_in_k8s.Api.Spec.{spec_map}
use docker_in_k8s.Api.Status.{status}
use docker_in_k8s.Cluster.{Cluster}
use docker_in_k8s.Cluster.Calls.{Action, return, lift, attempt, ◌>>=◌, ◌>>◌}
use docker_in_k8s.Cli.Console.{Console, call, say, for_each}
use docker_in_k8s.Cli.Waits.{
  wait_for_phase, wait_for_deletion, wait_for_terminal, set_desired_state,
}
use docker_in_k8s.Cli.Lookup.{resolve_name}
use docker_in_k8s.Cli.Show.{heading, ps_rows}

abbrev opened : {Clients : Type 0} → Result Clients → Result (Option Clients)
opened (ok clients) = ok (some clients)
opened (err e) = err e

-- PersistentPreRunE: a command that is marked as local needs no cluster, another one a namespace and
-- the clients that `connect` makes.
unfoldable pub pre_run : {Clients : Type 0} → Bool → Text → Result Clients → Result (Option Clients)
pre_run local namespace connect =
    if local
    then ok none
    else if is_nil namespace
    then err (message (codes "namespace is required; set --namespace or DOCKUBE_NAMESPACE"))
    else opened connect

-- time.Now().UnixNano() is `nanos`.
unfoldable pub generated_name : ℕ → Text
generated_name nanos = codes "dockube-" ++ print_nat nanos

abbrev pub first_word : List Text → List Text
first_word [] = []
first_word (word ∷ words) = word ∷ []

abbrev pub other_words : List Text → List Text
other_words [] = []
other_words (word ∷ words) = words

-- The spec of dockube run, from its flags, the image and the words behind it.
unfoldable pub run_spec : Bool → Bool → Text → List Text → ContainerSpec
run_spec stdin tty image words = record {
  image = image;
  command = first_word words;
  args = other_words words;
  desired_state = codes "Running";
  stdin = stdin;
  tty = tty;
  env = [];
  working_dir = [];
  ports = [];
  mounts = [];
  resources = record { limits = []; requests = [] };
  readiness = none;
  liveness = none;
  startup = none;
  labels = [];
}

unfoldable pub running_pod_name : DockerContainer → ContainerStatus → Result Text
running_pod_name obj st =
    if not (st.phase == codes "Running")
    then err (message (codes "container " ++ obj.name ++ codes " is not running"))
    else if is_nil st.pod_name
    then err (message (codes "container " ++ obj.name ++ codes " has no active Pod"))
    else ok st.pod_name

-- The options of a Pod's exec and log subresources, and the requests to them.
pub record ExecOptions : Type 0 where
  pub container : Text
  pub command : List Text
  pub stdin : Bool
  pub stdout : Bool
  pub stderr : Bool
  pub tty : Bool

pub record LogOptions : Type 0 where
  pub container : Text
  pub follow : Bool
  pub tail_lines : Option ℤ

pub record Streams (S : Type 0) : Type 1 where
  pub exec : Text → Text → ExecOptions → Action (Console S) (Unit {0})
  pub Stream : Type 0
  pub open_logs : Text → Text → LogOptions → Action S Stream
  pub copy : Stream → Action (Console S) (Unit {0})
  pub close : Stream → Action S (Unit {0})

module _ (c : Cluster) (p : Platform) (clock : c.State → ℕ) (ns : Text) where
  abbrev Command : Type 0
  Command = Action (Console c.State) (Unit {0})

  abbrev pub resolve : Text → Action (Console c.State) Text
  resolve value = call (resolve_name c p ns value)

  -- One of the steps of stop, start and restart: to set the desired state and to wait for the phase.
  unfoldable pub reach : Text → Text → Command
  reach name state = do
    call (set_desired_state c ns name state)
    call (wait_for_phase c p clock ns name state)

  unfoldable pub state_one : Text → Text → Command
  unfolding reach
  state_one state value = do name ← resolve value; reach name state; say name

  unfoldable pub state_command : Text → List Text → Command
  unfolding state_one for_each
  state_command state = for_each (state_one state)

  abbrev pub stop_and_start : Text → Command
  stop_and_start name = do reach name (codes "Stopped"); reach name (codes "Running")

  unfoldable pub restart_one : Text → Command
  unfolding reach
  restart_one value = do name ← resolve value; stop_and_start name; say name

  unfoldable pub restart_command : List Text → Command
  unfolding restart_one for_each
  restart_command = for_each restart_one

  abbrev pub delete_and_wait : Text → Command
  delete_and_wait name = do
    call ((c.containers ns).delete name none)
    call (wait_for_deletion c p clock ns name)

  unfoldable pub remove_one : Text → Command
  remove_one value = do name ← resolve value; delete_and_wait name; say name

  unfoldable pub remove_command : List Text → Command
  unfolding remove_one for_each
  remove_command = for_each remove_one

  abbrev pub after_create : Bool → DockerContainer → Command
  after_create true created = say (container_id p.sha created.uid)
  after_create false created = do
    call (wait_for_terminal c p clock ns created.name)
    say (container_id p.sha created.uid)

  unfoldable pub run_command : ℕ → Text → Bool → Bool → Bool → Text → List Text → Command
  unfolding generated_name run_spec
  run_command nanos name detach stdin tty image words = do
    created ← call (
        (c.containers ns).create (
          new_container (spec_map p.codecs) (if is_nil name then generated_name nanos else name) ns
            (run_spec stdin tty image words)))
    after_create detach created

  -- `tabulate` is text/tabwriter.
  unfoldable pub ps_command : (List (List Text) → List Text) → (Text → ℤ) → Bool → Command
  ps_command tabulate age all = do
    items ← call ((c.containers ns).list managed_by_label managed_by_value)
    rows ← lift (ps_rows p age all items)
    for_each say (tabulate (heading ∷ rows))

  unfoldable pub exec_command : Streams c.State → Bool → Bool → Text → List Text → Command
  unfolding running_pod_name
  exec_command streams interactive tty value words = do
    name ← resolve value
    obj ← call ((c.containers ns).get name)
    pod ← lift (running_pod_name obj (status p.sha obj))
    streams.exec ns pod (record {
      container = codes "main";
      command = words;
      stdin = interactive;
      stdout = true;
      stderr = not tty;
      tty = tty;
    })

  -- The Pod that a container's logs come from.
  unfoldable pub logs_pod : Text → DockerContainer → Text
  logs_pod name obj =
      let pod = (status p.sha obj).pod_name in
      if is_nil pod then pod_name p.sha name obj.uid else pod

  unfoldable pub logs_command : Streams c.State → Bool → Option ℤ → Text → Command
  unfolding logs_pod
  logs_command streams follow tail value = do
    name ← resolve value
    obj ← call ((c.containers ns).get name)
    stream ← call (
        streams.open_logs ns (logs_pod name obj)
          (record { container = codes "main"; follow = follow; tail_lines = tail }))
    copied ← attempt (streams.copy stream)
    attempt (call (streams.close stream))
    lift copied
