-- ===== src/Lib.antt =====
-- dockube runs containers, Compose projects and image builds on Kubernetes for a user who has no
-- Docker host. Its parts, and the files that model them:
--
-- - internal/api (container.go): the DockerContainer resource. Api/Types has its constants and
--   structs, Api/Container the object, Api/Spec the spec as JSON (specMap, SetSpec, Spec), Api/Status
--   the status (StatusMap, Status), Api/Ids the names (ContainerID, PodName), and Api/Pod the Pod of a
--   container (PodFor, SpecHash, keyToPathItems). Api/Json has the JSON values between them, and
--   Api/Platform what the program calls of libraries.
-- - internal/controller (reconciler.go): Controller has a pass over one container (Reconcile, with
--   finalize, updatePhase, updateStatus and updateStoppedStatus) and over all (ReconcileAll), and
--   Controller/Loop the loop around it (Run). Controller/Quiet has what a cluster does that nobody else
--   changes.
-- - internal/compose/project.go: Compose/Project has what is read of a compose-go project,
--   Compose/Validate validate and validateServiceFields, Compose/Translate translate and
--   translateService, Compose/Ports translatePorts, Compose/Probes translateResources, translateProbe
--   and seconds, Compose/Resources the volumes, configs and secrets of a plan, Compose/Names dnsName
--   and shortHash, and Compose/Plan the plan and objectMeta.
-- - internal/compose/apply.go: Compose/Apply has Apply and what it calls, Compose/Projects List,
--   SetState and Down.
-- - internal/cli/root.go: Cli/Commands has the bodies of the commands, Cli/Waits setDesiredState,
--   waitForPhase, waitForDeletion and waitForTerminal, Cli/Lookup resolveName, and Cli/Show what ps
--   prints (humanDuration, displayStatus). Cli/Poll is the loop that all waits share, and Cli/Console
--   the state of a command, the cluster's and the lines that are printed.
-- - internal/cli/compose.go: Cli/Projects has the bodies of the compose commands.
-- - internal/cli/build.go: Build/Command has the flags that `dockube build` refuses and the request
--   that the others make. Build/Options, Build/Hosts, Build/Cache, Build/Outputs, Build/Annotations
--   and Build/Attests have the functions that check its options, Build/Credentials its secrets and SSH
--   keys, and Build/Repeats the loops that refuse an id that repeats. Build/Context has the local
--   context and what is written of it (prepareBuildContextWithFile, buildContextMatcher,
--   writeBuildContext, excludeBuildCredentialSources), Build/Archive the archives that are extracted
--   (extractBuildArchive, extractLocalOutput), Build/Remote what is fetched (validateRemoteURL,
--   downloadRemoteInput, cloneGitContext, textBuildContext), and Build/Inputs the contexts from wherever
--   they come (prepareBuildContextInput, parseNamedBuildContexts, prepareNamedBuildContext).
--   Build/Registry has the mounts of the BuildKit container, Build/Frontend the arguments of buildctl,
--   and Build/Job the Job. Build/Run has runBuild and finalBuildError, Build/Steps the waits and the
--   commands in the Pod, Build/Builder the calls that they make and what they read of the replies, and
--   Build/Metadata the image ID of a build (buildImageID).
--
-- The commands change DockerContainer resources and the controller makes Pods of them; both speak to
-- the API server only, which Cluster has as an interface over an unknown state: a call returns its
-- reply and the state after it, so any other actor may have changed anything. A function that calls
-- the server is an action of Cluster/Calls, from a state to a reply and a state, in do blocks whose
-- steps are the source's calls; a reply whose error the source looks at is taken with `attempt`, and
-- a deferred call is `finally`. Theorems about passes of the controller have `IsQuiet` as a
-- hypothesis, what a cluster does that nobody else changes: a Pod that is deleted is gone at once,
-- updates of a status succeed, and a Pod is stored with its annotations and, of its containers, the
-- fields that the server does not fill in. `IsHeld` is that updates of finalizers succeed and nothing
-- else changes them. Those about preflight have `IsReadable`: a get answers with what is stored and
-- changes nothing.
--
-- Common, Text, Dicts and Result have the shared types. A text is the list of its code points, so a
-- length in bytes is right on ASCII only, which the names are that the program cuts. A Go map is an
-- association list in which the first entry of a key counts. An error that the program does not tell
-- apart is the fixed part of its message; a value that is formatted into it is left out. A time is the
-- text that it is formatted to. Loops over slices are recursions over lists. The fuel of a wait is the
-- number of its ticks before the end of its context, which `clock` gives in the state where the wait
-- begins and of which nothing is assumed; a wait without a tick left ends with the error of its
-- timeout, as in the source. The fuel of Down is the number of lists before its deadline, and
-- setDesiredState has the five attempts of its loop. The logs of a build run beside the waits
-- in the source; here they start and are joined where the source starts and joins them.
--
-- Parameters, since their code is not in the repository: the digest of crypto/sha256 with its length
-- and digits (IsDigest), unicode.ToLower on the characters of labels (IsLower), encoding/json at the
-- types of k8s.io/api with its round trip, in which a quantity is read back in its canonical form
-- (IsKubeCodecs), units.RAMInBytes, net.ParseIP, the environment and files of the client (Host, Disk),
-- retry.RetryOnConflict where apply.go calls it, whose success is that of its last try (IsRetry), the
-- patterns of patternmatcher, url.Parse, the requests of net/http and the runs of git (Remote), the
-- streams of remotecommand and of Pod logs (Streams, Builder), and the parser of compose-go. What
-- text/tabwriter lays out is the cells of a row.
--
-- Not modelled: the contents of the files that are copied to and from a tar stream, and the temporary
-- files and directories with their removal. Build/Command takes the preparation of contexts, and
-- Build/Run the reading of the metadata, as parameters, which stand for the functions of Build/Inputs and
-- Build/Metadata. The declaration of cobra flags, internal/kube and the two main packages connect and
-- print, and are left out.
pub mod Api
pub mod Build
pub mod Cli
pub mod Cluster
pub mod Common
pub mod Compose
pub mod Controller
pub mod Dicts
pub mod Result
pub mod Tests
pub mod Text
