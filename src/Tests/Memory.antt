-- ===== src/Tests/Memory.antt =====
-- A cluster whose state is its Pods, by namespace and name; of the other resources the Services and
-- claims are fixed, and nothing else is there.
use docker_in_k8s.Common.{refl, Option, none, some, List, [], ◌∷◌, if◌then◌else◌}
use docker_in_k8s.Text.{Text, codes, ◌==◌, eq_refl}
use docker_in_k8s.Result.{ok}
use docker_in_k8s.Api.Types.{Container, Pod}
use docker_in_k8s.Cluster.{Cluster, Resource, Service, found}
use docker_in_k8s.Controller.Quiet.{SameContainers, IsQuiet}
use docker_in_k8s.Compose.Apply.Preflight.{IsReadable}

abbrev pub Pods : Type 0
Pods = Text → Text → Option Pod

abbrev pub put : Pods → Text → Text → Option Pod → Pods
put s ns n v m k = if m == ns then (if k == n then v else s m k) else s m k

abbrev pub pod_store : Text → Resource Pods Pod
pod_store ns = record {
  get = λ n s. (found (s ns n), s);
  list = λ k v s. (ok [], s);
  create = λ o s. (ok o, put s ns o.name (some o));
  update = λ o s. (ok o, put s ns o.name (some o));
  delete = λ n grace s. (ok tt, put s ns n none);
}

abbrev pub fixed : {S Obj : Type 0} → (Text → Option Obj) → Resource S Obj
fixed at = record {
  get = λ n s. (found (at n), s);
  list = λ k v s. (ok [], s);
  create = λ o s. (ok o, s);
  update = λ o s. (ok o, s);
  delete = λ n grace s. (ok tt, s);
}

-- A Service of another project under the name web.
abbrev pub foreign : Service
foreign = record {
  name = codes "web";
  namespace = codes "default";
  labels = (codes "dockube.io/compose-project", codes "blog") ∷ [];
  resource_version = codes "1";
  selector = [];
  ports = [];
  cluster_ip = codes "10.0.0.1";
  settings = [];
}

abbrev pub foreign_at : Text → Option Service
foreign_at n = if n == codes "web" then some foreign else none

abbrev pub memory : Cluster
memory = record {
  State = Pods;
  containers = λ ns. fixed (λ n. none);
  update_status = λ ns o s. (ok o, s);
  pods = pod_store;
  services = λ ns. fixed foreign_at;
  config_maps = λ ns. fixed (λ n. none);
  claims = λ ns. fixed (λ n. none);
  secrets = λ ns. fixed (λ n. none);
}

abbrev pub pod_at : Pods → Text → Text → Option Pod
pod_at s = s

abbrev pub no_pods : Pods
no_pods ns n = none

pub alike : (cs : List Container) → SameContainers cs cs
alike [] = tt
alike (x ∷ xs) = (
  record {
    name = refl;
    image = refl;
    command = refl;
    args = refl;
    stdin = refl;
    tty = refl;
    env = refl;
    working_dir = refl;
    ports = refl;
    volume_mounts = refl;
  },
  alike xs,
)

pub memory-IsQuiet : IsQuiet memory pod_at
memory-IsQuiet = record {
  pods = λ ns. record {
    get_lem = λ s n. refl;
    create_lem = λ s o free. (
      o,
      put s ns o.name (some o),
      refl,
      (refl, refl, alike o.spec.containers),
      λ n. rw (eq_refl ns) refl,
    );
    delete_lem = λ s n grace o there. (put s ns n none, refl, λ m. rw (eq_refl ns) refl);
  };
  status = λ s ns o. (o, s, refl, λ m n. refl);
}

abbrev pub memory-IsReadable : IsReadable memory (codes "default")
memory-IsReadable = record {
  secret_at = λ s n. none;
  claim_at = λ s n. none;
  service_at = λ s n. foreign_at n;
  secrets = λ s n. refl;
  claims = λ s n. refl;
  services = λ s n. refl;
}
