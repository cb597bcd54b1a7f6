-- ===== src/Cluster.antt =====
-- The Kubernetes API server as the program sees it through client-go, an interface over an unknown
-- state. A call returns its reply and the state after it, in which other actors may have changed
-- anything; `IsStore` is the documented behaviour of a resource that nobody else changes.
pub mod Calls
use docker_in_k8s.Common.{ℕ, ◌≡◌, Bool, Option, none, some, List, if◌then◌else◌}
use docker_in_k8s.Common.Int.{ℤ}
use docker_in_k8s.Text.{Text, ◌==◌}
use docker_in_k8s.Dicts.{Dict}
use docker_in_k8s.Result.{Result, ok, err, Error, not_found}
use docker_in_k8s.Api.Types.{Pod}
use docker_in_k8s.Api.Container.{DockerContainer}
use Calls.{Action}

-- One kind of object in one namespace. A list takes a label selector KEY=VALUE, a deletion the grace
-- period of its options.
pub record Resource (S Obj : Type 0) : Type 0 where
  pub get : Text → Action S Obj
  pub list : Text → Text → Action S (List Obj)
  pub create : Obj → Action S Obj
  pub update : Obj → Action S Obj
  pub delete : Text → Option ℕ → Action S (Unit {0})

pub record ServicePort : Type 0 where
  pub name : Text
  pub port : ℤ
  pub target_port : ℤ
  pub protocol : Text

-- `settings` stands for the fields that the server fills in and applyService carries over:
-- ClusterIPs, IPFamilies, IPFamilyPolicy and InternalTrafficPolicy.
pub record Service : Type 0 where
  pub name : Text
  pub namespace : Text
  pub labels : Dict Text
  pub resource_version : Text
  pub selector : Dict Text
  pub ports : List ServicePort
  pub cluster_ip : Text
  pub settings : List Text

pub record ConfigMap : Type 0 where
  pub name : Text
  pub namespace : Text
  pub labels : Dict Text
  pub contents : Dict Text

pub record Claim : Type 0 where
  pub name : Text
  pub namespace : Text
  pub labels : Dict Text
  pub access_modes : List Text
  pub storage : Text

pub record Secret : Type 0 where
  pub name : Text

pub record Cluster : Type 1 where
  pub State : Type 0
  pub containers : Text → Resource State DockerContainer
  pub update_status : Text → DockerContainer → Action State DockerContainer
  pub pods : Text → Resource State Pod
  pub services : Text → Resource State Service
  pub config_maps : Text → Resource State ConfigMap
  pub claims : Text → Resource State Claim
  pub secrets : Text → Resource State Secret

abbrev pub found {ℓ} : {A : Type ℓ} → Option A → Result A
found none = err not_found
found (some a) = ok a

-- A resource that stores what it is given, with no other writer: a get answers with what is stored, a
-- create under a free name stores the object as the server admits it, and a deletion removes it.
-- `Same` says which fields the server leaves as they were sent.
pub record IsStore {S Obj : Type 0} (r : Resource S Obj) (at : S → Text → Option Obj)
    (name_of : Obj → Text) (Same : Obj → Obj → Type 0) : Type 0 where
  pub get_lem : (s : S) (n : Text) → r.get n s ≡ (found (at s n), s)
  pub create_lem :
      (s : S) (o : Obj)
      → at s (name_of o) ≡ none
      → (o' : Obj) × (s' : S) × (r.create o s ≡ (ok o', s'))
        × Same o o'
        × ((n : Text) → at s' n ≡ (if n == name_of o then some o' else at s n))
  pub delete_lem :
      (s : S) (n : Text) (grace : Option ℕ) (o : Obj)
      → at s n ≡ some o
      → (s' : S) × (r.delete n grace s ≡ (ok tt, s'))
        × ((m : Text) → at s' m ≡ (if m == n then none else at s m))
