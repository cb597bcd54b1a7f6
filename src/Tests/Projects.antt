-- ===== src/Tests/Projects.antt =====
-- A plan whose Service belongs to another project.
use docker_in_k8s.Common.{ℕ, zero, suc, ◌≡◌, refl, ◌↔◌, ◌⊎◌, true, false, List, [], ◌∷◌}
use docker_in_k8s.Text.{codes, ◌==◌}
use docker_in_k8s.Dicts.{Dict, text_at}
use docker_in_k8s.Result.{Error, Result, ok, err}
use docker_in_k8s.Compose.Plan.{Plan, object_labels}
use docker_in_k8s.Compose.Apply.{
  preflight, apply, apply_container, write_container, update_container, replace_container,
}
use docker_in_k8s.Compose.Apply.Owners.{Written, apply_container-Written}
use docker_in_k8s.Cluster.{Cluster}
use mathlib.Core.Option.{some}
use docker_in_k8s.Compose.Projects.{await_removal}
use docker_in_k8s.Compose.Apply.Preflight.{IsReady, preflight_iff, apply_of_not_ready}
use docker_in_k8s.Compose.Projects.Removal.{SeenGone, await_removal-SeenGone}
use docker_in_k8s.Compose.Resources.{VolumeConfig}
use docker_in_k8s.Api.Types.{ContainerSpec}
use docker_in_k8s.Api.Container.{DockerContainer}
use docker_in_k8s.Cluster.Calls.{Action}
use docker_in_k8s.Tests.Concrete.{platform, web, web_spec}
use docker_in_k8s.Tests.Memory.{fixed, Pods, memory, no_pods, foreign, memory-IsReadable}

abbrev shop : Plan
shop = record {
  name = codes "shop";
  services =
      record {
        name = codes "web";
        container_name = codes "shop-web";
        spec = web_spec;
        service = record foreign {
          labels = object_labels (codes "shop");
          resource_version = [];
          cluster_ip = [];
        };
      }
      ∷ [];
  volumes = record { name = codes "data"; claim_name = codes "shop-data"; external = false } ∷ [];
  configs = [];
  secrets = [];
  normalized = codes "name: shop";
}

shop_unready : ¬ IsReady memory (codes "default") memory-IsReadable no_pods shop
unfolding ◌==◌ text_at
shop_unready h = cc (h.2.0 foreign refl)

preflight_iff_example :
    (reply : Result (Unit {0})) × (preflight memory (codes "default") shop no_pods
      ≡ (reply, no_pods))
    × ((reply ≡ ok tt) ↔ IsReady memory (codes "default") memory-IsReadable no_pods shop)
preflight_iff_example = preflight_iff memory (codes "default") memory-IsReadable shop no_pods

apply_of_not_ready_example :
    (e : Error) × (apply memory (codes "default") platform (λ m. m) shop no_pods ≡ (err e, no_pods))
apply_of_not_ready_example =
    apply_of_not_ready memory (codes "default") memory-IsReadable platform (λ m. m) shop no_pods
      shop_unready

-- A wait in which the second list gives nothing more.
abbrev countdown : Action ℕ (List DockerContainer)
countdown zero = (ok [], zero)
countdown (suc n) = (ok (web ∷ []), n)

await_removal-SeenGone_example : (web ∷ [] ≡ []) ⊎ SeenGone countdown 0
unfolding await_removal
await_removal-SeenGone_example = await_removal-SeenGone countdown 3 (web ∷ []) 1 0 refl

abbrev volumes : Dict VolumeConfig
volumes =
    (codes "data", record { name = []; external = false })
    ∷ (codes "Cache", record { name = codes "shared_cache"; external = true })
    ∷ []

-- A cluster with a workload of the project under every name.
abbrev shop_web : DockerContainer
shop_web = record web { labels = object_labels (codes "shop") }

abbrev shop_spec : ContainerSpec
shop_spec = record web_spec { labels = object_labels (codes "shop") }

abbrev owning : Cluster
owning = record memory { containers = λ ns. fixed (λ n. some shop_web) }

apply_container-Written_example :
    (reply : Result DockerContainer) × (t : Pods) × ((owning.containers (codes "default")).get
        (codes "shop-web")
        no_pods
      ≡ (reply, t))
    × Written owning
        (codes "default")
        platform
        (λ m. m)
        (λ m s s' h. (s, h))
        (codes "shop-web")
        shop_spec
        reply
        t
        no_pods
apply_container-Written_example =
    apply_container-Written owning (codes "default") platform (λ m. m) (λ m s s' h. (s, h))
      (codes "shop-web") shop_spec no_pods no_pods accepted
  where
    accepted :
        apply_container owning
          (codes "default")
          platform
          (λ m. m)
          (codes "shop-web")
          shop_spec
          no_pods
        ≡ (ok tt, no_pods)
    accepted =
        unfold apply_container write_container update_container replace_container text_at ◌==◌ in
        refl
