-- ===== src/Tests/Containers.antt =====
-- The spec, the Pod and the status of a web server.
use docker_in_k8s.Common.{◌≡◌, refl, none, some, [], ◌∷◌, true}
use docker_in_k8s.Common.Int.{pos}
use docker_in_k8s.Text.{codes, ◌==◌}
use docker_in_k8s.Result.{ok}
use docker_in_k8s.Api.Types.{ContainerSpec, Quantity, parsed, binary_si, Pod}
use docker_in_k8s.Api.Ids.{container_id}
use docker_in_k8s.Api.Spec.{spec, set_spec}
use docker_in_k8s.Api.Spec.RoundTrip.{spec-set_spec}
use docker_in_k8s.Api.Pod.{pod_for}
use docker_in_k8s.Api.Pod.Laws.{IsConfined, pod_for-IsConfined}
use docker_in_k8s.Api.Status.{status, status_map}
use docker_in_k8s.Api.Status.Laws.{status-status_map}
use docker_in_k8s.Tests.Concrete.{platform, codecs, codecs-IsKubeCodecs, web, web_spec, zero_digest}

-- The quantities as they are written in the Compose file and as they are read back.
abbrev sized : Quantity → Quantity → ContainerSpec
sized cpu memory = record web_spec {
  resources = record { limits = (codes "memory", memory) ∷ []; requests = (codes "cpu", cpu) ∷ [] };
}

spec-set_spec_example :
    spec codecs (set_spec codecs web (sized (parsed (codes "0.5")) (binary_si 1048576)))
    ≡ ok (sized (parsed (codes "500m")) (parsed (codes "1Mi")))
unfolding ◌==◌ codecs-IsKubeCodecs
spec-set_spec_example =
    spec-set_spec codecs-IsKubeCodecs (sized (parsed (codes "0.5")) (binary_si 1048576)) web refl
      refl

pod_for-IsConfined_example : IsConfined (pod_for platform web web_spec)
pod_for-IsConfined_example = pod_for-IsConfined platform web web_spec

-- A Pod whose container has failed.
abbrev failed : Pod
failed = record (pod_for platform web web_spec) {
  status = record {
    phase = codes "Failed";
    reason = codes "Evicted";
    message = [];
    start_time = some (codes "2026-01-01T00:00:01Z");
    conditions = [];
    container_statuses =
        record {
          waiting = none;
          terminated = some (record {
            exit_code = pos 137;
            finished_at = codes "2026-01-01T00:01:00Z";
            reason = codes "OOMKilled";
          });
        }
        ∷ [];
  };
}

status-status_map_example :
    let st = status zero_digest (record web { status = status_map zero_digest web failed }) in
    (st.id ≡ container_id zero_digest web.uid)
    × (st.phase ≡ codes "Failed")
    × (st.pod_name ≡ failed.name)
    × (st.reason ≡ codes "OOMKilled")
    × (st.exit_code ≡ pos 137)
    × (st.has_exit_code ≡ true)
status-status_map_example = status-status_map zero_digest web failed
