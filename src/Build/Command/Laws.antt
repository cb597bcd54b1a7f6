-- ===== src/Build/Command/Laws.antt =====
-- What a request of dockube build never asks for.
use docker_in_k8s.Common.{
  ◌≡◌, refl, ◌⊎◌, not, none, Bool, true, false, List, [], ◌∷◌, ◌++◌, is_nil, All, subst,
}
use docker_in_k8s.Text.{Text, codes, ◌==◌, join}
use docker_in_k8s.Result.{Result, ok, >>=-eq-ok, ◌>>◌, ok-injective, err-ne-ok}
use docker_in_k8s.Build.Options.{
  normalize_shm_size, normalize_build_network, normalize_build_result_options, normalize_build_call,
}
use docker_in_k8s.Build.Options.Laws.{normalize_build_network-modes}
use docker_in_k8s.Build.Hosts.{normalize_build_hosts}
use docker_in_k8s.Build.Hosts.Laws.{IsMapping, normalize_build_hosts-IsMapping}
use docker_in_k8s.Build.Cache.{normalize_cache_entries}
use docker_in_k8s.Build.Outputs.{normalize_build_outputs}
use docker_in_k8s.Build.Annotations.{apply_build_annotations}
use docker_in_k8s.Build.Attests.{normalize_build_attests}
use docker_in_k8s.Build.Credentials.{Credential, parse_build_secrets, parse_build_ssh}
use docker_in_k8s.Build.Credentials.Laws.{
  AreCredentials, parse_build_secrets-AreCredentials, parse_build_ssh-AreCredentials,
}
use docker_in_k8s.Build.Context.{
  PreparedContext, FileInfo, context_entry, exclude_build_credential_sources,
}
use docker_in_k8s.Build.Context.Laws.{IsBelow, credential-not-written}
use docker_in_k8s.Build.Inputs.{parse_named_build_contexts}
use docker_in_k8s.Build.Run.{Request}
use docker_in_k8s.Build.Command.{Flags, Setting, refuse, refuse_flags, build_request}

refuse->> :
    (test : Bool) (text : Text) (next : Result (Unit {0}))
    → (refuse test text >> next) ≡ ok tt
    → (test ≡ false) × (next ≡ ok tt)
refuse->> true text next h = absurd (err-ne-ok h)
refuse->> false text next h = (refl, h)

given-nil : {A : Type 0} (xs : List A) → not (is_nil xs) ≡ false → xs ≡ []
given-nil [] h = refl
given-nil (x ∷ xs) h = cc

-- No entitlement, no cgroup of the host, and no image store of a Docker Engine.
refuse_flags-none :
    (f : Flags)
    → refuse_flags f ≡ ok tt
    → (f.allows ≡ []) × (f.cgroup_parent ≡ []) × (f.load ≡ false)
unfolding refuse_flags
refuse_flags-none f h =
    let (allows, h1) = refuse->> (not (is_nil f.allows)) _ _ h in
    let (cgroup, h2) = refuse->> (not (is_nil f.cgroup_parent)) _ _ h1 in
    let (load, h3) = refuse->> f.load _ _ h2 in
    (given-nil f.allows allows, given-nil f.cgroup_parent cgroup, load)

-- No entry of the context from which a credential was read is sent with it.
abbrev pub Withheld : Request PreparedContext → Type 0
Withheld q =
    (ignored : Text → Result Bool)
    → All
        (λ (s : Credential).
          (parts : List Text) (info : FileInfo)
          → IsBelow q.main.root parts s.source
          → context_entry ignored q.main (record { path = join parts b'/'; info = info }) ≡ ok none)
        (q.options.secrets ++ q.options.ssh)

abbrev pub IsGuarded : Setting → Flags → Request PreparedContext → Type 0
IsGuarded e f q =
    ((f.allows ≡ []) × (f.cgroup_parent ≡ []) × (f.load ≡ false))
    × ((q.options.network ≡ []) ⊎ (q.options.network ≡ codes "none"))
    × All (IsMapping e.is_ip) q.options.add_hosts
    × AreCredentials f.secrets q.options.secrets
    × AreCredentials f.ssh q.options.ssh
    × Withheld q

-- A request that is accepted asks for no entitlement, cgroup or image load, has network none or
-- the default, maps hosts to IP literals, and has one secret and one key of a different valid id
-- for each value; and no entry of the context that a credential was read from is written with it.
pub build_request-IsGuarded :
    (e : Setting) (namespace : Text) (f : Flags) (q : Request PreparedContext)
    → build_request e namespace f ≡ ok q
    → IsGuarded e f q
unfolding build_request exclude_build_credential_sources
build_request-IsGuarded e namespace f q h =
    let (u, flags, h1) = >>=-eq-ok (refuse_flags f) _ h in
    let (shm, sized, h2) = >>=-eq-ok (normalize_shm_size e.ram_in_bytes f.shm_size) _ h1 in
    let (network, networked, h3) = >>=-eq-ok (normalize_build_network f.network) _ h2 in
    let (hosts, hosted, h4) = >>=-eq-ok (normalize_build_hosts e.is_ip f.add_hosts) _ h3 in
    let (results, resulted, h5) =
      >>=-eq-ok (normalize_build_result_options f.progress f.quiet f.iid_file f.metadata_file) _
        h4 in
    let (call, called, h6) = >>=-eq-ok (normalize_build_call f.call f.check) _ h5 in
    let (plain, planned, h7) =
      >>=-eq-ok
        (normalize_build_outputs f.outputs f.push f.tags f.registry_insecure
          (not (call == codes "build")))
        _ h6 in
    let (outputs, annotated, h8) = >>=-eq-ok (apply_build_annotations plain f.annotations) _ h7 in
    let (attests, attested, h9) =
      >>=-eq-ok (normalize_build_attests f.attests f.provenance f.sbom) _ h8 in
    let (secrets, secreted, h10) = >>=-eq-ok (parse_build_secrets e.os f.secrets) _ h9 in
    let (ssh, keyed, h11) = >>=-eq-ok (parse_build_ssh e.os f.ssh) _ h10 in
    let (named, contexts, h12) =
      >>=-eq-ok (parse_named_build_contexts e.prepare_named f.build_contexts) _ h11 in
    let (prepared, prepare, h13) =
      >>=-eq-ok (e.prepare_input f.path f.dockerfile f.file_changed) _ h12 in
    let (from, imported, h14) =
      >>=-eq-ok (normalize_cache_entries f.cache_from f.registry_insecure false) _ h13 in
    let (to, exported, last) =
      >>=-eq-ok (normalize_cache_entries f.cache_to f.registry_insecure true) _ h14 in
    subst (IsGuarded e f) (ok-injective last) (
      refuse_flags-none f flags,
      (normalize_build_network-modes f.network network networked).0,
      (normalize_build_hosts-IsMapping e.is_ip f.add_hosts hosts hosted).1,
      parse_build_secrets-AreCredentials e.os f.secrets secrets secreted,
      parse_build_ssh-AreCredentials e.os f.ssh ssh keyed,
      λ ignored. credential-not-written ignored prepared secrets ssh,
    )
