-- ===== src/Build/Frontend.antt =====
-- buildFrontendArguments: the arguments of buildctl. Of a named context only the name counts.
pub mod Laws
use docker_in_k8s.Common.{
  ℕ, Bool, true, false, ◌&&◌, not, List, [], ◌∷◌, ◌++◌, if◌then◌else◌, is_nil, ltb,
}
use docker_in_k8s.Text.{Text, codes, ◌==◌, join, print_nat}
use docker_in_k8s.Build.Outputs.{BuildOutput}
use docker_in_k8s.Build.Credentials.{Credential}

pub record FrontendOptions : Type 0 where
  pub build_args : List Text
  pub target : Text
  pub labels : List Text
  pub platforms : List Text
  pub no_cache : Bool
  pub no_cache_filter : List Text
  pub pull : Bool
  pub cache_from : List Text
  pub cache_to : List Text
  pub secrets : List Credential
  pub ssh : List Credential
  pub network : Text
  pub add_hosts : List Text
  pub shm_size : ℕ
  pub named_contexts : List Text
  pub outputs : List BuildOutput
  pub attests : List Text
  pub call : Text
  pub debug : Bool

-- A loop that appends some arguments for each element.
unfoldable pub for_each {ℓ} : {A : Type ℓ} → (A → List Text) → List A → List Text
for_each f [] = []
for_each f (a ∷ rest) = f a ++ for_each f rest

abbrev pub opt : Text → List Text
opt value = codes "--opt" ∷ value ∷ []

abbrev pub secret_arguments : Text → List Text
secret_arguments id =
    codes "--secret" ∷ (codes "id=" ++ (id ++ (codes ",src=/run/dockube/secrets/" ++ id))) ∷ []

abbrev pub ssh_arguments : Text → List Text
ssh_arguments id = codes "--ssh" ∷ (id ++ (codes "=/run/dockube/secrets/ssh-" ++ id)) ∷ []

abbrev context_arguments : Text → List Text
context_arguments name =
    codes "--local"
    ∷ (name ++ (codes "=/home/user/.dockube-contexts/" ++ name))
    ∷ opt (codes "context:" ++ (name ++ (codes "=local:" ++ name)))

abbrev some_or_none : Bool → List Text → List Text
some_or_none given arguments = if given then arguments else []

-- The arguments before those of the credentials.
unfoldable pub plain_arguments : FrontendOptions → List Text
plain_arguments o =
    for_each (λ a. opt (codes "build-arg:" ++ a)) o.build_args
    ++ (some_or_none (not (is_nil o.target)) (opt (codes "target=" ++ o.target))
        ++ (for_each (λ l. opt (codes "label:" ++ l)) o.labels
            ++ (some_or_none (not (is_nil o.platforms))
                  (opt (codes "platform=" ++ join o.platforms b','))
                ++ (some_or_none o.no_cache (codes "--no-cache" ∷ [])
                    ++ (some_or_none (not (is_nil o.no_cache_filter))
                          (opt (codes "no-cache=" ++ join o.no_cache_filter b','))
                        ++ (some_or_none o.pull (opt (codes "image-resolve-mode=pull"))
                            ++ (some_or_none (not (is_nil o.network))
                                  (opt (codes "force-network-mode=" ++ o.network))
                                ++ (some_or_none (not (is_nil o.add_hosts))
                                      (opt (codes "add-hosts=" ++ join o.add_hosts b','))
                                    ++ (some_or_none (ltb 0 o.shm_size)
                                          (opt (codes "shm-size=" ++ print_nat o.shm_size))
                                        ++ (for_each context_arguments o.named_contexts
                                            ++ (for_each
                                                  (λ (b : BuildOutput).
                                                    codes "--output" ∷ b.spec ∷ [])
                                                  o.outputs
                                                ++ (for_each opt o.attests
                                                    ++ (some_or_none
                                                          (not (is_nil o.call)
                                                            && not (o.call == codes "build"))
                                                          (opt (codes "call=" ++ o.call))
                                                        ++ (for_each
                                                            (λ c. codes "--import-cache" ∷ c ∷ [])
                                                            o.cache_from
                                                            ++ for_each
                                                            (λ c. codes "--export-cache" ∷ c ∷ [])
                                                            o.cache_to))))))))))))))

unfoldable pub build_frontend_arguments : FrontendOptions → List Text
build_frontend_arguments o =
    plain_arguments o
    ++ (for_each (λ s. secret_arguments s.id) o.secrets ++ for_each (λ k. ssh_arguments k.id) o.ssh)
