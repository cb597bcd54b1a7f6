-- ===== src/Build/Frontend/Laws.antt =====
-- What the arguments of buildctl show.
use docker_in_k8s.Common.{◌≡◌, refl, ap, List, [], ◌∷◌, map}
use docker_in_k8s.Text.{Text}
use docker_in_k8s.Build.Credentials.{Credential}
use docker_in_k8s.Build.Frontend.{
  FrontendOptions, for_each, secret_arguments, ssh_arguments, plain_arguments,
  build_frontend_arguments,
}

abbrev head : List Text → Text
head [] = []
head (t ∷ ts) = t

abbrev tail : List Text → List Text
tail [] = []
tail (t ∷ ts) = ts

abbrev ids : List Credential → List Text
ids cs = map (λ (k : Credential). k.id) cs

-- A loop over credentials that reads their ids only.
for_each_of_ids :
    (f : Text → List Text) (ks ls : List Credential)
    → ids ks ≡ ids ls
    → for_each (λ (k : Credential). f k.id) ks ≡ for_each (λ (k : Credential). f k.id) ls
unfolding for_each
for_each_of_ids f [] [] e = refl
for_each_of_ids f [] (l ∷ ls) e = cc
for_each_of_ids f (k ∷ ks) [] e = cc
for_each_of_ids f (k ∷ ks) (l ∷ ls) e = cc (for_each_of_ids f ks ls (ap tail e), e)

plain_arguments_of_credentials :
    (o : FrontendOptions) (secrets ssh : List Credential)
    → plain_arguments (record o { secrets = secrets; ssh = ssh }) ≡ plain_arguments o
unfolding plain_arguments
plain_arguments_of_credentials o secrets ssh = refl

-- The arguments of buildctl depend on the ids of secrets and SSH keys only, not on their contents
-- or sources.
pub build_frontend_arguments_of_ids :
    (o : FrontendOptions) (secrets ssh : List Credential)
    → ids secrets ≡ ids o.secrets
    → ids ssh ≡ ids o.ssh
    → build_frontend_arguments (record o { secrets = secrets; ssh = ssh })
      ≡ build_frontend_arguments o
unfolding build_frontend_arguments
build_frontend_arguments_of_ids o secrets ssh e e' = cc (
  plain_arguments_of_credentials o secrets ssh,
  for_each_of_ids secret_arguments secrets o.secrets e,
  for_each_of_ids ssh_arguments ssh o.ssh e',
)
