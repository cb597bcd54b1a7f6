-- ===== src/Build/Credentials/Laws.antt =====
-- The ids of the secrets and keys of a build.
use docker_in_k8s.Common.{
  ◌≡◌, sym, ap, inl, inr, true, false, Option, none, some, List, [], arith, All, All-map_of,
  Distinct, length, map, Bool-cases,
}
use docker_in_k8s.Text.{Text, codes, ◌==◌, is_one_of, split}
use docker_in_k8s.Dicts.{Dict, text_at}
use docker_in_k8s.Result.{ok, wrap, ◌>>=◌, >>=-eq-ok, ok-injective, err-ne-ok}
use docker_in_k8s.Build.Repeats.{each_once-Distinct}
use docker_in_k8s.Build.Credentials.{
  FileMode, socket, regular, other, Host, Credential, is_id, read_fields, load_file, env_secret,
  load_key, load_secret, checked_secret, parse_secret, parse_build_secrets, checked_ssh, parse_ssh,
  parse_build_ssh, secret_type,
}

-- A list of credentials with one for each specification, whose ids fit the pattern and are different.
abbrev pub AreCredentials : List Text → List Credential → Type 0
AreCredentials specs cs =
    (length cs ≡ length specs)
    × Distinct (map (λ (k : Credential). k.id) cs)
    × All (λ (k : Credential). is_id k.id ≡ true) cs

module _ (os : Host) where
  load_file-id :
      (context id path : Text) (k : Credential) → load_file os context id path ≡ ok k → k.id ≡ id
  unfolding load_file
  load_file-id context id path k h =
      let (contents, read, e) = >>=-eq-ok (wrap context (os.read_file path)) _ h in
      sym (ap (λ (k : Credential). k.id) (ok-injective e))

  env_secret-id :
      (id : Text) (o : Option Text) (k : Credential) → env_secret os id o ≡ ok k → k.id ≡ id
  env_secret-id id none k h = absurd (err-ne-ok h)
  env_secret-id id (some value) k h = sym (ap (λ (k : Credential). k.id) (ok-injective h))

  load_secret-id :
      (id : Text) (attributes : Dict Text) (k : Credential)
      → load_secret os id attributes ≡ ok k
      → k.id ≡ id
  unfolding load_secret
  load_secret-id id attributes k h =
      elim (Bool-cases (secret_type os id attributes == codes "file")) [
        | inl file ↦ load_file-id _ id _ k (rw file at h)
        | inr not_file ↦ elim (Bool-cases (secret_type os id attributes == codes "env")) [
          | inl env ↦ env_secret-id id _ k (rw (not_file, env) at h)
          | inr neither ↦ absurd (err-ne-ok (rw (not_file, neither) at h))
        ]
      ]

  load_key-id :
      (id source : Text) (mode : FileMode) (k : Credential)
      → load_key os id source mode ≡ ok k
      → k.id ≡ id
  load_key-id id source socket k h = absurd (err-ne-ok h)
  load_key-id id source other k h = absurd (err-ne-ok h)
  load_key-id id source regular k h = load_file-id _ id source k h

  checked_secret-branches :
      (seen : List Text) (attributes : Dict Text) (k : Credential)
      → checked_secret os seen attributes ≡ ok k
      → (is_one_of (text_at (codes "id") attributes) seen ≡ false)
        × (is_id (text_at (codes "id") attributes) ≡ true)
        × (load_secret os (text_at (codes "id") attributes) attributes ≡ ok k)
  unfolding checked_secret
  checked_secret-branches seen attributes k h = ground arith

  checked_ssh-branches :
      (seen : List Text) (id source : Text) (k : Credential)
      → checked_ssh os seen id source ≡ ok k
      → (is_one_of id seen ≡ false)
        × (is_id id ≡ true)
        × ((do mode ← wrap (codes "read SSH source") (os.stat source); load_key os id source mode)
            ≡ ok k)
  unfolding checked_ssh
  checked_ssh-branches seen id source k h = ground arith

  abbrev IsNew : List Text → Credential → Type 0
  IsNew seen k = (is_one_of k.id seen ≡ false) × (is_id k.id ≡ true)

  IsNew-of :
      (seen : List Text) (id : Text) (k : Credential)
      → k.id ≡ id
      → is_one_of id seen ≡ false
      → is_id id ≡ true
      → IsNew seen k
  IsNew-of seen id k e new fits = rw e (new, fits)

  parse_secret-IsNew :
      (seen : List Text) (spec : Text) (k : Credential)
      → parse_secret os seen spec ≡ ok k
      → IsNew seen k
  unfolding parse_secret
  parse_secret-IsNew seen spec k h =
      let (attributes, read, h') = >>=-eq-ok (read_fields (split spec b',') []) _ h in
      let (new, fits, loaded) = checked_secret-branches seen attributes k h' in
      IsNew-of seen _ k (load_secret-id _ attributes k loaded) new fits

  parse_ssh-IsNew :
      (seen : List Text) (spec : Text) (k : Credential)
      → parse_ssh os seen spec ≡ ok k
      → IsNew seen k
  unfolding parse_ssh
  parse_ssh-IsNew seen spec k h =
      let (new, fits, loaded) = checked_ssh-branches seen _ _ k h in
      let (mode, stat, loaded') = >>=-eq-ok (wrap (codes "read SSH source") (os.stat _)) _ loaded in
      IsNew-of seen _ k (load_key-id _ _ mode k loaded') new fits

  -- The secrets that are accepted are one for each specification, and their ids are different and
  -- fit the pattern of ids.
  pub parse_build_secrets-AreCredentials :
      (specs : List Text) (secrets : List Credential)
      → parse_build_secrets os specs ≡ ok secrets
      → AreCredentials specs secrets
  unfolding parse_build_secrets
  parse_build_secrets-AreCredentials specs secrets h =
      let (sized, distinct, news) =
        each_once-Distinct (λ (k : Credential). k.id) (parse_secret os) (λ k. is_id k.id ≡ true)
          parse_secret-IsNew [] specs secrets h in
      (sized, distinct, All-map_of (λ k. λ n. n.1) secrets news)

  -- The SSH keys that are accepted are one for each specification, and their ids are different
  -- and fit the pattern of ids.
  pub parse_build_ssh-AreCredentials :
      (specs : List Text) (ssh : List Credential)
      → parse_build_ssh os specs ≡ ok ssh
      → AreCredentials specs ssh
  unfolding parse_build_ssh
  parse_build_ssh-AreCredentials specs ssh h =
      let (sized, distinct, news) =
        each_once-Distinct (λ (k : Credential). k.id) (parse_ssh os) (λ k. is_id k.id ≡ true)
          parse_ssh-IsNew [] specs ssh h in
      (sized, distinct, All-map_of (λ k. λ n. n.1) ssh news)
