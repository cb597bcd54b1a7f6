-- ===== src/Build/Hosts/Laws.antt =====
-- The hosts that a build may be given.
use docker_in_k8s.Common.{
  ◌≡◌, ◌≢◌, sym, subst, Bool, true, false, List, [], ◌∷◌, ◌++◌, arith, All, any, length, eqb,
  ||-eq-false, is_nil, ne-nil_of_is_nil,
}
use docker_in_k8s.Text.{
  Text, codes, eq_iff, cut, cut-append, Lacks, trim, contains_any, contains_char,
}
use docker_in_k8s.Result.{ok, traverse-All}
use docker_in_k8s.Build.Hosts.{
  is_bracket, host_separators, checked_host, normalize_build_host, normalize_build_hosts,
}

-- A mapping HOST=IP: cut at its first "=" it gives a host that is not empty and an address that is an
-- IP literal, not host-gateway, by which a build would reach the node.
pub record IsMapping (is_ip : Text → Bool) (mapping : Text) : Type 0 where
  pub separated : (cut mapping b'=').found ≡ true
  pub named : (cut mapping b'=').before ≢ []
  pub literal : is_ip (trim is_bracket (cut mapping b'=').after) ≡ true
  pub not_gateway : (cut mapping b'=').after ≢ codes "host-gateway"

Lacks-of_contains_any : (host : Text) → contains_any host host_separators ≡ false → Lacks b'=' host
unfolding contains_any contains_char
Lacks-of_contains_any [] h = tt
Lacks-of_contains_any (c ∷ host) h =
    let (here, there) = ||-eq-false (any (λ x. eqb x c) host_separators) _ h in
    (ground arith, Lacks-of_contains_any host there)

module _ (is_ip : Text → Bool) where
  IsMapping-of :
      (host address : Text)
      → Lacks b'=' host
      → is_nil host ≡ false
      → is_ip (trim is_bracket address) ≡ true
      → address ≢ codes "host-gateway"
      → IsMapping is_ip (host ++ b'=' ∷ address)
  IsMapping-of host address lacks given literal not_gateway =
      let parts = cut-append b'=' host address lacks in
      record {
        separated = rw parts;
        named = rw parts (ne-nil_of_is_nil host given);
        literal = rw parts literal;
        not_gateway = rw parts not_gateway;
      }

  checked_host_facts :
      (found : Bool) (host address mapping : Text)
      → checked_host is_ip found host address ≡ ok mapping
      → (is_nil host ≡ false)
        × (contains_any host host_separators ≡ false)
        × (is_ip (trim is_bracket address) ≡ true)
        × (address ≢ codes "host-gateway")
        × (mapping ≡ host ++ b'=' ∷ address)
  unfolding checked_host
  checked_host_facts found host address mapping h =
      ground (arith, eq_iff address (codes "host-gateway"))

  checked_host-IsMapping :
      (found : Bool) (host address mapping : Text)
      → checked_host is_ip found host address ≡ ok mapping
      → IsMapping is_ip mapping
  checked_host-IsMapping found host address mapping h =
      let (given, plain, literal, not_gateway, e) =
        checked_host_facts found host address mapping h in
      subst (IsMapping is_ip) (sym e)
        (IsMapping-of host address (Lacks-of_contains_any host plain) given literal not_gateway)

  -- Of the hosts that are accepted there is one for each value, and each maps a host to an IP
  -- literal, never to host-gateway.
  pub normalize_build_hosts-IsMapping :
      (values hosts : List Text)
      → normalize_build_hosts is_ip values ≡ ok hosts
      → (length hosts ≡ length values) × All (IsMapping is_ip) hosts
  unfolding normalize_build_hosts normalize_build_host
  normalize_build_hosts-IsMapping values hosts h =
      traverse-All (normalize_build_host is_ip) (IsMapping is_ip)
        (λ value mapping e. checked_host-IsMapping _ _ _ mapping (unfold normalize_build_host in e))
        values hosts h
