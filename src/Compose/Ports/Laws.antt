-- ===== src/Compose/Ports/Laws.antt =====
-- The ports that translatePorts gives: each number and protocol once, with its Service port beside it.
use docker_in_k8s.Common.{
  arith, ◌≡◌, refl, ◌≢◌, ◌∙◌, sym, ap, List, [], ◌∷◌, ◌++◌, map, true, false, Option, none, some,
  Distinct, All, All-append, if◌then◌else◌, Bool-cases, inl, inr,
}
use docker_in_k8s.Common.Int.{ℤ, int32, int32_of}
use docker_in_k8s.Text.{Text, codes, cut, Parts, is_one_of, eq_refl, atoi}
use docker_in_k8s.Api.Types.{ContainerPort}
use docker_in_k8s.Cluster.{ServicePort}
use docker_in_k8s.Compose.Project.{PortConfig}
use docker_in_k8s.Compose.Ports.{
  port_key, protocol, Ports, add_port, add_ports, expose, add_exposed, translate_ports,
}

abbrev pub key_of : ContainerPort → Text
key_of port = port_key port.container_port port.protocol

-- What a Service port has in common with the port behind it.
abbrev pub port_of : ContainerPort → Text × ℤ × Text
port_of port = (port.name, port.container_port, port.protocol)

abbrev pub target_of : ServicePort → Text × ℤ × Text
target_of port = (port.name, port.target_port, port.protocol)

abbrev pub Stands : Text → List Text → Type 0
Stands key keys = is_one_of key keys ≡ true

-- The ports so far, seen by their keys.
pub record IsPorts (ports : Ports) : Type 0 where
  pub distinct : Distinct (map key_of ports.containers)
  pub seen : All (λ port. Stands (key_of port) ports.seen) ports.containers
  pub aligned : map target_of ports.services ≡ map port_of ports.containers

module _ {A B : Type 0} (f : A → B) where
  map-append : (xs ys : List A) → map f (xs ++ ys) ≡ map f xs ++ map f ys
  map-append [] ys = refl
  map-append (x ∷ xs) ys = ap (λ (zs : List B). f x ∷ zs) (map-append xs ys)

-- A new element at the end leaves a list distinct.
Distinct-snoc :
    {A : Type 0} (xs : List A) (y : A) → Distinct xs → All (λ x. x ≢ y) xs → Distinct (xs ++ y ∷ [])
Distinct-snoc [] y h k = (tt, tt)
Distinct-snoc (x ∷ xs) y (first, rest) (ne, k) =
    (All-append (λ z. z ≢ x) xs (y ∷ []) first ((λ e. ne (sym e)), tt), Distinct-snoc xs y rest k)

-- What is seen is not new.
seen-ne :
    (key other : Text) (keys : List Text)
    → Stands other keys
    → is_one_of key keys ≡ false
    → other ≢ key
seen-ne key other keys there new same = cc

seen-All-ne :
    (key : Text) (keys : List Text) (ports : List ContainerPort)
    → is_one_of key keys ≡ false
    → All (λ port. Stands (key_of port) keys) ports
    → All (λ k. k ≢ key) (map key_of ports)
seen-All-ne key keys [] new h = tt
seen-All-ne key keys (port ∷ ports) new (here, h) =
    (seen-ne key (key_of port) keys here new, seen-All-ne key keys ports new h)

Stands-cons : (key other : Text) (keys : List Text) → Stands key keys → Stands key (other ∷ keys)
unfolding is_one_of
Stands-cons key other keys h = ground arith

All-Stands-cons :
    (other : Text) (keys : List Text) (ports : List ContainerPort)
    → All (λ port. Stands (key_of port) keys) ports
    → All (λ port. Stands (key_of port) (other ∷ keys)) ports
All-Stands-cons other keys [] h = tt
All-Stands-cons other keys (port ∷ ports) (here, h) =
    (Stands-cons (key_of port) other keys here, All-Stands-cons other keys ports h)

Stands-first : (key : Text) (keys : List Text) → Stands key (key ∷ keys)
unfolding is_one_of
Stands-first key keys = rw (eq_refl key) refl

module _ (target : ℤ) (proto published : Text) (ports : Ports) (h : IsPorts ports) where
  abbrev key : Text
  key = port_key target proto

  appended :
      (c : ContainerPort) (s : ServicePort)
      → is_one_of key ports.seen ≡ false
      → key_of c ≡ key
      → target_of s ≡ port_of c
      → IsPorts (record {
        seen = key ∷ ports.seen;
        containers = ports.containers ++ c ∷ [];
        services = ports.services ++ s ∷ [];
      })
  appended c s new named same = record {
    distinct =
        rw (map-append key_of ports.containers (c ∷ []), named)
          (Distinct-snoc (map key_of ports.containers) key h.distinct
            (seen-All-ne key ports.seen ports.containers new h.seen));
    seen =
        All-append (λ port. Stands (key_of port) (key ∷ ports.seen)) ports.containers (c ∷ [])
          (All-Stands-cons key ports.seen ports.containers h.seen)
          (rw named (Stands-first key ports.seen), tt);
    aligned =
        map-append target_of ports.services (s ∷ [])
        ∙ (rw (h.aligned, same) refl)
        ∙ sym (map-append port_of ports.containers (c ∷ []));
  }

  add_port-IsPorts : IsPorts (add_port target proto published ports)
  unfolding add_port
  add_port-IsPorts = elim (Bool-cases (is_one_of key ports.seen)) [
    | inl e ↦ rw e h
    | inr e ↦ rw e (appended _ _ e refl refl)
  ]

add_ports-IsPorts :
    (given : List PortConfig) (ports : Ports) → IsPorts ports → IsPorts (add_ports given ports)
unfolding add_ports
add_ports-IsPorts [] ports h = h
add_ports-IsPorts (port ∷ rest) ports h =
    add_ports-IsPorts rest _
      (add_port-IsPorts (int32 port.target) (protocol port.protocol) port.published ports h)

expose-IsPorts :
    (value : Option ℤ) (parts : Parts) (ports : Ports)
    → IsPorts ports
    → IsPorts (expose value parts ports)
expose-IsPorts none parts ports h = h
expose-IsPorts (some value) parts ports h =
    add_port-IsPorts (int32_of value) (protocol (if parts.found then parts.after else codes "tcp"))
      [] ports h

add_exposed-IsPorts :
    (given : List Text) (ports : Ports) → IsPorts ports → IsPorts (add_exposed given ports)
unfolding add_exposed
add_exposed-IsPorts [] ports h = h
add_exposed-IsPorts (exposed ∷ rest) ports h =
    add_exposed-IsPorts rest _
      (expose-IsPorts (atoi (cut exposed b'/').before) (cut exposed b'/') ports h)

-- Whatever the ports and expose values, each pair of number and protocol stands once among the
-- ports of the container, each of them is marked as seen, and the ports of the Service have the
-- same names, targets and protocols in the same order.
pub translate_ports-IsPorts :
    (given : List PortConfig) (exposed : List Text) → IsPorts (translate_ports given exposed)
unfolding translate_ports
translate_ports-IsPorts given exposed =
    add_exposed-IsPorts exposed _
      (add_ports-IsPorts given _ (record { distinct = tt; seen = tt; aligned = refl }))
