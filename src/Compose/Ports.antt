-- ===== src/Compose/Ports.antt =====
-- translatePorts: the ports of a service, each of a number and a protocol once.
pub mod Laws
use docker_in_k8s.Common.{
  ℕ, ◌&&◌, Bool, Option, none, some, List, [], ◌∷◌, ◌++◌, leb, if◌then◌else◌,
}
use docker_in_k8s.Common.Int.{ℤ, pos, negsuc, int32, int32_of}
use docker_in_k8s.Text.{Text, codes, ◌==◌, is_one_of, cut, Parts, print_int, atoi, lower_ascii}
use docker_in_k8s.Api.Types.{ContainerPort}
use docker_in_k8s.Cluster.{ServicePort}
use docker_in_k8s.Compose.Project.{PortConfig}

-- protocol; strings.EqualFold to "udp" is equality of the lower case, as no other letter folds to these.
unfoldable pub protocol : Text → Text
protocol value = if lower_ascii value == codes "udp" then codes "UDP" else codes "TCP"

unfoldable pub port_key : ℤ → Text → Text
port_key target protocol = print_int target ++ b'/' ∷ protocol

unfoldable pub port_name : ℤ → Text → Text
port_name target protocol = b'p' ∷ (print_int target ++ b'-' ∷ lower_ascii protocol)

-- The port of a Service: the published one where it is a port number.
abbrev published_or : ℤ → Option ℤ → ℤ
published_or target (some (pos value)) =
    if leb 1 value && leb value 65535 then int32 value else target
published_or target _ = target

pub record Ports : Type 0 where
  pub seen : List Text
  pub containers : List ContainerPort
  pub services : List ServicePort

-- The closure `add`.
unfoldable pub add_port : ℤ → Text → Text → Ports → Ports
unfolding port_key port_name
add_port target proto published ports =
    if is_one_of (port_key target proto) ports.seen then ports else record {
      seen = port_key target proto ∷ ports.seen;
      containers =
          ports.containers
          ++ record { name = port_name target proto; container_port = target; protocol = proto }
            ∷ [];
      services =
          ports.services
          ++ record {
            name = port_name target proto;
            port = published_or target (atoi published);
            target_port = target;
            protocol = proto;
          }
            ∷ [];
    }

unfoldable pub add_ports : List PortConfig → Ports → Ports
unfolding add_port protocol
add_ports [] ports = ports
add_ports (port ∷ rest) ports =
    add_ports rest (add_port (int32 port.target) (protocol port.protocol) port.published ports)

-- An exposed port, behind the parsing of its number.
abbrev pub expose : Option ℤ → Parts → Ports → Ports
expose none parts ports = ports
expose (some value) parts ports =
    add_port (int32_of value) (protocol (if parts.found then parts.after else codes "tcp")) [] ports

unfoldable pub add_exposed : List Text → Ports → Ports
unfolding add_port protocol
add_exposed [] ports = ports
add_exposed (exposed ∷ rest) ports =
    let parts = cut exposed b'/' in add_exposed rest (expose (atoi parts.before) parts ports)

unfoldable pub translate_ports : List PortConfig → List Text → Ports
unfolding add_ports add_exposed
translate_ports ports exposed =
    add_exposed exposed (add_ports ports (record { seen = []; containers = []; services = [] }))
