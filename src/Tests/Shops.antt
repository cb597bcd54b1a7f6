-- ===== src/Tests/Shops.antt =====
-- A Compose project with a web server and a database.
use docker_in_k8s.Common.{◌≡◌, ◌≢◌, All, refl, true, false, none, some, List, [], ◌∷◌}
use docker_in_k8s.Common.Int.{pos, negsuc}
use docker_in_k8s.Text.{
  Text, codes, ◌==◌, is_one_of, trim, trim_left, trim_right, sort_texts, text_lt,
}
use docker_in_k8s.Dicts.{lookup, keys}
use docker_in_k8s.Result.{Result, ok, err, not_found, traverse}
use docker_in_k8s.Compose.Resources.{
  plan_configs, plan_volumes, volume_plan, sorted_keys, find_volume,
}
use docker_in_k8s.Compose.Names.{dns_name, shorten, sanitize, label_char, is_label_char}
use docker_in_k8s.Compose.Project.{Project, ServiceConfig, StructField, PortConfig, HealthCheck}
use docker_in_k8s.Compose.Ports.{translate_ports}
use docker_in_k8s.Compose.Ports.Laws.{IsPorts, translate_ports-IsPorts}
use docker_in_k8s.Compose.Probes.{seconds, translate_probe, probe_for}
use docker_in_k8s.Compose.Probes.Laws.{IsPositive32, seconds-IsPositive32}
use docker_in_k8s.Compose.Validate.{
  validate, validate_service, validate_service_fields, check_each, check_settings,
  check_volume_mount, check_dependency, check_deploy, check_health, check_port, check_volume,
  check_network, is_set, is_filled,
}
use docker_in_k8s.Compose.Validate.Laws.{IsSupported, validate-IsSupported}
use docker_in_k8s.Compose.Translate.{
  translate, translate_named, translate_service, translate_mounts, volume_mount, translate_probes,
}
use docker_in_k8s.Compose.Translate.Laws.{IsPlanOf, translate-IsPlanOf}
use docker_in_k8s.Compose.Plan.{Plan}
use docker_in_k8s.Tests.Concrete.{platform}

-- Two ports of one number, of which one is exposed again.
abbrev ports : List PortConfig
ports =
    record {
      target = 80;
      published = codes "8080";
      protocol = codes "tcp";
      host_ip = [];
      mode = [];
    }
    ∷ record { target = 80; published = []; protocol = codes "UDP"; host_ip = []; mode = [] }
    ∷ []

translate_ports-IsPorts_example :
    IsPorts (translate_ports ports (codes "80/udp" ∷ codes "443" ∷ []))
translate_ports-IsPorts_example = translate_ports-IsPorts ports (codes "80/udp" ∷ codes "443" ∷ [])

seconds-IsPositive32_example : IsPositive32 (seconds (negsuc 4294967295999999999))
seconds-IsPositive32_example = seconds-IsPositive32 (negsuc 4294967295999999999)

abbrev field : Text → StructField
field name = record { name = name; yaml = []; zero = false; empty = false }

abbrev check : HealthCheck
check = record {
  disable = false;
  test = codes "CMD-SHELL" ∷ codes "curl" ∷ codes "localhost" ∷ [];
  timeout = some (pos 1500000000);
  interval = none;
  retries = some 5;
  start_period = none;
}

abbrev web_service : ServiceConfig
web_service = record {
  fields =
      field (codes "Image")
      ∷ field (codes "Ports")
      ∷ record (field (codes "Privileged")) { zero = true }
      ∷ [];
  image = codes "nginx:1.27";
  entrypoint = [];
  command = [];
  stdin_open = false;
  tty = false;
  working_dir = [];
  environment = (codes "MODE", some (codes "prod")) ∷ [];
  scale = pos 1;
  ports = ports;
  expose = [];
  volumes =
      record {
        type = codes "volume";
        source = codes "data";
        target = codes "/data";
        read_only = false;
        volume = none;
      }
      ∷ [];
  configs = [];
  secrets = [];
  depends_on = (codes "db", []) ∷ [];
  deploy = none;
  health_check = some check;
}

abbrev db_service : ServiceConfig
db_service = record web_service {
  image = codes "postgres:17";
  ports = [];
  volumes = [];
  depends_on = [];
}

abbrev shop : Project
shop = record {
  name = codes "shop";
  models = false;
  networks = (codes "default", record { name = codes "shop_default"; others = false }) ∷ [];
  volumes =
      (
        codes "data",
        record {
          volume = record { name = []; external = false };
          driver = [];
          driver_opts = false;
        },
      )
      ∷ [];
  configs = [];
  secrets = [];
  services = (codes "web", web_service) ∷ (codes "db", db_service) ∷ [];
}

validate-IsSupported_example :
    (shop.services ≢ []) × All (IsSupported platform shop.services) shop.services
validate-IsSupported_example = validate-IsSupported platform shop accepted
  where
    accepted : validate platform shop ≡ ok tt
    accepted =
        unfold validate check_each check_network check_volume validate_service dns_name shorten
          sanitize label_char is_label_char trim trim_left trim_right validate_service_fields
          check_settings check_volume_mount check_dependency check_deploy check_health check_port
          is_set is_filled is_one_of lookup ◌==◌ in
        refl

abbrev no_plan : Plan
no_plan = record {
  name = [];
  services = [];
  volumes = [];
  configs = [];
  secrets = [];
  normalized = [];
}

abbrev plan_of : Result Plan → Plan
plan_of (ok plan) = plan
plan_of (err e) = no_plan

abbrev plan : Plan
plan = plan_of (translate platform (λ n. none) (λ path. err not_found) shop (codes "default") [])

translate-IsPlanOf_example : IsPlanOf platform shop plan
translate-IsPlanOf_example =
    translate-IsPlanOf platform (λ n. none) (λ path. err not_found) shop (codes "default") [] plan
      accepted
  where
    accepted :
        translate platform (λ n. none) (λ path. err not_found) shop (codes "default") [] ≡ ok plan
    accepted =
        unfold translate plan_configs plan_volumes volume_plan sorted_keys keys sort_texts text_lt
          lookup traverse translate_named translate_service translate_mounts volume_mount
          find_volume translate_probes translate_probe probe_for dns_name shorten sanitize
          label_char is_label_char trim trim_left trim_right ◌==◌ in
        refl
