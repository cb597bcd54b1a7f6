-- ===== src/Tests/Names.antt =====
-- Names of Compose services, workloads and Pods.
use docker_in_k8s.Common.{◌≡◌, ◌↔◌}
use docker_in_k8s.Text.{Text, codes}
use docker_in_k8s.Compose.Names.{dns_name}
use docker_in_k8s.Compose.Names.Labels.{IsDnsLabel, dns_name-IsDnsLabel, dns_name-eq-self_iff}
use docker_in_k8s.Tests.Concrete.{
  zero_digest, zero_digest-IsDigest, ascii_lower, ascii_lower-IsLower,
}

abbrev long : Text
long =
    codes "A_project.with-a-very-long-name, whose services have names that no DNS label can hold_"

dns_name-IsDnsLabel_example : IsDnsLabel (dns_name ascii_lower zero_digest long)
dns_name-IsDnsLabel_example = dns_name-IsDnsLabel ascii_lower zero_digest-IsDigest long

dns_name-eq-self_iff_example :
    (dns_name ascii_lower zero_digest (codes "web-1") ≡ codes "web-1") ↔ IsDnsLabel (codes "web-1")
dns_name-eq-self_iff_example =
    dns_name-eq-self_iff ascii_lower-IsLower zero_digest-IsDigest (codes "web-1")
