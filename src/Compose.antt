-- ===== src/Compose.antt =====
-- internal/compose: a Compose project translated into a plan, and the plan applied to the cluster.
pub mod Names
pub mod Plan
pub mod Apply
pub mod Projects
pub mod Resources
pub mod Project
pub mod Ports
pub mod Probes
pub mod Translate
pub mod Validate
