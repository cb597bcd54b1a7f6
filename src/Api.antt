-- ===== src/Api.antt =====
-- internal/api/container.go: the DockerContainer resource and the Pod that runs it.
pub mod Types
pub mod Ids
pub mod Json
pub mod Container
pub mod Spec
pub mod Platform
pub mod Pod
pub mod Status
