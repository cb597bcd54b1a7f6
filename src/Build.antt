-- ===== src/Build.antt =====
-- internal/cli/build.go: the options of `dockube build`, the build context and the BuildKit Job.
pub mod Options
pub mod Hosts
pub mod Cache
pub mod Outputs
pub mod Repeats
pub mod Attests
pub mod Credentials
pub mod Registry
pub mod Frontend
pub mod Annotations
pub mod Job
pub mod Builder
pub mod Steps
pub mod Run
pub mod Archive
pub mod Context
pub mod Command
pub mod Remote
pub mod Inputs
pub mod Metadata
