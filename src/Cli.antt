-- ===== src/Cli.antt =====
-- The commands of dockube, but for build: internal/cli/root.go and internal/cli/compose.go.
pub mod Poll
pub mod Console
pub mod Waits
pub mod Lookup
pub mod Show
pub mod Commands
pub mod Projects
