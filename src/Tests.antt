-- ===== src/Tests.antt =====
-- Examples on which the theorems are run: a platform, a cluster in memory, and options of a build.
mod Concrete
mod Memory
mod Names
mod Containers
mod Passes
mod Options
mod Builds
mod Projects
mod Fleet
mod Commands
mod Shops
mod Runs
mod Downloads
mod Jobs
mod Archives
