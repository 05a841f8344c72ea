-- ===== src/Checks.antt =====
-- internal/checks/checks.go: the checks of a monitor.
pub mod Patterns
pub mod Timeline
pub mod Procs
pub mod Host
pub mod Files
pub mod Commands
pub mod Logs
pub mod Web
pub mod Run
mod Tests
