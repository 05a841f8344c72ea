-- ===== src/Engine.antt =====
-- internal/engine/manager.go.
pub mod Start
pub mod Loop
pub mod Lock
pub mod Env
pub mod Monitor
pub mod Run
pub mod Recover
pub mod Cycle
pub mod Query
pub mod Trigger
pub mod Invariant
pub mod Settle
pub mod Lab
mod Tests
