-- ===== src/Config.antt =====
-- internal/config: the configuration, its defaults and its validation.
pub mod Types
pub mod Dedupe
pub mod Validate
pub mod Normalize
pub mod Load
mod Tests
