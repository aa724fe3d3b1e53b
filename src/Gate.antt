-- ===== src/Gate.antt =====
-- internal/gate with the store operations of internal/api/pgstore.go that it calls: the release gate,
-- which holds an agent run back until the sources of a project have all published a version.
pub mod Version
pub mod Spelling
pub mod Store
pub mod Table
pub mod Once
pub mod Readiness
pub mod Reach
pub mod Latch
pub mod Starts
pub mod Check
pub mod Evaluate
pub mod Timeout
pub mod Admin
