-- ===== src/Scenarios.antt =====
-- The theorems at a small database: one repo, and one job at several points of its life.
pub mod Store
mod Loops
mod Examples
mod Parsing
mod Commands
