-- ===== src/Db.antt =====
-- lib/db.py: the SQLite state, as one value with a table for each CREATE TABLE.
pub mod Lifecycle
pub mod Types
pub mod Jobs
pub mod Delivery
pub mod Polling
pub mod Report
pub mod Transition
pub mod Repos
pub mod Sessions
pub mod Attempts
pub mod Commands
