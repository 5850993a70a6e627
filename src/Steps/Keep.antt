-- ===== src/Steps/Keep.antt =====
-- The invariant of the database under each step, by the table that the step writes to.
mod Jobs
mod Repos
mod Sessions
mod Attempts
pub mod All
