-- ===== src/Steps/Planes.antt =====
-- What the planes of the daemon do to the database, by the steps of the parent.
pub mod Scheduler
pub mod Supervisor
pub mod Success
pub mod RateLimit
pub mod Complete
pub mod Check
pub mod Watchdog
pub mod Commands
pub mod Daemon
