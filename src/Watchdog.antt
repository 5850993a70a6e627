-- ===== src/Watchdog.antt =====
-- lib/watchdog.py: find jobs that hang or have lost their process, and recover them.
pub mod Check
pub mod Recover
pub mod Health
pub mod Tally
pub mod Forks
