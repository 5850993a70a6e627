-- ===== src/Daemon.antt =====
-- lib/daemon.py: the loop that drives all planes, and the commands that the CLI sends it.
pub mod Commands
pub mod Dispatch
pub mod Draining
pub mod Prepare
pub mod Starts
pub mod Taken
pub mod Ends
pub mod Limits
