-- ===== src/Runner.antt =====
-- lib/runner.py: worker processes, and what their end does to the job.
pub mod Limits
pub mod Run
pub mod Complete
pub mod Output
pub mod Lines
