-- ===== src/Scheduler.antt =====
-- lib/scheduler.py: concurrency limits, backoff after rate limits, and the job queue.
pub mod Backoff
pub mod Dispatch
pub mod Queue
pub mod Admission
pub mod Chain
pub mod Outcome
pub mod Depth
pub mod RateLimit
pub mod Recovery
pub mod Retries
