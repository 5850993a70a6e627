-- ===== src/Supervisor.antt =====
-- lib/supervisor.py: the report of finished jobs, by the Controller or by the fallback.
pub mod Pane
pub mod Fallback
pub mod Drive
pub mod Typing
pub mod Delivered
