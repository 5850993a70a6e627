-- ===== src/Spec.antt =====
-- lib/spec.py.
pub mod Render
pub mod Load
pub mod Variables
