-- ===== src/Registry.antt =====
-- lib/registry.py.
pub mod Preflight
pub mod Repos
pub mod Exchange
pub mod Roundtrip
pub mod Registration
