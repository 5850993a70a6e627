-- ===== src/Results.antt =====
-- lib/result_parser.py.
pub mod Search
pub mod Schema
pub mod Parse
pub mod Delimited
pub mod Roundtrip
pub mod Strict
