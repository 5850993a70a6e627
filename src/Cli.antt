-- ===== src/Cli.antt =====
-- orchestrator.py: the commands.
pub mod Submit
pub mod Chain
pub mod Control
pub mod Repos
pub mod Collect
pub mod Specs
pub mod Main
pub mod Refusals
pub mod Refused
pub mod Exits
pub mod Reports
pub mod Kills
pub mod Unroll
pub mod Aliases
pub mod Chained
