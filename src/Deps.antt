-- ===== src/Deps.antt =====
-- deps.py (cairn-core/scripts/harness_runtime): whether a change may start, and which changed files
-- no change has declared.
pub mod Change
pub mod Readiness
pub mod Orphans
pub mod Conflicts
pub mod Graph
