-- ===== src/TestPolicy.antt =====
-- test_policy.py (cairn-core/scripts/harness_runtime): the tests that a changed path selects.
pub mod Stem
pub mod Select
pub mod Classify
