-- ===== src/LoopRuntime.antt =====
-- loop_runtime.py (cairn-core/scripts/harness_runtime): the session of a loop, its steps and pauses.
pub mod Ids
pub mod Config
pub mod Session
pub mod Timing
pub mod Steps
pub mod Store
