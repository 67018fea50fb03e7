-- ===== src/Intents.antt =====
-- The routing of a high-level intent to a command
-- (`cairn-core/scripts/harness_runtime/intent_router.py`).
pub mod State
pub mod Route
pub mod Step
pub mod Legal
mod Tests
