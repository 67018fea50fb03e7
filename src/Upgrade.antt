-- ===== src/Upgrade.antt =====
-- The upgrade of an installed framework (`cairn-core/cc-cairn.py`).
pub mod Files
pub mod Replace
pub mod Exact
pub mod Apart
pub mod Outcome
pub mod Sync
mod Tests
