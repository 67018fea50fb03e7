-- ===== src/Scopes.antt =====
-- Paths and declared scopes (`cairn-core/scripts/change_docs.py`).
pub mod Glob
pub mod Parts
pub mod Match
mod Tests
