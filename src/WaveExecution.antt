-- ===== src/WaveExecution.antt =====
-- wave_execution.py (cairn-core/scripts/harness_runtime). `Ledger` has the task ledger, `Pool` the
-- worker threads and `execute_wave`.
pub mod Ledger
pub mod Outcome
pub mod Pool
pub mod Run
pub mod Summary
