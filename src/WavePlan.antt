-- ===== src/WavePlan.antt =====
-- wave_plan.py (cairn-core/scripts/harness_runtime): from a graph of tasks to an ordered list of
-- waves. `Task` has the tasks, `Cycle`, `Kahn`, `Overlap` and `Split` have one function of the file
-- each with its lemmas, and `Plan` puts them together.
pub mod Task
pub mod Cycle
pub mod Kahn
pub mod Overlap
pub mod Split
pub mod Plan
