-- ===== src/WavePlan/Task.antt =====
-- `TaskNode`, and the dicts that `plan_waves` builds from a task list (wave_plan.py).
pub mod Index
use cairness.Base.{
  ℕ, zero, suc, ◌≤◌, String, ◌≡◌, Bool, true, false, ◌&&◌, Option, none, some, List, [], ◌∷◌, ◌++◌,
  arith, ◌==◌, eq_iff, if◌then◌else◌, ltb, count, mem, filter_b, length,
}
use cairness.Base.Dict
use cairness.Base.Dict.{Dict}
use cairness.Base.Sorting.{sorted}

-- `files` is a set in the source: a list whose order is the set's iteration order.
pub record TaskNode : Type 0 where
  pub id : String
  pub depends_on : List String
  pub files : List String
  pub parallel_safe : Bool

unfoldable pub task_ids : List TaskNode → List String
task_ids [] = []
task_ids (t ∷ ts) = t.id ∷ task_ids ts

-- `{t.id: t for t in tasks}`, from the dict that the earlier tasks made.
index_from : Dict TaskNode → List TaskNode → Dict TaskNode
index_from m [] = m
index_from m (t ∷ ts) = index_from (Dict.put m t.id t) ts

unfoldable pub index : List TaskNode → Dict TaskNode
unfolding index_from
index = index_from []

-- The ids that occur more than once, each once.
dedup : List String → List String
dedup [] = []
dedup (x ∷ xs) = x ∷ filter_b (λ y. if x == y then false else true) (dedup xs)

unfoldable pub duplicate_ids : List TaskNode → List String
unfolding task_ids dedup
duplicate_ids tasks =
    let ids = task_ids tasks in sorted (dedup (filter_b (λ x. ltb 1 (count x ids)) ids))

-- Every id names one task.
abbrev pub UniqueIds : List TaskNode → Type 0
UniqueIds tasks = (x : String) → count x (task_ids tasks) ≤ 1
