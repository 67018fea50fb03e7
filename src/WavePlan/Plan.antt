-- ===== src/WavePlan/Plan.antt =====
-- `plan_waves` (wave_plan.py).
mod Examples
pub mod Order
pub mod Sound
pub mod Complete
mod Tests
use cairness.Base.{
  ℕ, zero, suc, ◌+◌, String, Bool, true, false, Option, none, some, List, [], ◌∷◌, ◌++◌, ltb,
  if◌then◌else◌,
}
use cairness.Base.Dict.{Dict}
use cairness.WavePlan.Task.{TaskNode, index, duplicate_ids}
use cairness.WavePlan.Cycle.{detect_cycle}
use cairness.WavePlan.Kahn.{layered_kahn}
use cairness.WavePlan.Overlap.{Overlap, detect_layer_overlap}
use cairness.WavePlan.Split.{Wave, split_layer_into_waves}

-- The entries of `issues`, a constructor for each code.
pub data Issue : Type 0 where
  e_wave007 : Issue
  e_wave006 : (tasks : List String) → Issue
  e_wave001 : (cycle : List String) → Issue
  e_wave005 : (tasks : List String) → Issue
  e_wave002 : Overlap → Issue

pub record WavePlan : Type 0 where
  pub valid : Bool
  pub waves : List Wave
  pub issues : List Issue

abbrev pub rejected : Issue → WavePlan
rejected issue = record { valid = false; waves = []; issues = issue ∷ [] }

unfoldable pub split_layers : Dict TaskNode → ℕ → List (List String) → List Wave
split_layers by_id max_parallel [] = []
split_layers by_id max_parallel (layer ∷ layers) =
    split_layer_into_waves by_id max_parallel layer ++ split_layers by_id max_parallel layers

-- `for i, w in enumerate(waves, start=1): w["wave"] = i`
unfoldable pub number_from : ℕ → List Wave → List Wave
number_from i [] = []
number_from i (w ∷ ws) = record w { wave = i } ∷ number_from (suc i) ws

-- From the layers on.
unfoldable pub plan_layers : Dict TaskNode → ℕ → List (List String) → List String → WavePlan
plan_layers by_id max_parallel layers (x ∷ unscheduled) = rejected (e_wave005 (x ∷ unscheduled))
plan_layers by_id max_parallel layers [] = elim (detect_layer_overlap by_id layers) [
  | some overlap ↦ rejected (e_wave002 overlap)
  | none ↦ record {
    valid = true;
    waves = number_from 1 (split_layers by_id max_parallel layers);
    issues = [];
  }
]

unfoldable pub plan_acyclic : Dict TaskNode → ℕ → List TaskNode → List String → WavePlan
plan_acyclic by_id max_parallel tasks (x ∷ cycle) = rejected (e_wave001 (x ∷ cycle))
plan_acyclic by_id max_parallel tasks [] =
    let (layers, unscheduled) = layered_kahn tasks in
    plan_layers by_id max_parallel layers unscheduled

unfoldable pub plan_unique : ℕ → List TaskNode → List String → WavePlan
plan_unique max_parallel tasks (x ∷ duplicates) = rejected (e_wave006 (x ∷ duplicates))
plan_unique max_parallel tasks [] =
    let by_id = index tasks in plan_acyclic by_id max_parallel tasks (detect_cycle tasks by_id)

unfoldable pub plan_waves : List TaskNode → ℕ → WavePlan
plan_waves tasks max_parallel =
    if ltb max_parallel 1
    then rejected e_wave007
    else plan_unique max_parallel tasks (duplicate_ids tasks)
