-- ===== src/WavePlan/Plan/Sound.antt =====
-- What a plan of `plan_waves` guarantees, and when there is one.
use cairness.Base.{ℕ, ◌≤◌, ◌<◌, String, ◌≡◌, ap, ◌∙◌, true, List, [], arith, count, All, none}
use cairness.WavePlan.Task.{TaskNode, task_ids, UniqueIds, index}
use cairness.WavePlan.Task.Index.{duplicate_ids-nil→UniqueIds}
use cairness.WavePlan.Kahn.{layered_kahn}
use cairness.WavePlan.Kahn.Layers.{layered_kahn-count, layered_kahn-AreLayers}
use cairness.WavePlan.Split.Waves.{wave_tasks, IsSound}
use cairness.WavePlan.Overlap.{detect_layer_overlap}
use cairness.WavePlan.Overlap.Disjoint.{no_overlap-IsDisjointLayer}
use cairness.WavePlan.Plan.{
  plan_waves, plan_unique, plan_acyclic, plan_layers, split_layers, number_from,
}
use cairness.WavePlan.Plan.Order.{
  IsOrdered, IsNumbered, split_layers-IsOrdered, number_from-IsOrdered, number_from-IsNumbered,
  number_from-IsSound, wave_tasks-number_from, count-split_layers, split_layers-IsSound,
}

-- The way to a valid plan.
record Accepted (tasks : List TaskNode) (k : ℕ) : Type 0 where
  positive : 0 < k
  unique : UniqueIds tasks
  placed : (layered_kahn tasks).1 ≡ []
  apart : detect_layer_overlap (index tasks) (layered_kahn tasks).0 ≡ none
  waves :
      (plan_waves tasks k).waves
      ≡ number_from 1 (split_layers (index tasks) k (layered_kahn tasks).0)

plan_waves-Accepted :
    (tasks : List TaskNode) (k : ℕ) → (plan_waves tasks k).valid ≡ true → Accepted tasks k
unfolding plan_waves plan_unique plan_acyclic plan_layers
plan_waves-Accepted tasks k h = record {
  positive = ground arith;
  unique = duplicate_ids-nil→UniqueIds tasks (ground arith);
  placed = ground arith;
  apart = ground arith;
  waves = ground arith;
}

-- A valid plan runs every task exactly once.
pub plan_waves-exact :
    (tasks : List TaskNode) (max_parallel : ℕ)
    → (plan_waves tasks max_parallel).valid ≡ true
    → (x : String)
    → (count x (wave_tasks (plan_waves tasks max_parallel).waves) ≡ count x (task_ids tasks))
      × (count x (task_ids tasks) ≤ 1)
plan_waves-exact tasks k h x =
    let a = plan_waves-Accepted tasks k h in
    let layers = (layered_kahn tasks).0 in
    let waves = split_layers (index tasks) k layers in
    (
      ap (λ l. count x (wave_tasks l)) a.waves
          ∙ ap (count x) (wave_tasks-number_from 1 waves)
          ∙ count-split_layers (index tasks) k x layers a.positive
          ∙ ground (arith, layered_kahn-count tasks a.unique x, ap (count x) a.placed),
      a.unique x,
    )

-- In a valid plan what a task depends on is in an earlier wave, and the waves are numbered from 1.
pub plan_waves-IsOrdered :
    (tasks : List TaskNode) (max_parallel : ℕ)
    → (plan_waves tasks max_parallel).valid ≡ true
    → IsOrdered tasks [] (plan_waves tasks max_parallel).waves
      × IsNumbered 1 (plan_waves tasks max_parallel).waves
plan_waves-IsOrdered tasks k h =
    let a = plan_waves-Accepted tasks k h in
    let layers = (layered_kahn tasks).0 in
    let waves = split_layers (index tasks) k layers in
    rw a.waves (
      number_from-IsOrdered tasks 1 [] waves (
          split_layers-IsOrdered tasks (index tasks) k layers [] [] a.positive (λ d m. m)
            (layered_kahn-AreLayers tasks a.unique)),
      number_from-IsNumbered 1 waves,
    )

-- In a valid plan each wave has between 1 and `max_parallel` tasks, its `parallelism` is their
-- number, its `parallel_safe_all` says whether all of them are parallel-safe, a task that is not
-- parallel-safe is alone in its wave, and no two tasks of a wave write one file.
pub plan_waves-IsSound :
    (tasks : List TaskNode) (max_parallel : ℕ)
    → (plan_waves tasks max_parallel).valid ≡ true
    → All (IsSound (index tasks) max_parallel) (plan_waves tasks max_parallel).waves
plan_waves-IsSound tasks k h =
    let a = plan_waves-Accepted tasks k h in
    let layers = (layered_kahn tasks).0 in
    rw a.waves (
      number_from-IsSound (index tasks) k 1 (split_layers (index tasks) k layers) (
        split_layers-IsSound (index tasks) k layers a.positive
          (no_overlap-IsDisjointLayer (index tasks) layers a.apart)))
