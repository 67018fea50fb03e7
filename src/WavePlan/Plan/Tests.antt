-- ===== src/WavePlan/Plan/Tests.antt =====
-- The theorems about `plan_waves` at small task graphs.
use cairness.Base.{
  ◌≢◌, ℕ, String, ◌≡◌, ◌≤◌, refl, true, List, [], ◌∷◌, arith, ◌==◌, eq_iff, count, if◌then◌else◌,
  ◌⊎◌, All,
}
use cairness.WavePlan.Task.{TaskNode, task_ids, index, UniqueIds}
use cairness.WavePlan.Task.Index.{find, duplicate_ids-nil→UniqueIds}
use cairness.WavePlan.Kahn.{layered_kahn}
use cairness.WavePlan.Kahn.Layers.{IsRanked}
use cairness.WavePlan.Cycle.Chains.{IsCycle}
use cairness.WavePlan.Overlap.{Overlap, files_of}
use cairness.WavePlan.Overlap.Clash.{ClashIn}
use cairness.WavePlan.Split.Waves.{wave_tasks, IsSound}
use cairness.WavePlan.Cycle.{search_cycle, starved}
use cairness.WavePlan.Cycle.Sound.{search_cycle-ne-starved}
use cairness.WavePlan.Plan.{plan_waves, rejected, e_wave002}
use cairness.WavePlan.Plan.Order.{IsOrdered, IsNumbered}
use cairness.WavePlan.Plan.Sound.{plan_waves-exact, plan_waves-IsOrdered, plan_waves-IsSound}
use cairness.WavePlan.Plan.Complete.{plan_waves-IsCycle, plan_waves_complete}
use cairness.WavePlan.Plan.Examples.{diamond, planner, loop, loop-rejected}

diamond_valid : (plan_waves diamond 2).valid ≡ true
unfolding planner
diamond_valid = refl

plan_waves-exact_example :
    (count "b" (wave_tasks (plan_waves diamond 2).waves) ≡ count "b" (task_ids diamond))
    × (count "b" (task_ids diamond) ≤ 1)
plan_waves-exact_example = plan_waves-exact diamond 2 diamond_valid "b"

plan_waves-IsOrdered_example :
    IsOrdered diamond [] (plan_waves diamond 2).waves × IsNumbered 1 (plan_waves diamond 2).waves
plan_waves-IsOrdered_example = plan_waves-IsOrdered diamond 2 diamond_valid

plan_waves-IsSound_example : All (IsSound (index diamond) 2) (plan_waves diamond 2).waves
plan_waves-IsSound_example = plan_waves-IsSound diamond 2 diamond_valid

plan_waves-IsCycle_example : IsCycle (index loop) ("a" ∷ "b" ∷ "a" ∷ [])
plan_waves-IsCycle_example = plan_waves-IsCycle loop 2 ("a" ∷ "b" ∷ "a" ∷ []) loop-rejected

abbrev clashing : List TaskNode
clashing =
    record { id = "b"; depends_on = "a" ∷ []; files = "x.py" ∷ []; parallel_safe = true }
    ∷ record { id = "a"; depends_on = []; files = []; parallel_safe = true }
    ∷ record { id = "c"; depends_on = "a" ∷ []; files = "x.py" ∷ []; parallel_safe = true }
    ∷ []

clashing-UniqueIds : UniqueIds clashing
unfolding planner
clashing-UniqueIds = duplicate_ids-nil→UniqueIds clashing refl

depth : String → ℕ
depth x = if x == "a" then 0 else 1

clashing-IsRanked : IsRanked clashing clashing-UniqueIds depth
unfolding task_ids find depth
clashing-IsRanked = record {
  known = λ x t d found dep. ground (arith, eq_iff x "a", eq_iff x "b", eq_iff x "c", eq_iff d "a");
  falls = λ x t d found dep. ground (
    arith,
    eq_iff x "a",
    eq_iff x "b",
    eq_iff x "c",
    eq_iff "a" x,
    eq_iff "b" x,
    eq_iff "c" x,
    eq_iff d "a",
    eq_iff "a" "b",
    eq_iff "a" "c",
    eq_iff "b" "c",
  );
}

clashing-sets : (x f : String) → count f (files_of (index clashing) x) ≤ 1
unfolding planner
clashing-sets x f = ground (arith, eq_iff x "a", eq_iff x "b", eq_iff x "c")

plan_waves_complete_example :
    ((plan_waves clashing 2).valid ≡ true)
    ⊎ ((overlap : Overlap) × ClashIn (index clashing) (layered_kahn clashing).0 overlap
        × (plan_waves clashing 2 ≡ rejected (e_wave002 overlap)))
plan_waves_complete_example =
    plan_waves_complete clashing 2 clashing-UniqueIds depth clashing-IsRanked clashing-sets
      (omega arith)

search_cycle-ne-starved_example : search_cycle diamond (index diamond) ≢ starved
search_cycle-ne-starved_example = search_cycle-ne-starved diamond (index diamond)
