-- ===== src/WavePlan/Plan/Examples.antt =====
-- Small task graphs, and what the planner does on them.
use cairness.Base.{String, ◌≡◌, refl, Bool, true, false, List, [], ◌∷◌, map, discard}
use cairness.WavePlan.Task.{TaskNode, index, duplicate_ids}
use cairness.WavePlan.Cycle.{
  detect_cycle, search_cycle, visit_roots, visit_root, dfs, visit_deps, visit_dep, enter, leave,
  from_index, pop, deps_of, all_white,
}
use cairness.WavePlan.Kahn.{
  layered_kahn, in_degrees, dependents, peel, ready, is_ready, schedule_all, schedule, release,
  dependents_of,
}
use cairness.WavePlan.Overlap.{
  detect_layer_overlap, claim_layer, claim_task, claim_files, claim_file, is_safe, files_of,
}
use cairness.WavePlan.Split.{split_layer_into_waves, make_wave, all_safe, solo_waves, chunk_waves}
use cairness.WavePlan.Plan.{
  plan_waves, plan_unique, plan_acyclic, plan_layers, split_layers, number_from, rejected,
  e_wave001,
}
use cairness.Base.Dict.{get, put, keys, modify}
use cairness.Base.Sorting.{sorted}

abbrev pub task : String → List String → List String → Bool → TaskNode
task id deps files safe = record { id = id; depends_on = deps; files = files; parallel_safe = safe }

abbrev pub diamond : List TaskNode
diamond =
    task "d" ("b" ∷ "c" ∷ []) ("d.py" ∷ []) true
    ∷ task "a" [] ("a.py" ∷ []) true
    ∷ task "b" ("a" ∷ []) ("b.py" ∷ []) true
    ∷ task "c" ("a" ∷ []) ("c.py" ∷ []) true
    ∷ task "e" ("a" ∷ []) ("b.py" ∷ []) false
    ∷ []

abbrev pub loop : List TaskNode
loop = task "a" ("b" ∷ []) [] true ∷ task "b" ("a" ∷ []) [] true ∷ []

-- A proof that runs the planner names this on its `unfolding` line.
unfoldable pub planner : Unit {0}
unfolding plan_waves plan_unique plan_acyclic plan_layers split_layers number_from duplicate_ids
    index detect_cycle search_cycle visit_roots visit_root dfs visit_deps visit_dep enter leave
    from_index pop deps_of all_white layered_kahn in_degrees dependents peel ready is_ready
    schedule_all schedule release discard dependents_of detect_layer_overlap claim_layer claim_task
    claim_files claim_file is_safe files_of split_layer_into_waves make_wave all_safe solo_waves
    chunk_waves get put keys modify sorted
planner = tt

pub diamond_tasks :
    map (λ w. w.tasks) (plan_waves diamond 2).waves
    ≡ ("a" ∷ []) ∷ ("e" ∷ []) ∷ ("b" ∷ "c" ∷ []) ∷ ("d" ∷ []) ∷ []
unfolding planner
diamond_tasks = refl

pub loop-rejected : plan_waves loop 2 ≡ rejected (e_wave001 ("a" ∷ "b" ∷ "a" ∷ []))
unfolding planner
loop-rejected = refl
