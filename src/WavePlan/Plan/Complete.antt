-- ===== src/WavePlan/Plan/Complete.antt =====
-- When `plan_waves` refuses, and that it plans every graph with no cycle.
use cairness.Base.{
  ℕ, ◌<◌, ◌≤◌, count, String, ◌≡◌, true, List, [], ◌∷◌, arith, mem, inl, inr, ◌⊎◌, subst,
  List-cases, Option-cases,
}
use cairness.WavePlan.Task.{TaskNode, UniqueIds, index}
use cairness.WavePlan.Task.Index.{find, UniqueIds→duplicate_ids-nil, get-index}
use cairness.WavePlan.Cycle.{detect_cycle, deps_of}
use cairness.WavePlan.Cycle.Chains.{IsCycle, not-IsCycle}
use cairness.WavePlan.Cycle.Sound.{detect_cycle-IsCycle}
use cairness.WavePlan.Kahn.{layered_kahn}
use cairness.WavePlan.Kahn.Layers.{IsRanked, layered_kahn-count, layered_kahn_complete}
use cairness.WavePlan.Overlap.{Overlap, files_of, detect_layer_overlap}
use cairness.WavePlan.Overlap.Clash.{ClashIn, detect_layer_overlap-ClashIn}
use cairness.WavePlan.Plan.{
  e_wave001, e_wave002, rejected, plan_waves, plan_unique, plan_acyclic, plan_layers,
}

-- A cycle that is reported with E_WAVE001 is a cycle of `depends_on`.
pub plan_waves-IsCycle :
    (tasks : List TaskNode) (max_parallel : ℕ) (cycle : List String)
    → plan_waves tasks max_parallel ≡ rejected (e_wave001 cycle)
    → IsCycle (index tasks) cycle
unfolding plan_waves plan_unique plan_acyclic plan_layers
plan_waves-IsCycle tasks k cycle h = elim (List-cases (detect_cycle tasks (index tasks))) [
  | inl e ↦ absurd (ground (arith, h, e))
  | inr (x, xs, e) ↦
      let same : x ∷ xs ≡ cycle = ground (arith, h, e) in
      subst (IsCycle (index tasks)) same (detect_cycle-IsCycle tasks (index tasks) x xs e)
]

ranked-acyclic :
    (tasks : List TaskNode) (unique : UniqueIds tasks) (rank : String → ℕ)
    → IsRanked tasks unique rank
    → detect_cycle tasks (index tasks) ≡ []
unfolding deps_of
ranked-acyclic tasks unique rank ranked = elim (List-cases (detect_cycle tasks (index tasks))) [
  | inl e ↦ e
  | inr (x, xs, e) ↦ absurd (
      not-IsCycle (index tasks) rank falls (x ∷ xs)
        (detect_cycle-IsCycle tasks (index tasks) x xs e))
]
  where
    falls : (x y : String) → mem y (deps_of (index tasks) x) ≡ true → rank y < rank x
    falls x y edge = elim (Option-cases (find x tasks)) [
      | inl e ↦ absurd (ground (arith, get-index tasks unique x, e, edge))
      | inr (t, e) ↦ ranked.falls x t y e (ground (arith, get-index tasks unique x, e, edge))
    ]

-- With different ids, known dependencies, a rank that falls along them, tasks each of whose files are
-- different, and a positive width, the tasks are planned, unless two different parallel-safe tasks
-- of one layer write one file, which is then reported with E_WAVE002.
pub plan_waves_complete :
    (tasks : List TaskNode) (max_parallel : ℕ) (unique : UniqueIds tasks) (rank : String → ℕ)
    → IsRanked tasks unique rank
    → ((x f : String) → count f (files_of (index tasks) x) ≤ 1)
    → 0 < max_parallel
    → ((plan_waves tasks max_parallel).valid ≡ true)
      ⊎ ((overlap : Overlap) × ClashIn (index tasks) (layered_kahn tasks).0 overlap
          × (plan_waves tasks max_parallel ≡ rejected (e_wave002 overlap)))
unfolding plan_waves plan_unique plan_acyclic plan_layers
plan_waves_complete tasks k unique rank ranked sets pos =
    let no_duplicates = UniqueIds→duplicate_ids-nil tasks unique in
    let no_cycle = ranked-acyclic tasks unique rank ranked in
    let all_placed = layered_kahn_complete tasks unique rank ranked in
    elim (Option-cases (detect_layer_overlap (index tasks) (layered_kahn tasks).0)) [
      | inl e ↦ inl (ground (arith, no_duplicates, no_cycle, all_placed, e))
      | inr (o, e) ↦ inr (
        o,
        detect_layer_overlap-ClashIn (index tasks) sets (layered_kahn tasks).0 o
            (λ x. omega (arith, layered_kahn-count tasks unique x, unique x)) e,
        ground (arith, no_duplicates, no_cycle, all_placed, e),
      )
    ]
