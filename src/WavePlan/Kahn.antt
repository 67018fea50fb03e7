-- ===== src/WavePlan/Kahn.antt =====
-- `_layered_kahn` (wave_plan.py): the layers of tasks whose dependencies all lie in earlier layers.
mod Degrees
mod Dependents
pub mod Rounds
pub mod Layers
use cairness.Base.{
  ℕ, zero, suc, ◌-◌, String, Bool, true, false, Option, none, some, List, [], ◌∷◌, ◌++◌, ◌==◌,
  if◌then◌else◌, mem, filter_b, length, eqb, discard,
}
use cairness.Base.Dict
use cairness.Base.Dict.{Dict}
use cairness.Base.Sorting.{sorted}
use cairness.WavePlan.Task.{TaskNode, task_ids}

-- `{t.id: len(t.depends_on) for t in tasks}`
degrees_from : Dict ℕ → List TaskNode → Dict ℕ
degrees_from m [] = m
degrees_from m (t ∷ ts) = degrees_from (Dict.put m t.id (length t.depends_on)) ts

-- `{t.id: [] for t in tasks}`
no_dependents : Dict (List String) → List TaskNode → Dict (List String)
no_dependents m [] = m
no_dependents m (t ∷ ts) = no_dependents (Dict.put m t.id []) ts

-- `if dep in dependents: dependents[dep].append(tid)`
append_to : String → String → Dict (List String) → Dict (List String)
append_to tid dep m = elim (Dict.get m dep) [
  | none ↦ m
  | some _ ↦ Dict.modify m dep (λ l. l ++ tid ∷ [])
]

-- `for dep in deps`
add_dependent : String → List String → Dict (List String) → Dict (List String)
unfolding append_to
add_dependent tid [] m = m
add_dependent tid (dep ∷ deps) m = add_dependent tid deps (append_to tid dep m)

dependents_from : Dict (List String) → List TaskNode → Dict (List String)
unfolding add_dependent
dependents_from m [] = m
dependents_from m (t ∷ ts) = dependents_from (add_dependent t.id t.depends_on m) ts

unfoldable pub in_degrees : List TaskNode → Dict ℕ
unfolding degrees_from
in_degrees = degrees_from []

unfoldable pub dependents : List TaskNode → Dict (List String)
unfolding no_dependents dependents_from
dependents tasks = dependents_from (no_dependents [] tasks) tasks

-- `in_degree[tid] == 0`; a missing key is KeyError in the source, and no task here.
unfoldable pub is_ready : Dict ℕ → String → Bool
is_ready deg tid = elim (Dict.get deg tid) [ none ↦ false | some n ↦ eqb n 0 ]

-- `for dep_tid in ids: in_degree[dep_tid] -= 1`
unfoldable pub release : List String → Dict ℕ → Dict ℕ
release [] deg = deg
release (x ∷ xs) deg = release xs (Dict.modify deg x (λ n. n - 1))

unfoldable pub dependents_of : Dict (List String) → String → List String
dependents_of deps tid = elim (Dict.get deps tid) [ none ↦ [] | some l ↦ l ]

-- What the loop changes.
pub record Loop : Type 0 where
  pub remaining : List String
  pub in_degree : Dict ℕ

-- The body of `for tid in ready`.
unfoldable pub schedule : Dict (List String) → String → Loop → Loop
schedule deps tid s = record {
  remaining = discard tid s.remaining;
  in_degree = release (dependents_of deps tid) s.in_degree;
}

unfoldable pub schedule_all : Dict (List String) → List String → Loop → Loop
schedule_all deps [] s = s
schedule_all deps (x ∷ xs) s = schedule_all deps xs (schedule deps x s)

unfoldable pub ready : Loop → List String
ready s = sorted (filter_b (is_ready s.in_degree) s.remaining)

-- `while remaining`, on fuel: each round that goes on takes an id out of `remaining`.
unfoldable pub peel : Dict (List String) → ℕ → Loop → List (List String) × Loop
peel deps zero s = ([], s)
peel deps (suc fuel) s = elim (ready s) [
  | [] ↦ ([], s)
  | x ∷ xs ↦
      let (layers, end) = peel deps fuel (schedule_all deps (x ∷ xs) s) in ((x ∷ xs) ∷ layers, end)
]

unfoldable pub layered_kahn : List TaskNode → List (List String) × List String
layered_kahn tasks =
    let (layers, end) =
      peel (dependents tasks) (suc (length tasks))
        (record { remaining = Dict.keys (in_degrees tasks); in_degree = in_degrees tasks }) in
    (layers, sorted end.remaining)
