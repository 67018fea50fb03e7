-- ===== src/WavePlan/Cycle.antt =====
-- `_detect_cycle` (wave_plan.py): depth-first search with colours.
pub mod Chains
pub mod Sound
use cairness.Base.{
  ℕ, zero, suc, String, Bool, true, false, Option, none, some, List, [], ◌∷◌, ◌++◌, ◌==◌,
  if◌then◌else◌, length,
}
use cairness.Base.Dict
use cairness.Base.Dict.{Dict}
use cairness.WavePlan.Task.{TaskNode}

pub data Color : Type 0 where
  white gray black : Color

pub record Search : Type 0 where
  pub color : Dict Color
  pub stack : List String

-- What a visit comes back with: a cycle, or the state after it. `starved` is lack of fuel.
pub data Visit : Type 0 where
  found : List String → Visit
  clean : Search → Visit
  starved : Visit

abbrev pub and_then : Visit → (Search → Visit) → Visit
and_then (found c) k = found c
and_then (clean s) k = k s
and_then starved k = starved

-- `stack[stack.index(x):]`
unfoldable pub from_index : String → List String → List String
from_index x [] = []
from_index x (y ∷ ys) = if x == y then y ∷ ys else from_index x ys

-- `stack.pop()`
unfoldable pub pop : List String → List String
pop [] = []
pop (x ∷ []) = []
pop (x ∷ y ∷ ys) = x ∷ pop (y ∷ ys)

unfoldable pub deps_of : Dict TaskNode → String → List String
deps_of by_id x = elim (Dict.get by_id x) [ none ↦ [] | some t ↦ t.depends_on ]

-- One turn of `for dep in by_id[node_id].depends_on`, with the recursive call as `go`.
unfoldable pub visit_dep : (String → Search → Visit) → Dict TaskNode → String → Search → Visit
visit_dep go by_id dep s = elim (Dict.get by_id dep) [
  | none ↦ clean s
  | some _ ↦ elim (Dict.get s.color dep) [
    | some gray ↦ found (from_index dep s.stack ++ dep ∷ [])
    | some white ↦ go dep s
    | _ ↦ clean s
  ]
]

unfoldable pub visit_deps : (String → Search → Visit) → Dict TaskNode → List String → Search → Visit
visit_deps go by_id [] s = clean s
visit_deps go by_id (dep ∷ deps) s = and_then (visit_dep go by_id dep s) (visit_deps go by_id deps)

-- The first two lines of `dfs`, and its last two.
unfoldable pub enter : String → Search → Search
enter x s = record { color = Dict.put s.color x gray; stack = s.stack ++ x ∷ [] }

unfoldable pub leave : String → Search → Search
leave x s = record { color = Dict.put s.color x black; stack = pop s.stack }

unfoldable pub dfs : Dict TaskNode → ℕ → String → Search → Visit
dfs by_id zero x s = starved
dfs by_id (suc fuel) x s =
    and_then (visit_deps (dfs by_id fuel) by_id (deps_of by_id x) (enter x s))
      (λ s'. clean (leave x s'))

-- One turn of `for t in tasks`.
unfoldable pub visit_root : Dict TaskNode → ℕ → String → Search → Visit
visit_root by_id fuel x s = elim (Dict.get s.color x) [
  | some white ↦ dfs by_id fuel x s
  | _ ↦ clean s
]

unfoldable pub visit_roots : Dict TaskNode → ℕ → List TaskNode → Search → Visit
visit_roots by_id fuel [] s = clean s
visit_roots by_id fuel (t ∷ ts) s =
    and_then (visit_root by_id fuel t.id s) (visit_roots by_id fuel ts)

-- `{t.id: WHITE for t in tasks}`
unfoldable pub all_white : Dict Color → List TaskNode → Dict Color
all_white m [] = m
all_white m (t ∷ ts) = all_white (Dict.put m t.id white) ts

unfoldable pub search_cycle : List TaskNode → Dict TaskNode → Visit
search_cycle tasks by_id =
    visit_roots by_id (suc (length tasks)) tasks (record { color = all_white [] tasks; stack = [] })

-- The cycle, or the empty list.
unfoldable pub detect_cycle : List TaskNode → Dict TaskNode → List String
detect_cycle tasks by_id = elim (search_cycle tasks by_id) [ found c ↦ c | _ ↦ [] ]
