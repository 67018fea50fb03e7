-- ===== src/Deps/Graph.antt =====
-- `build_dependency_graph` and `topological_sort` (deps.py). A set of dependents is a list.
pub mod Ends
pub mod Degrees
pub mod Blocked
pub mod Settled
pub mod Order
mod Tests
use cairness.Base.{
  ℕ, zero, suc, ◌+◌, String, Bool, true, false, ◌&&◌, Option, none, some, List, [], ◌∷◌, ◌++◌, ◌==◌,
  if◌then◌else◌, eqb, mem, length,
}
use cairness.Base.Dict
use cairness.Base.Dict.{Dict}
use cairness.Deps.Change.{ChangeInfo}

abbrev pub Graph : Type 0
Graph = Dict (List String)

-- `graph.get(node, set())`
unfoldable pub neighbors : Graph → String → List String
neighbors graph node = elim (Dict.get graph node) [ none ↦ [] | some ns ↦ ns ]

-- `graph.setdefault(node, set())`
unfoldable pub with_node : Graph → String → Graph
unfolding neighbors
with_node graph node = Dict.put graph node (neighbors graph node)

unfoldable pub with_nodes : Graph → List String → Graph
unfolding with_node
with_nodes graph [] = graph
with_nodes graph (id ∷ ids) = with_nodes (with_node graph id) ids

unfoldable pub add_member : String → List String → List String
add_member id ns = if mem id ns then ns else ns ++ (id ∷ [])

-- `graph.setdefault(dependency, set()).add(change_id)`, for each dependency
unfoldable pub with_edges : Graph → (change_id : String) → (depends_on : List String) → Graph
unfolding neighbors add_member
with_edges graph id [] = graph
with_edges graph id (d ∷ ds) =
    with_edges (Dict.put graph d (add_member id (neighbors graph d))) id ds

unfoldable pub with_changes : Graph → Dict ChangeInfo → Graph
unfolding with_edges
with_changes graph [] = graph
with_changes graph ((id, c) ∷ changes) = with_changes (with_edges graph id c.depends_on) changes

unfoldable pub build_dependency_graph : Dict ChangeInfo → Graph
unfolding with_nodes with_changes
build_dependency_graph changes = with_changes (with_nodes [] (Dict.keys changes)) changes

-- `in_degree[node]` of a `defaultdict(int)`
unfoldable pub degree_of : Dict ℕ → String → ℕ
degree_of degrees node = elim (Dict.get degrees node) [ none ↦ 0 | some n ↦ n ]

unfoldable pub zeros : Graph → Dict ℕ
zeros [] = []
zeros ((node, ns) ∷ graph) = (node, 0) ∷ zeros graph

unfoldable pub count_up : Dict ℕ → List String → Dict ℕ
unfolding degree_of
count_up degrees [] = degrees
count_up degrees (n ∷ ns) = count_up (Dict.put degrees n (suc (degree_of degrees n))) ns

unfoldable pub count_edges : Dict ℕ → Graph → Dict ℕ
unfolding count_up
count_edges degrees [] = degrees
count_edges degrees ((node, ns) ∷ graph) = count_edges (count_up degrees ns) graph

-- The nodes to start from.
unfoldable pub roots : (known : List String) → Dict ℕ → List String
roots known [] = []
roots known ((node, degree) ∷ degrees) =
    let rest = roots known degrees in if eqb degree 0 && mem node known then node ∷ rest else rest

pub record Work : Type 0 where
  pub degrees : Dict ℕ
  pub queue : List String

-- A degree below zero never comes back to zero, so it is kept at zero without queueing.
unfoldable pub fall : (known : List String) → String → (degree : ℕ) → Work → Work
fall known n zero w = w
fall known n (suc k) w = record {
  degrees = Dict.put w.degrees n k;
  queue = if eqb k 0 && mem n known then w.queue ++ (n ∷ []) else w.queue;
}

-- `for neighbor in graph.get(node, set())`
unfoldable pub relax : (known : List String) → List String → Work → Work
unfolding fall degree_of
relax known [] w = w
relax known (n ∷ ns) w = relax known ns (fall known n (degree_of w.degrees n) w)

abbrev pub work : Dict ℕ → List String → Work
work degrees queue = record { degrees = degrees; queue = queue }

-- `while queue`, with fuel.
unfoldable pub sort_loop :
    ℕ → Graph → (known : List String) → Dict ℕ → (queue result : List String) → Option (List String)
unfolding relax neighbors
sort_loop fuel graph known degrees [] result = some result
sort_loop zero graph known degrees (node ∷ queue) result = none
sort_loop (suc fuel) graph known degrees (node ∷ queue) result =
    let w = relax known (neighbors graph node) (work degrees queue) in
    sort_loop fuel graph known w.degrees w.queue (result ++ (node ∷ []))

unfoldable pub total : Dict ℕ → ℕ
total [] = 0
total ((node, n) ∷ degrees) = n + total degrees

unfoldable pub in_degrees : Graph → Dict ℕ
unfolding zeros count_edges
in_degrees graph = count_edges (zeros graph) graph

-- The fuel is the number of queued nodes and of edges.
unfoldable pub topological_sort : Graph → (known : List String) → Option (List String)
unfolding in_degrees roots sort_loop total
topological_sort graph known =
    let degrees = in_degrees graph in
    let queue = roots known degrees in
    sort_loop (length queue + total degrees) graph known degrees queue []
