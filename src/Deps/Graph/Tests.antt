-- ===== src/Deps/Graph/Tests.antt =====
-- `topological_sort` (deps.py) at two changes and a missing one.
use cairness.Base.{◌≡◌, refl, String, true, none, some, List, [], ◌∷◌}
use cairness.Base.Dict.{Dict, get, put, keys}
use cairness.Deps.Change.{ChangeInfo}
use cairness.Deps.Graph.{
  neighbors, with_node, with_nodes, with_edges, add_member, with_changes, build_dependency_graph,
  degree_of, zeros, count_up, count_edges, in_degrees, roots, fall, relax, sort_loop, total,
  topological_sort,
}
use cairness.Deps.Graph.Order.{IsSorted, topological_sort-build}

abbrev change : String → List String → ChangeInfo
change id deps = record {
  change_id = id;
  status = "apply";
  depends_on = deps;
  parallel_safe = true;
  branch = id;
  files = [];
  dir_path = none;
}

abbrev changes : Dict ChangeInfo
changes =
    ("logout", change "logout" ("login" ∷ []))
    ∷ ("login", change "login" [])
    ∷ ("audit", change "audit" ("missing" ∷ []))
    ∷ []

-- `audit` waits for a change that is not there.
two_sorted :
    topological_sort (build_dependency_graph changes) (keys changes)
    ≡ some ("login" ∷ "logout" ∷ [])
unfolding topological_sort build_dependency_graph with_changes with_edges with_nodes with_node
    add_member neighbors degree_of zeros count_up count_edges in_degrees roots fall relax sort_loop
    total get put keys
two_sorted = refl

topological_sort-build_example :
    (sorted : List String) × (topological_sort (build_dependency_graph changes) (keys changes)
      ≡ some sorted)
    × IsSorted (build_dependency_graph changes) (keys changes) sorted
topological_sort-build_example = topological_sort-build changes
