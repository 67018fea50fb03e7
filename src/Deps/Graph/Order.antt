-- ===== src/Deps/Graph/Order.antt =====
-- The order that `topological_sort` (deps.py) returns.
use cairness.Base.{
  ℕ, zero, suc, ◌+◌, ◌<◌, ◌≡◌, refl, sym, subst, arith, String, true, false, some, List, [], ◌∷◌,
  ◌++◌, append_assoc, append-nil, eq_iff, mem, length, count, count-append, not_mem→count,
  mem→count, Bool-cases, inl, inr,
}
use cairness.Base.Dict
use cairness.Base.Dict.{Dict}
use cairness.Deps.Change.{ChangeInfo}
use cairness.Deps.Graph.{
  Graph, with_node, with_nodes, with_edges, add_member, with_changes, build_dependency_graph,
  neighbors, degree_of, work, relax, sort_loop, total, roots, in_degrees, topological_sort,
}
use cairness.Deps.Graph.Degrees.{
  pending, pending-edge, pending-node, IsOnce, put-IsOnce, degree_of-in_degrees, in_degrees-IsOnce,
  count-roots, degree_of-roots,
}
use cairness.Deps.Graph.Blocked.{roots-count, mem-in_degrees, IsBlocked, pending-IsBlocked}
use cairness.Deps.Graph.Ends.{sort_loop-ends}
use cairness.Deps.Graph.Settled.{IsKept, relax-IsKept, popped-IsKept, IsSettled, relax-IsSettled}

-- All nodes with an edge to the node are among those seen.
pub AllBefore : Graph → (seen : List String) → String → Type 0
AllBefore graph seen x =
    (d : String) (ns : List String)
    → Dict.get graph d ≡ some ns
    → mem x ns ≡ true
    → mem d seen ≡ true

-- Each node of the list comes after all nodes with an edge to it.
pub IsOrdered : Graph → (seen xs : List String) → Type 0
IsOrdered graph seen [] = Unit
IsOrdered graph seen (x ∷ xs) = AllBefore graph seen x × IsOrdered graph (seen ++ (x ∷ [])) xs

next-IsOrdered :
    (graph : Graph) (seen xs : List String) (x : String)
    → IsOrdered graph seen xs
    → AllBefore graph (seen ++ xs) x
    → IsOrdered graph seen (xs ++ (x ∷ []))
unfolding IsOrdered
next-IsOrdered graph seen [] x h b = (subst (λ ys. AllBefore graph ys x) (append-nil seen) b, tt)
next-IsOrdered graph seen (y ∷ xs) x (first, later) b = (
  first,
  next-IsOrdered graph (seen ++ (y ∷ [])) xs x later
      (subst (λ ys. AllBefore graph ys x) (sym (append_assoc seen (y ∷ []) xs)) b),
)

-- A queued node has no edge from a node that is not done.
queued-AllBefore :
    (graph : Graph) (done queue : List String) (degrees : Dict ℕ) (node : String)
    → IsSettled graph done [] (work degrees (node ∷ queue))
    → AllBefore graph done node
unfolding AllBefore
queued-AllBefore graph done queue degrees node s d ns h i = elim (Bool-cases (mem d done)) [
  | inl e ↦ e
  | inr e ↦ absurd (
      ground (
        arith,
        pending-edge graph done d node ns h i e,
        s.degrees_left node,
        s.at_zero node,
        eq_iff node node,
      ))
]

popped-IsSettled :
    (graph : Graph) (done queue : List String) (degrees : Dict ℕ) (node : String)
    → IsOnce (Dict.keys graph)
    → IsSettled graph done [] (work degrees (node ∷ queue))
    → IsSettled graph (done ++ (node ∷ [])) (neighbors graph node) (work degrees queue)
popped-IsSettled graph done queue degrees node u s =
    let fresh : mem node done ≡ false =
      ground (arith, s.once node, mem→count node done, eq_iff node node) in
    record {
      degrees_left = λ x. omega (arith, s.degrees_left x, pending-node graph done node x u fresh);
      at_zero = λ x h. ground (arith, h, s.at_zero x, count-append x done (node ∷ []));
      once = λ x. ground (arith, s.once x, count-append x done (node ∷ []));
    }

-- What is returned: nodes in order, each of them once, and all known ones that no edge from a node
-- left out leads to.
pub IsSorted : Graph → (known xs : List String) → Type 0
IsSorted graph known xs =
    IsOrdered graph [] xs
    × IsOnce xs
    × ((x : String)
        → mem x known ≡ true
        → mem x (Dict.keys graph) ≡ true
        → mem x xs ≡ false
        → IsBlocked graph xs x)

left_out :
    (graph : Graph) (known done : List String) (degrees : Dict ℕ)
    → IsOnce (Dict.keys graph)
    → IsSettled graph done [] (work degrees [])
    → IsKept graph known done (work degrees [])
    → (x : String) → mem x known ≡ true
    → mem x (Dict.keys graph) ≡ true
    → mem x done ≡ false
    → IsBlocked graph done x
unfolding IsKept
left_out graph known done degrees u s kept x i j h =
    let none_done = not_mem→count x done h in
    pending-IsBlocked graph done x u
      (waiting (degree_of degrees x) (s.degrees_left x) (kept x i j) none_done)
  where
    waiting :
        (degree : ℕ)
        → degree ≡ pending graph done x + 0
        → (degree ≡ 0 → 0 < count x done + 0)
        → count x done ≡ 0
        → 0 < pending graph done x
    waiting zero e k c = absurd (omega (arith, k refl, c))
    waiting (suc n) e k c = omega (arith, e)

sort_loop-IsSorted :
    (fuel : ℕ) (graph : Graph) (known : List String) (degrees : Dict ℕ)
    (queue done sorted : List String)
    → IsOnce (Dict.keys graph)
    → IsSettled graph done [] (work degrees queue)
    → IsOrdered graph [] done
    → IsKept graph known done (work degrees queue)
    → sort_loop fuel graph known degrees queue done ≡ some sorted
    → IsSorted graph known sorted
unfolding sort_loop IsSorted IsOnce
sort_loop-IsSorted fuel graph known degrees [] done sorted u s o k h =
    subst (IsSorted graph known) {x = done} {y = sorted} (ground (arith, h))
      (o, (λ x. ground (arith, s.once x)), left_out graph known done degrees u s k)
sort_loop-IsSorted zero graph known degrees (node ∷ queue) done sorted u s o k h = absurd (cc)
sort_loop-IsSorted (suc fuel) graph known degrees (node ∷ queue) done sorted u s o k h =
    let w = relax known (neighbors graph node) (work degrees queue) in
    sort_loop-IsSorted fuel graph known w.degrees w.queue (done ++ (node ∷ [])) sorted u
      (relax-IsSettled graph known (done ++ (node ∷ [])) (neighbors graph node) (work degrees queue)
        (popped-IsSettled graph done queue degrees node u s))
      (next-IsOrdered graph [] done node o (queued-AllBefore graph done queue degrees node s))
      (relax-IsKept graph known (done ++ (node ∷ [])) (neighbors graph node) (work degrees queue)
        (popped-IsKept graph known done queue degrees node k))
      h

start-IsSettled :
    (graph : Graph) (known : List String)
    → IsOnce (Dict.keys graph)
    → IsSettled graph [] [] (work (in_degrees graph) (roots known (in_degrees graph)))
unfolding IsOnce
start-IsSettled graph known u =
    let once = in_degrees-IsOnce graph u in
    record {
      degrees_left = λ x. omega (arith, degree_of-in_degrees graph x);
      at_zero = λ x h. degree_of-roots known (in_degrees graph) x once (omega (arith, h));
      once = λ x. omega (arith, once x, count-roots known (in_degrees graph) x);
    }

start-IsKept :
    (graph : Graph) (known : List String)
    → IsKept graph known [] (work (in_degrees graph) (roots known (in_degrees graph)))
unfolding IsKept
start-IsKept graph known x i j z =
    omega (arith, roots-count known (in_degrees graph) x i (mem-in_degrees graph x j) z)

topological_sort-IsSorted :
    (graph : Graph) (known : List String)
    → IsOnce (Dict.keys graph)
    → (sorted : List String) × (topological_sort graph known ≡ some sorted)
      × IsSorted graph known sorted
unfolding topological_sort IsOrdered
topological_sort-IsSorted graph known u =
    let degrees = in_degrees graph in
    let queue = roots known degrees in
    let (sorted, ended) =
      sort_loop-ends (length queue + total degrees) graph known degrees queue [] (omega arith) in
    (
      sorted,
      ended,
      sort_loop-IsSorted (length queue + total degrees) graph known degrees queue [] sorted u
          (start-IsSettled graph known u) tt (start-IsKept graph known) ended,
    )

with_nodes-IsOnce :
    (graph : Graph) (ids : List String)
    → IsOnce (Dict.keys graph)
    → IsOnce (Dict.keys (with_nodes graph ids))
unfolding with_nodes with_node
with_nodes-IsOnce graph [] h = h
with_nodes-IsOnce graph (id ∷ ids) h =
    with_nodes-IsOnce (with_node graph id) ids (put-IsOnce graph id (neighbors graph id) h)

with_edges-IsOnce :
    (graph : Graph) (id : String) (ds : List String)
    → IsOnce (Dict.keys graph)
    → IsOnce (Dict.keys (with_edges graph id ds))
unfolding with_edges
with_edges-IsOnce graph id [] h = h
with_edges-IsOnce graph id (d ∷ ds) h =
    with_edges-IsOnce (Dict.put graph d (add_member id (neighbors graph d))) id ds
      (put-IsOnce graph d (add_member id (neighbors graph d)) h)

with_changes-IsOnce :
    (graph : Graph) (changes : Dict ChangeInfo)
    → IsOnce (Dict.keys graph)
    → IsOnce (Dict.keys (with_changes graph changes))
unfolding with_changes
with_changes-IsOnce graph [] h = h
with_changes-IsOnce graph ((id, c) ∷ changes) h =
    with_changes-IsOnce (with_edges graph id c.depends_on) changes
      (with_edges-IsOnce graph id c.depends_on h)

nil-IsOnce : IsOnce (Dict.keys {V = List String} [])
unfolding IsOnce Dict.keys
nil-IsOnce x = omega arith

-- `topological_sort` of the graph of any changes ends, and what it returns has each node at most
-- once and after all nodes with an edge to it; a change that it leaves out has an edge from a node
-- that it leaves out as well.
pub topological_sort-build :
    (changes : Dict ChangeInfo)
    → (sorted : List String) × (topological_sort
          (build_dependency_graph changes)
          (Dict.keys changes)
        ≡ some sorted)
      × IsSorted (build_dependency_graph changes) (Dict.keys changes) sorted
unfolding build_dependency_graph
topological_sort-build changes =
    topological_sort-IsSorted (build_dependency_graph changes) (Dict.keys changes) (
      with_changes-IsOnce (with_nodes [] (Dict.keys changes)) changes
        (with_nodes-IsOnce [] (Dict.keys changes) nil-IsOnce))
