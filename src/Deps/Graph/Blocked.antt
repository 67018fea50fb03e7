-- ===== src/Deps/Graph/Blocked.antt =====
-- The nodes that `topological_sort` (deps.py) starts from, and those that it leaves out.
use cairness.Base.{
  ℕ, suc, ◌<◌, ◌≡◌, ap, ◌∙◌, arith, String, true, false, some, List, [], ◌∷◌, ◌==◌, eq_iff, mem,
  count, not_mem→count, Bool-cases, inl, inr,
}
use cairness.Base.Dict
use cairness.Base.Dict.{Dict}
use cairness.Deps.Graph.{Graph, degree_of, zeros, count_up, count_edges, in_degrees, roots}
use cairness.Deps.Graph.Degrees.{pending, IsOnce, later-IsOnce, first-IsOnce, keys-zeros, mem-put}

-- The degrees have the nodes of the graph.
mem-count_up :
    (ns : List String) (degrees : Dict ℕ) (x : String)
    → mem x (Dict.keys degrees) ≡ true
    → mem x (Dict.keys (count_up degrees ns)) ≡ true
unfolding count_up
mem-count_up [] degrees x h = h
mem-count_up (n ∷ ns) degrees x h =
    mem-count_up ns (Dict.put degrees n (suc (degree_of degrees n))) x
      (mem-put degrees n (suc (degree_of degrees n)) x h)

mem-count_edges :
    (graph : Graph) (degrees : Dict ℕ) (x : String)
    → mem x (Dict.keys degrees) ≡ true
    → mem x (Dict.keys (count_edges degrees graph)) ≡ true
unfolding count_edges
mem-count_edges [] degrees x h = h
mem-count_edges ((d, ns) ∷ graph) degrees x h =
    mem-count_edges graph (count_up degrees ns) x (mem-count_up ns degrees x h)

pub mem-in_degrees :
    (graph : Graph) (x : String)
    → mem x (Dict.keys graph) ≡ true
    → mem x (Dict.keys (in_degrees graph)) ≡ true
unfolding in_degrees
mem-in_degrees graph x h = mem-count_edges graph (zeros graph) x (ap (mem x) (keys-zeros graph) ∙ h)

-- Every known node with degree zero is a root.
pub roots-count :
    (known : List String) (degrees : Dict ℕ) (x : String)
    → mem x known ≡ true
    → mem x (Dict.keys degrees) ≡ true
    → degree_of degrees x ≡ 0
    → 0 < count x (roots known degrees)
unfolding roots Dict.keys degree_of Dict.get
roots-count known [] x k h z = absurd (cc)
roots-count known ((d, n) ∷ degrees) x k h z = elim (Bool-cases (d == x)) [
  | inl e ↦
      ground (arith, e, z, k, ap (λ y. mem y known) ((eq_iff d x).0 e), eq_iff d x, eq_iff x d)
  | inr e ↦ ground (arith, e, h, eq_iff x d, eq_iff d x, roots-count known degrees x k, z)
]

-- A node that is left out for an edge from another one.
pub IsBlocked : Graph → (done : List String) → String → Type 0
IsBlocked graph done x =
    (d : String) × (ns : List String) × (Dict.get graph d ≡ some ns)
    × (mem x ns ≡ true)
    × (mem d done ≡ false)

pub pending-IsBlocked :
    (graph : Graph) (done : List String) (x : String)
    → IsOnce (Dict.keys graph)
    → 0 < pending graph done x
    → IsBlocked graph done x
unfolding pending IsBlocked Dict.get Dict.keys
pending-IsBlocked [] done x u h = absurd (omega (arith, h))
pending-IsBlocked ((d, ns) ∷ graph) done x u h = elim (Bool-cases (mem d done)) [
  | inl e ↦
      later
        (pending-IsBlocked graph done x (later-IsOnce d (Dict.keys graph) u) (ground (arith, h, e)))
  | inr e ↦ elim (Bool-cases (mem x ns)) [
    | inl m ↦ (d, ns, ground (arith, eq_iff d d), m, e)
    | inr m ↦ later (
        pending-IsBlocked graph done x (later-IsOnce d (Dict.keys graph) u)
          (ground (arith, h, e, not_mem→count x ns m)))
  ]
]
  where
    later : IsBlocked graph done x → IsBlocked ((d, ns) ∷ graph) done x
    later (c, ms, found, m, free) = elim (Bool-cases (d == c)) [
      | inl e ↦
          let here = Dict.get→count-keys c ms graph found in
          let gone = not_mem→count d (Dict.keys graph) (first-IsOnce d (Dict.keys graph) u) in
          absurd (omega (arith, here, gone, ap (λ y. count y (Dict.keys graph)) ((eq_iff d c).0 e)))
      | inr e ↦ (c, ms, ground (arith, e, found), m, free)
    ]
