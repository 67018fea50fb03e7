-- ===== src/Deps/Graph/Degrees.antt =====
-- The degrees of `topological_sort` (deps.py): how many edges into a node come from nodes that are
-- not sorted yet.
use cairness.Base.{
  ℕ, suc, ◌+◌, ◌≤◌, ◌<◌, ◌≡◌, refl, sym, ap, ◌∙◌, arith, String, true, false, some, List, [], ◌∷◌,
  ◌++◌, ◌==◌, eq_iff, if◌then◌else◌, mem, count, mem-append, not_mem→count, mem→count, Bool-cases,
  inl, inr,
}
use cairness.Base.Dict
use cairness.Base.Dict.{Dict}
use cairness.Deps.Graph.{
  Graph, neighbors, degree_of, zeros, count_up, count_edges, in_degrees, roots,
}

pub degree_of-put :
    (degrees : Dict ℕ) (n : String) (k : ℕ) (x : String)
    → degree_of (Dict.put degrees n k) x ≡ (if n == x then k else degree_of degrees x)
unfolding degree_of
degree_of-put degrees n k x = elim (Bool-cases (n == x)) [
  | inl e ↦ ground (arith, e, Dict.get-put degrees n k x)
  | inr e ↦ ground (arith, e, Dict.get-put degrees n k x)
]

-- The edges into a node from nodes that are not done.
unfoldable pub pending : Graph → (done : List String) → String → ℕ
pending [] done x = 0
pending ((d, ns) ∷ graph) done x = (if mem d done then 0 else count x ns) + pending graph done x

pub pending-edge :
    (graph : Graph) (done : List String) (d x : String) (ns : List String)
    → Dict.get graph d ≡ some ns
    → mem x ns ≡ true
    → mem d done ≡ false
    → 0 < pending graph done x
unfolding pending Dict.get
pending-edge [] done d x ns h i j = absurd (cc)
pending-edge ((e, ms) ∷ graph) done d x ns h i j = elim (Bool-cases (e == d)) [
  | inl same ↦
      let members : ms ≡ ns = ground (arith, same, h) in
      ground (
        arith,
        same,
        j,
        ap (λ y. mem y done) ((eq_iff e d).0 same),
        mem→count x ns i,
        ap (count x) members,
      )
  | inr other ↦ ground (arith, pending-edge graph done d x ns (ground (arith, other, h)) i j)
]

-- Nothing changes for a graph that has not the node.
pending-other :
    (graph : Graph) (done : List String) (node x : String)
    → mem node (Dict.keys graph) ≡ false
    → pending graph (done ++ (node ∷ [])) x ≡ pending graph done x
unfolding pending Dict.keys
pending-other [] done node x h = refl
pending-other ((e, ms) ∷ graph) done node x h = ground (
  arith,
  h,
  mem-append e done (node ∷ []),
  eq_iff e node,
  eq_iff node e,
  pending-other graph done node x,
)

-- Each key once.
unfoldable pub IsOnce : List String → Type 0
IsOnce xs = (x : String) → count x xs ≤ 1

pub later-IsOnce : (y : String) (xs : List String) → IsOnce (y ∷ xs) → IsOnce xs
unfolding IsOnce
later-IsOnce y xs h x = ground (arith, h x)

pub first-IsOnce : (y : String) (xs : List String) → IsOnce (y ∷ xs) → mem y xs ≡ false
unfolding IsOnce
first-IsOnce y xs h = elim (Bool-cases (mem y xs)) [
  | inl e ↦ absurd (ground (arith, h y, mem→count y xs e, eq_iff y y))
  | inr e ↦ e
]

pub pending-node :
    (graph : Graph) (done : List String) (node x : String)
    → IsOnce (Dict.keys graph)
    → mem node done ≡ false
    → pending graph done x ≡ pending graph (done ++ (node ∷ [])) x + count x (neighbors graph node)
unfolding pending Dict.keys neighbors Dict.get
pending-node [] done node x u h = omega arith
pending-node ((e, ms) ∷ graph) done node x u h = elim (Bool-cases (e == node)) [
  | inl same ↦
      let node_too = (eq_iff e node).0 same in
      let gone =
        sym (ap (λ y. mem y (Dict.keys graph)) node_too) ∙ first-IsOnce e (Dict.keys graph) u in
      ground (
        arith,
        same,
        h,
        ap (λ y. mem y done) node_too,
        mem-append e done (node ∷ []),
        pending-other graph done node x gone,
      )
  | inr other ↦ ground (
    arith,
    other,
    mem-append e done (node ∷ []),
    pending-node graph done node x (later-IsOnce e (Dict.keys graph) u) h,
  )
]

degree_of-count_up :
    (ns : List String) (degrees : Dict ℕ) (x : String)
    → degree_of (count_up degrees ns) x ≡ degree_of degrees x + count x ns
unfolding count_up
degree_of-count_up [] degrees x = omega arith
degree_of-count_up (n ∷ ns) degrees x = elim (Bool-cases (n == x)) [
  | inl e ↦ ground (
    arith,
    e,
    eq_iff x n,
    eq_iff n x,
    ap (degree_of degrees) ((eq_iff n x).0 e),
    degree_of-count_up ns (Dict.put degrees n (suc (degree_of degrees n))) x,
    degree_of-put degrees n (suc (degree_of degrees n)) x,
  )
  | inr e ↦ ground (
    arith,
    e,
    eq_iff x n,
    eq_iff n x,
    degree_of-count_up ns (Dict.put degrees n (suc (degree_of degrees n))) x,
    degree_of-put degrees n (suc (degree_of degrees n)) x,
  )
]

degree_of-count_edges :
    (graph : Graph) (degrees : Dict ℕ) (x : String)
    → degree_of (count_edges degrees graph) x ≡ degree_of degrees x + pending graph [] x
unfolding count_edges pending
degree_of-count_edges [] degrees x = omega arith
degree_of-count_edges ((d, ns) ∷ graph) degrees x =
    omega
      (arith, degree_of-count_edges graph (count_up degrees ns) x, degree_of-count_up ns degrees x)

degree_of-zeros : (graph : Graph) (x : String) → degree_of (zeros graph) x ≡ 0
unfolding zeros degree_of Dict.get
degree_of-zeros [] x = refl
degree_of-zeros ((d, ns) ∷ graph) x = ground (arith, degree_of-zeros graph x)

-- At first a degree counts all edges into the node.
pub degree_of-in_degrees :
    (graph : Graph) (x : String) → degree_of (in_degrees graph) x ≡ pending graph [] x
unfolding in_degrees
degree_of-in_degrees graph x =
    omega (arith, degree_of-count_edges graph (zeros graph) x, degree_of-zeros graph x)

pub keys-zeros : (graph : Graph) → Dict.keys (zeros graph) ≡ Dict.keys graph
unfolding zeros Dict.keys
keys-zeros [] = refl
keys-zeros ((d, ns) ∷ graph) = ap (λ ks. d ∷ ks) (keys-zeros graph)

count-keys-put :
    {V : Type 0} (degrees : Dict V) (k : String) (v : V) (x : String)
    → count x (Dict.keys (Dict.put degrees k v))
      ≡ count x (Dict.keys degrees)
        + (if x == k then (if mem k (Dict.keys degrees) then 0 else 1) else 0)
unfolding Dict.keys Dict.put
count-keys-put [] k v x = ground arith
count-keys-put ((j, w) ∷ degrees) k v x =
    ground (arith, eq_iff j k, eq_iff k j, count-keys-put degrees k v x)

pub put-IsOnce :
    {V : Type 0} (degrees : Dict V) (k : String) (v : V)
    → IsOnce (Dict.keys degrees)
    → IsOnce (Dict.keys (Dict.put degrees k v))
unfolding IsOnce
put-IsOnce degrees k v h x = elim (Bool-cases (x == k)) [
  | inl e ↦ ground (
    arith,
    e,
    h x,
    ap (λ y. mem y (Dict.keys degrees)) ((eq_iff x k).0 e),
    count-keys-put degrees k v x,
    not_mem→count x (Dict.keys degrees),
  )
  | inr e ↦ ground (arith, e, h x, count-keys-put degrees k v x)
]

pub mem-put :
    {V : Type 0} (degrees : Dict V) (k : String) (v : V) (x : String)
    → mem x (Dict.keys degrees) ≡ true
    → mem x (Dict.keys (Dict.put degrees k v)) ≡ true
unfolding Dict.keys Dict.put
mem-put [] k v x h = absurd (cc)
mem-put ((j, w) ∷ degrees) k v x h = ground (arith, h, mem-put degrees k v x)

count_up-IsOnce :
    (ns : List String) (degrees : Dict ℕ)
    → IsOnce (Dict.keys degrees)
    → IsOnce (Dict.keys (count_up degrees ns))
unfolding count_up
count_up-IsOnce [] degrees h = h
count_up-IsOnce (n ∷ ns) degrees h =
    count_up-IsOnce ns (Dict.put degrees n (suc (degree_of degrees n)))
      (put-IsOnce degrees n (suc (degree_of degrees n)) h)

count_edges-IsOnce :
    (graph : Graph) (degrees : Dict ℕ)
    → IsOnce (Dict.keys degrees)
    → IsOnce (Dict.keys (count_edges degrees graph))
unfolding count_edges
count_edges-IsOnce [] degrees h = h
count_edges-IsOnce ((d, ns) ∷ graph) degrees h =
    count_edges-IsOnce graph (count_up degrees ns) (count_up-IsOnce ns degrees h)

pub in_degrees-IsOnce :
    (graph : Graph) → IsOnce (Dict.keys graph) → IsOnce (Dict.keys (in_degrees graph))
unfolding in_degrees IsOnce
in_degrees-IsOnce graph h =
    count_edges-IsOnce graph (zeros graph)
      (λ x. ground (arith, h x, ap (count x) (keys-zeros graph)))

-- A root is a key with degree zero.
pub count-roots :
    (known : List String) (degrees : Dict ℕ) (x : String)
    → count x (roots known degrees) ≤ count x (Dict.keys degrees)
unfolding roots Dict.keys
count-roots known [] x = omega arith
count-roots known ((d, n) ∷ degrees) x = ground (arith, count-roots known degrees x)

pub degree_of-roots :
    (known : List String) (degrees : Dict ℕ) (x : String)
    → IsOnce (Dict.keys degrees)
    → 0 < count x (roots known degrees)
    → degree_of degrees x ≡ 0
unfolding roots Dict.keys degree_of Dict.get IsOnce
degree_of-roots known [] x u h = refl
degree_of-roots known ((d, n) ∷ degrees) x u h = elim (Bool-cases (d == x)) [
  | inl e ↦ ground (arith, e, h, u x, eq_iff d x, eq_iff x d, count-roots known degrees x)
  | inr e ↦ ground (
    arith,
    e,
    h,
    eq_iff x d,
    eq_iff d x,
    degree_of-roots known degrees x (λ y. ground (arith, u y)),
  )
]
