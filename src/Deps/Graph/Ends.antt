-- ===== src/Deps/Graph/Ends.antt =====
-- The loop of `topological_sort` (deps.py) ends within its fuel.
use cairness.Base.{
  ℕ, zero, suc, ◌+◌, ◌≤◌, ◌≡◌, refl, arith, String, some, List, [], ◌∷◌, ◌++◌, ◌==◌, length,
  length-append, Bool-cases, inl, inr,
}
use cairness.Base.Dict
use cairness.Base.Dict.{Dict}
use cairness.Deps.Graph.{Graph, neighbors, degree_of, Work, work, fall, relax, sort_loop, total}

-- A smaller value at a key makes the total smaller.
total-put :
    (degrees : Dict ℕ) (n : String) (k : ℕ)
    → degree_of degrees n ≡ suc k
    → suc (total (Dict.put degrees n k)) ≡ total degrees
unfolding degree_of total Dict.put Dict.get
total-put [] n k h = absurd (omega (arith, h))
total-put ((j, v) ∷ degrees) n k h = elim (Bool-cases (j == n)) [
  | inl e ↦ ground (arith, e, h)
  | inr e ↦ ground (arith, e, total-put degrees n k (ground (arith, e, h)))
]

-- What is left to do.
left_over : Work → ℕ
left_over w = length w.queue + total w.degrees

fall-le :
    (known : List String) (n : String) (degree : ℕ) (w : Work)
    → degree_of w.degrees n ≡ degree
    → left_over (fall known n degree w) ≤ left_over w
unfolding left_over fall
fall-le known n zero w h = omega arith
fall-le known n (suc k) w h =
    ground (arith, total-put w.degrees n k h, length-append w.queue (n ∷ []))

relax-le : (known ns : List String) (w : Work) → left_over (relax known ns w) ≤ left_over w
unfolding relax
relax-le known [] w = omega arith
relax-le known (n ∷ ns) w = omega (
  arith,
  fall-le known n (degree_of w.degrees n) w refl,
  relax-le known ns (fall known n (degree_of w.degrees n) w),
)

pub sort_loop-ends :
    (fuel : ℕ) (graph : Graph) (known : List String) (degrees : Dict ℕ) (queue result : List String)
    → length queue + total degrees ≤ fuel
    → (sorted : List String) × (sort_loop fuel graph known degrees queue result ≡ some sorted)
unfolding sort_loop left_over
sort_loop-ends fuel graph known degrees [] result h = (result, refl)
sort_loop-ends zero graph known degrees (node ∷ queue) result h = absurd (omega (arith, h))
sort_loop-ends (suc fuel) graph known degrees (node ∷ queue) result h =
    let w = relax known (neighbors graph node) (work degrees queue) in
    sort_loop-ends fuel graph known w.degrees w.queue (result ++ (node ∷ []))
      (omega (arith, h, relax-le known (neighbors graph node) (work degrees queue)))
