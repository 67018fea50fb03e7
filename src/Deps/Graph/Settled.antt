-- ===== src/Deps/Graph/Settled.antt =====
-- What holds between two rounds of `topological_sort` (deps.py).
use cairness.Base.{
  ℕ, zero, suc, ◌+◌, ◌≤◌, ◌<◌, ◌≡◌, refl, ap, arith, String, true, List, [], ◌∷◌, ◌++◌, ◌==◌,
  eq_iff, mem, count, count-append, Bool-cases, inl, inr,
}
use cairness.Base.Dict
use cairness.Base.Dict.{Dict}
use cairness.Deps.Graph.{Graph, degree_of, Work, work, fall, relax}
use cairness.Deps.Graph.Degrees.{degree_of-put, pending}

-- A known node of the graph without a degree is done or queued.
unfoldable pub IsKept : Graph → (known done : List String) → Work → Type 0
IsKept graph known done w =
    (x : String)
    → mem x known ≡ true
    → mem x (Dict.keys graph) ≡ true
    → degree_of w.degrees x ≡ 0
    → 0 < count x done + count x w.queue

fall-IsKept :
    (graph : Graph) (known done : List String) (n : String) (degree : ℕ) (w : Work)
    → IsKept graph known done w
    → IsKept graph known done (fall known n degree w)
unfolding fall IsKept
fall-IsKept graph known done n zero w h x i j z = h x i j z
fall-IsKept graph known done n (suc k) w h x i j z = elim (Bool-cases (n == x)) [
  | inl e ↦ ground (
    arith,
    e,
    i,
    z,
    ap (λ y. mem y known) ((eq_iff n x).0 e),
    degree_of-put w.degrees n k x,
    count-append x w.queue (n ∷ []),
    eq_iff x n,
    eq_iff n x,
  )
  | inr e ↦ ground (
    arith,
    e,
    z,
    h x i j,
    degree_of-put w.degrees n k x,
    count-append x w.queue (n ∷ []),
    eq_iff x n,
    eq_iff n x,
  )
]

pub relax-IsKept :
    (graph : Graph) (known done ns : List String) (w : Work)
    → IsKept graph known done w
    → IsKept graph known done (relax known ns w)
unfolding relax
relax-IsKept graph known done [] w h = h
relax-IsKept graph known done (n ∷ ns) w h =
    relax-IsKept graph known done ns (fall known n (degree_of w.degrees n) w)
      (fall-IsKept graph known done n (degree_of w.degrees n) w h)

pub popped-IsKept :
    (graph : Graph) (known done queue : List String) (degrees : Dict ℕ) (node : String)
    → IsKept graph known done (work degrees (node ∷ queue))
    → IsKept graph known (done ++ (node ∷ [])) (work degrees queue)
unfolding IsKept
popped-IsKept graph known done queue degrees node h x i j z =
    ground (arith, h x i j z, count-append x done (node ∷ []))

-- Between two rounds, with `left` edges of the current node still to be counted down.
pub record IsSettled (graph : Graph) (done left : List String) (w : Work) : Type 0 where
  pub degrees_left : (x : String) → degree_of w.degrees x ≡ pending graph done x + count x left
  pub at_zero : (x : String) → 0 < count x done + count x w.queue → degree_of w.degrees x ≡ 0
  pub once : (x : String) → count x done + count x w.queue ≤ 1

fall-IsSettled :
    (graph : Graph) (known done ns : List String) (n : String) (degree : ℕ) (w : Work)
    → degree_of w.degrees n ≡ degree
    → IsSettled graph done (n ∷ ns) w
    → IsSettled graph done ns (fall known n degree w)
unfolding fall
fall-IsSettled graph known done ns n zero w e s =
    absurd (ground (arith, e, s.degrees_left n, eq_iff n n))
fall-IsSettled graph known done ns n (suc k) w e s = record {
  degrees_left = λ x. elim (Bool-cases (n == x)) [
    | inl i ↦ ground (
      arith,
      e,
      i,
      s.degrees_left x,
      degree_of-put w.degrees n k x,
      ap (degree_of w.degrees) ((eq_iff n x).0 i),
      eq_iff x n,
      eq_iff n x,
    )
    | inr i ↦
        ground (arith, i, s.degrees_left x, degree_of-put w.degrees n k x, eq_iff x n, eq_iff n x)
  ];
  at_zero = λ x h. elim (Bool-cases (n == x)) [
    | inl i ↦ ground (
      arith,
      e,
      i,
      h,
      s.at_zero x,
      degree_of-put w.degrees n k x,
      ap (degree_of w.degrees) ((eq_iff n x).0 i),
    )
    | inr i ↦ ground (
      arith,
      i,
      h,
      s.at_zero x,
      degree_of-put w.degrees n k x,
      count-append x w.queue (n ∷ []),
      eq_iff x n,
      eq_iff n x,
    )
  ];
  once = λ x. elim (Bool-cases (n == x)) [
    | inl i ↦ ground (
      arith,
      e,
      i,
      s.at_zero x,
      ap (degree_of w.degrees) ((eq_iff n x).0 i),
      count-append x w.queue (n ∷ []),
      eq_iff x n,
      eq_iff n x,
    )
    | inr i ↦ ground (arith, i, s.once x, count-append x w.queue (n ∷ []), eq_iff x n, eq_iff n x)
  ];
}

pub relax-IsSettled :
    (graph : Graph) (known done ns : List String) (w : Work)
    → IsSettled graph done ns w
    → IsSettled graph done [] (relax known ns w)
unfolding relax
relax-IsSettled graph known done [] w s = s
relax-IsSettled graph known done (n ∷ ns) w s =
    relax-IsSettled graph known done ns (fall known n (degree_of w.degrees n) w)
      (fall-IsSettled graph known done ns n (degree_of w.degrees n) w refl s)
