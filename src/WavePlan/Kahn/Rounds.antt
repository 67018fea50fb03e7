-- ===== src/WavePlan/Kahn/Rounds.antt =====
-- The invariant of the loops of `_layered_kahn`: a degree is the number of dependencies that are
-- not placed yet.
use cairness.Base.{
  ℕ, ◌+◌, ◌≤◌, ◌<◌, String, ◌≡◌, ◌∙◌, true, false, some, List, [], ◌∷◌, ◌++◌, arith, eq_iff,
  if◌then◌else◌, count, mem, Bool-cases, inl, inr, count-append, mem-append, append_assoc,
  append-nil, filter_b, count-filter_b, count-discard, mem→count, count→mem,
}
use cairness.Base.Dict
use cairness.Base.Dict.{Dict, on_some}
use cairness.Base.Sorting.{count-sorted}
use cairness.WavePlan.Task.{TaskNode, task_ids, UniqueIds}
use cairness.WavePlan.Task.Index.{find}
use cairness.WavePlan.Kahn.{
  Loop, is_ready, dependents, dependents_of, schedule, schedule_all, ready,
}
use cairness.WavePlan.Kahn.Degrees.{get-release}
use cairness.WavePlan.Kahn.Dependents.{count-dependents_of}

-- How many of `deps` are not in `placed`.
unfoldable pub missing : List String → List String → ℕ
missing placed [] = 0
missing placed (d ∷ deps) = (if mem d placed then 0 else 1) + missing placed deps

missing-place :
    (placed : List String) (x : String) (deps : List String)
    → mem x placed ≡ false
    → missing (placed ++ x ∷ []) deps + count x deps ≡ missing placed deps
unfolding missing
missing-place placed x [] h = omega arith
missing-place placed x (d ∷ deps) h =
    ground
      (arith, missing-place placed x deps h, mem-append d placed (x ∷ []), eq_iff x d, eq_iff d x)

pub missing-zero :
    (placed deps : List String) (d : String)
    → missing placed deps ≡ 0
    → mem d deps ≡ true
    → mem d placed ≡ true
unfolding missing
missing-zero placed [] d h m = cc
missing-zero placed (x ∷ deps) d h m = ground (arith, missing-zero placed deps d, eq_iff d x)

module _ (tasks : List TaskNode) (unique : UniqueIds tasks) where
  pub record IsPlaced (placed : List String) (s : Loop) : Type 0 where
    pub degree :
        (x : String) (t : TaskNode)
        → find x tasks ≡ some t
        → Dict.get s.in_degree x ≡ some (missing placed t.depends_on)
    pub parted : (x : String) → count x placed + count x s.remaining ≡ count x (task_ids tasks)

  schedule-IsPlaced :
      (placed : List String) (x : String) (s : Loop)
      → IsPlaced placed s
      → 0 < count x s.remaining
      → IsPlaced (placed ++ x ∷ []) (schedule (dependents tasks) x s)
  unfolding schedule
  schedule-IsPlaced placed x s p here = record {
    degree = λ y t found. ground (
      arith,
      p.degree y t found,
      get-release (dependents_of (dependents tasks) x) s.in_degree y,
      count-dependents_of tasks x y {t = t} unique known found,
      missing-place placed x t.depends_on fresh,
    );
    parted = λ y. ground (
      arith,
      p.parted y,
      count-append y placed (x ∷ []),
      count-discard x y s.remaining,
      eq_iff x y,
      eq_iff y x,
      unique y,
    );
  }
    where
      known : mem x (task_ids tasks) ≡ true
      known = count→mem x (task_ids tasks) (omega (arith, p.parted x))

      fresh : mem x placed ≡ false
      fresh = elim (Bool-cases (mem x placed)) [
        | inl old ↦ absurd (omega (arith, p.parted x, unique x, mem→count x placed old))
        | inr new ↦ new
      ]

  pub schedule_all-IsPlaced :
      (xs placed : List String) (s : Loop)
      → IsPlaced placed s
      → ((x : String) → count x xs ≤ count x s.remaining)
      → IsPlaced (placed ++ xs) (schedule_all (dependents tasks) xs s)
  unfolding schedule_all
  schedule_all-IsPlaced [] placed s p h = rw append-nil p
  schedule_all-IsPlaced (x ∷ xs) placed s p h =
      let here : 0 < count x s.remaining = ground (arith, h x, eq_iff x x) in
      let next = schedule (dependents tasks) x s in
      let p' = schedule-IsPlaced placed x s p here in
      let shifted = schedule_all-IsPlaced xs (placed ++ x ∷ []) next p' (λ y. ground (
        arith,
        h y,
        p.parted y,
        p'.parted y,
        count-append y placed (x ∷ []),
        unique y,
        eq_iff x y,
        eq_iff y x,
      )) in
      rw append_assoc at shifted

  count-ready :
      (x : String) (s : Loop)
      → count x (ready s) ≡ (if is_ready s.in_degree x then count x s.remaining else 0)
  unfolding ready
  count-ready x s =
      count-sorted x (filter_b (is_ready s.in_degree) s.remaining)
      ∙ count-filter_b (is_ready s.in_degree) x s.remaining

  -- What is ready has all its dependencies placed.
  pub ready-missing :
      (placed : List String) (s : Loop) (x : String) (t : TaskNode)
      → IsPlaced placed s
      → 0 < count x (ready s)
      → find x tasks ≡ some t
      → missing placed t.depends_on ≡ 0
  unfolding is_ready
  ready-missing placed s x t p h found = ground (arith, count-ready x s, p.degree x t found)

  -- A task that remains and misses nothing is ready.
  pub missing-ready :
      (placed : List String) (s : Loop) (x : String) (t : TaskNode)
      → IsPlaced placed s
      → 0 < count x s.remaining
      → find x tasks ≡ some t
      → missing placed t.depends_on ≡ 0
      → 0 < count x (ready s)
  unfolding is_ready
  missing-ready placed s x t p h found none_missing =
      ground (arith, count-ready x s, p.degree x t found)

  pub ready-le : (x : String) (s : Loop) → count x (ready s) ≤ count x s.remaining
  ready-le x s = ground (arith, count-ready x s)
