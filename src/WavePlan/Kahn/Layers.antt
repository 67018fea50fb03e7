-- ===== src/WavePlan/Kahn/Layers.antt =====
-- What `_layered_kahn` returns.
use cairness.Base.{
  ℕ, zero, suc, ◌+◌, ◌≤◌, ◌<◌, String, ◌≡◌, refl, sym, ap, ◌∙◌, true, false, some, List, [], ◌∷◌,
  ◌++◌, arith, eq_iff, count, mem, length, ◌⊎◌, Bool-cases, List-cases, inl, inr, subst,
  append_assoc, append-nil, length-discard-le, length-discard-lt, concat, not_mem→count, mem→count,
  count→mem,
}
use cairness.Base.Dict
use cairness.Base.Dict.{Dict}
use cairness.Base.Sorting.{count-sorted}
use cairness.WavePlan.Task.{TaskNode, task_ids, UniqueIds}
use cairness.WavePlan.Task.Index.{find, mem-find}
use cairness.WavePlan.Kahn.{
  Loop, dependents, in_degrees, schedule, schedule_all, ready, peel, layered_kahn,
}
use cairness.WavePlan.Kahn.Degrees.{get-in_degrees, keys-in_degrees}
use cairness.WavePlan.Kahn.Rounds.{
  missing, missing-zero, IsPlaced, schedule_all-IsPlaced, ready-missing, missing-ready, ready-le,
}

-- A task of a layer depends only on `placed` and on the layers before its own.
abbrev pub AreLayers : List TaskNode → List String → List (List String) → Type 0
AreLayers tasks placed [] = Unit
AreLayers tasks placed (layer ∷ layers) =
    ((x : String) (t : TaskNode) (d : String)
      → 0 < count x layer
      → find x tasks ≡ some t
      → mem d t.depends_on ≡ true
      → mem d placed ≡ true)
    × AreLayers tasks (placed ++ layer) layers

remaining-schedule_all-le :
    (deps : Dict (List String)) (xs : List String) (s : Loop)
    → length (schedule_all deps xs s).remaining ≤ length s.remaining
unfolding schedule_all schedule
remaining-schedule_all-le deps [] s = omega arith
remaining-schedule_all-le deps (x ∷ xs) s =
    omega (
      arith,
      remaining-schedule_all-le deps xs (schedule deps x s),
      length-discard-le x s.remaining,
    )

-- A round that goes on takes an id away.
remaining-round-lt :
    (deps : Dict (List String)) (x : String) (xs : List String) (s : Loop)
    → 0 < count x s.remaining
    → length (schedule_all deps (x ∷ xs) s).remaining < length s.remaining
unfolding schedule_all schedule
remaining-round-lt deps x xs s h = omega (
  arith,
  remaining-schedule_all-le deps xs (schedule deps x s),
  length-discard-lt x s.remaining h,
)

missing_nil : (deps : List String) → missing [] deps ≡ length deps
unfolding missing
missing_nil [] = refl
missing_nil (d ∷ deps) = omega (arith, missing_nil deps)

missing_witness :
    (placed deps : List String)
    → 0 < missing placed deps
    → (d : String) × (mem d deps ≡ true) × (mem d placed ≡ false)
unfolding missing
missing_witness placed [] h = absurd (omega arith)
missing_witness placed (x ∷ deps) h = elim (Bool-cases (mem x placed)) [
  | inl old ↦
      let (d, here, absent) = missing_witness placed deps (ground arith) in
      (d, ground arith, absent)
  | inr new ↦ (x, ground (arith, eq_iff x x), new)
]

zero-or-pos : (n : ℕ) → (n ≡ 0) ⊎ (0 < n)
zero-or-pos zero = inl refl
zero-or-pos (suc n) = inr (omega arith)

module _ (tasks : List TaskNode) (unique : UniqueIds tasks) where
  abbrev peeled : ℕ → Loop → List (List String) × Loop
  peeled = peel (dependents tasks)

  round-IsPlaced :
      (placed : List String) (s : Loop) (x : String) (xs : List String)
      → ready s ≡ x ∷ xs
      → IsPlaced tasks unique placed s
      → IsPlaced tasks unique (placed ++ x ∷ xs) (schedule_all (dependents tasks) (x ∷ xs) s)
  round-IsPlaced placed s x xs e p =
      schedule_all-IsPlaced tasks unique (x ∷ xs) placed s p
        (λ y. subst (λ l. count y l ≤ count y s.remaining) e (ready-le tasks unique y s))

  peel-IsPlaced :
      (fuel : ℕ) (placed : List String) (s : Loop)
      → IsPlaced tasks unique placed s
      → IsPlaced tasks unique (placed ++ concat (peeled fuel s).0) (peeled fuel s).1
  unfolding peel
  peel-IsPlaced zero placed s p = rw append-nil p
  peel-IsPlaced (suc fuel) placed s p = elim (List-cases (ready s)) [
    | inl e ↦ rw (e, peel) (rw append-nil p)
    | inr (x, xs, e) ↦
        let next = schedule_all (dependents tasks) (x ∷ xs) s in
        let p' = peel-IsPlaced fuel (placed ++ x ∷ xs) next (round-IsPlaced placed s x xs e p) in
        rw (e, peel) (rw append_assoc at p')
  ]

  peel-AreLayers :
      (fuel : ℕ) (placed : List String) (s : Loop)
      → IsPlaced tasks unique placed s
      → AreLayers tasks placed (peeled fuel s).0
  unfolding peel
  peel-AreLayers zero placed s p = tt
  peel-AreLayers (suc fuel) placed s p = elim (List-cases (ready s)) [
    | inl e ↦ rw (e, peel) tt
    | inr (x, xs, e) ↦
        let next = schedule_all (dependents tasks) (x ∷ xs) s in
        rw (e, peel)
          (
            (λ y t d here found dep.
                missing-zero placed t.depends_on d
                  (ready-missing tasks unique placed s y t p
                    (subst (λ l. 0 < count y l) (sym e) here) found)
                  dep),
            peel-AreLayers fuel (placed ++ x ∷ xs) next (round-IsPlaced placed s x xs e p),
          )
  ]

  -- With fuel above the number of ids the loop stops by itself.
  peel_ends : (fuel : ℕ) (s : Loop) → length s.remaining < fuel → ready (peeled fuel s).1 ≡ []
  unfolding peel
  peel_ends zero s h = absurd (omega arith)
  peel_ends (suc fuel) s h = elim (List-cases (ready s)) [
    | inl e ↦ rw (e, peel) e
    | inr (x, xs, e) ↦
        let here : 0 < count x s.remaining =
          ground (arith, ready-le tasks unique x s, ap (count x) e, eq_iff x x) in
        rw (e, peel)
          (peel_ends fuel (schedule_all (dependents tasks) (x ∷ xs) s)
            (omega (arith, remaining-round-lt (dependents tasks) x xs s here)))
  ]

  abbrev start : Loop
  start = record { remaining = Dict.keys (in_degrees tasks); in_degree = in_degrees tasks }

  start-IsPlaced : IsPlaced tasks unique [] start
  start-IsPlaced = record {
    degree =
        λ x t found. ground (arith, get-in_degrees tasks unique x, found, missing_nil t.depends_on);
    parted = λ x. ground (arith, ap (count x) (keys-in_degrees tasks unique));
  }

  abbrev layers : List (List String)
  layers = (layered_kahn tasks).0

  abbrev unscheduled : List String
  unscheduled = (layered_kahn tasks).1

  -- Each id is in the layers or is left over, as often as a task has it.
  pub layered_kahn-count :
      (x : String) → count x (concat layers) + count x unscheduled ≡ count x (task_ids tasks)
  unfolding layered_kahn
  layered_kahn-count x =
      let p = peel-IsPlaced (suc (length tasks)) [] start start-IsPlaced in
      omega (arith, p.parted x, count-sorted x (peeled (suc (length tasks)) start).1.remaining)

  -- The layers are in dependency order.
  pub layered_kahn-AreLayers : AreLayers tasks [] layers
  unfolding layered_kahn
  layered_kahn-AreLayers = peel-AreLayers (suc (length tasks)) [] start start-IsPlaced

  length-task_ids : (ts : List TaskNode) → length (task_ids ts) ≡ length ts
  unfolding task_ids
  length-task_ids [] = refl
  length-task_ids (t ∷ ts) = ap suc (length-task_ids ts)

  -- What is left over misses a dependency.
  pub unscheduled-missing :
      (x : String) (t : TaskNode)
      → 0 < count x unscheduled
      → find x tasks ≡ some t
      → 0 < missing (concat layers) t.depends_on
  unfolding layered_kahn
  unscheduled-missing x t h found =
      let fuel = suc (length tasks) in
      let end = (peeled fuel start).1 in
      let sized : length start.remaining ≡ length tasks =
        ap length (keys-in_degrees tasks unique) ∙ length-task_ids tasks in
      let stopped = peel_ends fuel start (omega (arith, sized)) in
      let p = peel-IsPlaced fuel [] start start-IsPlaced in
      let left : 0 < count x end.remaining = omega (arith, count-sorted x end.remaining) in
      ground (
        arith,
        missing-ready tasks unique (concat (peeled fuel start).0) end x t p left found,
        ap (count x) stopped,
      )

  -- Every dependency is the id of a task, and `rank` falls along dependencies: no cycle.
  pub record IsRanked (rank : String → ℕ) : Type 0 where
    pub known :
        (x : String) (t : TaskNode) (d : String)
        → find x tasks ≡ some t
        → mem d t.depends_on ≡ true
        → mem d (task_ids tasks) ≡ true
    pub falls :
        (x : String) (t : TaskNode) (d : String)
        → find x tasks ≡ some t
        → mem d t.depends_on ≡ true
        → rank d < rank x

  module _ (rank : String → ℕ) (ranked : IsRanked rank) where
    scheduled_below :
        (k : ℕ) (x : String) (t : TaskNode)
        → rank x < k
        → find x tasks ≡ some t
        → count x unscheduled ≡ 0
    scheduled_below zero x t h found = absurd (omega arith)
    scheduled_below (suc k) x t h found = elim (zero-or-pos (count x unscheduled)) [
      | inl none_left ↦ none_left
      | inr left ↦
          let (d, dep, absent) =
            missing_witness (concat layers) t.depends_on (unscheduled-missing x t left found) in
          let (u, here) = mem-find d tasks (ranked.known x t d found dep) in
          absurd (
            omega (
              arith,
              scheduled_below k d u (omega (arith, ranked.falls x t d found dep)) here,
              layered_kahn-count d,
              not_mem→count d (concat layers) absent,
              mem→count d (task_ids tasks) (ranked.known x t d found dep),
            ))
    ]

    -- A graph with known dependencies and no cycle is placed whole.
    pub layered_kahn_complete : unscheduled ≡ []
    layered_kahn_complete = elim (List-cases unscheduled) [
      | inl e ↦ e
      | inr (x, xs, e) ↦
          let left : 0 < count x unscheduled = ground (arith, ap (count x) e, eq_iff x x) in
          let (t, found) =
            mem-find x tasks (count→mem x (task_ids tasks) (omega (arith, layered_kahn-count x))) in
          absurd (omega (arith, scheduled_below (suc (rank x)) x t (omega arith) found))
    ]
