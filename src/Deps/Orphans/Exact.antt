-- ===== src/Deps/Orphans/Exact.antt =====
-- Where `detect_orphans` (deps.py) puts each changed path.
use cairness.Base.{
  ℕ, ◌+◌, String, ◌≡◌, ◌↔◌, refl, ap, Bool, true, false, not, ◌&&◌, ◌||◌, List, [], ◌∷◌, ◌==◌,
  if◌then◌else◌, arith, count, mem, Option-cases, Bool-cases, List-cases, inl, inr, eq_iff,
  count-append, is_given,
}
use cairness.Base.Dict.{Dict}
use cairness.Deps.Change.{ChangeInfo}
use cairness.Deps.Orphans.{
  Buckets, OrphanReport, no_files, governance_owner, eligible, declared, is_empty, matches_any,
  owners_of, place_declared, place, place_all, report, detect_orphans,
}

-- One path more, in a list that has the paths with `c`.
one_more :
    (c : String → Bool) (x file : String) (files : List String) (before between after : ℕ)
    → between ≡ before + (if x == file then (if c file then 1 else 0) else 0)
    → after ≡ between + (if c x then count x files else 0)
    → after ≡ before + (if c x then count x (file ∷ files) else 0)
one_more c x file files before between after h k = elim (Bool-cases (x == file)) [
  | inr differ ↦ ground (arith, h, k, differ)
  | inl same ↦ ground (arith, h, k, same, ap c ((eq_iff x file).0 same))
]

zero_plus : (a n : ℕ) → a ≡ 0 + n → a ≡ n
zero_plus a n h = omega (arith, h)

parts :
    (claimed matched : Bool) (n a b c : ℕ)
    → a ≡ 0 + (if claimed then n else 0)
    → b ≡ 0 + (if not claimed && matched then n else 0)
    → c ≡ 0 + (if not claimed && not matched then n else 0)
    → a + b + c ≡ n
parts claimed matched n a b c h k l = ground (arith, h, k, l)

module _ (global_scopes : List String) where
  module _ (changes : Dict ChangeInfo) (all_declared : Dict (List String))
      (scopes : List String) where
    -- A change's directory, a global scope or a change's declaration has the path.
    abbrev pub is_claimed : String → Bool
    is_claimed file =
        is_given (governance_owner changes file)
        || matches_any global_scopes file global_scopes
        || not (is_empty (owners_of global_scopes file all_declared))

    -- Only an exception of the task board has it.
    abbrev pub is_excused : String → Bool
    is_excused file = not (is_claimed file) && matches_any global_scopes file scopes

    abbrev pub is_orphan : String → Bool
    is_orphan file = not (is_claimed file) && not (matches_any global_scopes file scopes)

    -- What a path adds to the count of `x` in the three lists of files.
    abbrev Adds : String → String → Buckets → Buckets → Type 0
    Adds x file b b' =
        (count x b'.matched_files
          ≡ count x b.matched_files + (if x == file then (if is_claimed file then 1 else 0) else 0))
        × (count x b'.intentional_files
            ≡ count x b.intentional_files
              + (if x == file then (if is_excused file then 1 else 0) else 0))
        × (count x b'.orphan_files
            ≡ count x b.orphan_files + (if x == file then (if is_orphan file then 1 else 0) else 0))

    place-Adds :
        (x file : String) (b : Buckets)
        → Adds x file b (place global_scopes changes all_declared scopes file b)
    unfolding place place_declared is_empty
    place-Adds x file b = elim (Option-cases (governance_owner changes file)) [
      | inr (id, found) ↦ ground (arith, found, count-append x b.matched_files (file ∷ []))
      | inl gone ↦ elim (Bool-cases (matches_any global_scopes file global_scopes)) [
        | inl global ↦ ground (arith, gone, global, count-append x b.matched_files (file ∷ []))
        | inr mine ↦ elim (List-cases (owners_of global_scopes file all_declared)) [
          | inr (id, ids, owned) ↦
              ground (arith, gone, mine, owned, count-append x b.matched_files (file ∷ []))
          | inl free ↦ ground (
            arith,
            gone,
            mine,
            free,
            count-append x b.intentional_files (file ∷ []),
            count-append x b.orphan_files (file ∷ []),
          )
        ]
      ]
    ]

    -- The paths of each kind, as often as Git reports them.
    abbrev pub Sorts : List String → Buckets → Buckets → Type 0
    Sorts files b b' =
        (x : String)
        → (count x b'.matched_files
            ≡ count x b.matched_files + (if is_claimed x then count x files else 0))
          × (count x b'.intentional_files
              ≡ count x b.intentional_files + (if is_excused x then count x files else 0))
          × (count x b'.orphan_files
              ≡ count x b.orphan_files + (if is_orphan x then count x files else 0))

    place_all-Sorts :
        (files : List String) (b : Buckets)
        → Sorts files b (place_all global_scopes changes all_declared scopes files b)
    unfolding place_all
    place_all-Sorts [] b x = ground arith
    place_all-Sorts (file ∷ files) b x =
        let b' = place global_scopes changes all_declared scopes file b in
        let added = place-Adds x file b in
        let rest = place_all-Sorts files b' x in
        let last = place_all global_scopes changes all_declared scopes files b' in
        (
          one_more is_claimed x file files (count x b.matched_files) (count x b'.matched_files)
              (count x last.matched_files) added.0 rest.0,
          one_more is_excused x file files (count x b.intentional_files)
              (count x b'.intentional_files) (count x last.intentional_files) added.1 rest.1,
          one_more is_orphan x file files (count x b.orphan_files) (count x b'.orphan_files)
              (count x last.orphan_files) added.2 rest.2,
        )

    -- From the same buckets on, the three lists together have every path as often as Git does.
    no_file_lost :
        (files : List String) (b : Buckets) (x : String)
        → Sorts files no_files b
        → count x b.matched_files + count x b.intentional_files + count x b.orphan_files
          ≡ count x files
    no_file_lost files b x h =
        let claimed = is_claimed x in
        let matched = matches_any global_scopes x scopes in
        parts claimed matched (count x files) (count x b.matched_files)
          (count x b.intentional_files) (count x b.orphan_files) (h x).0 (h x).1 (h x).2

  -- What a report shows about the changed paths.
  pub record IsSorted (changes : Dict ChangeInfo) (scopes git_files : List String)
      (r : OrphanReport) : Type 0 where
    pub complete :
        (x : String)
        → count x r.buckets.matched_files
            + count x r.buckets.intentional_files
            + count x r.buckets.orphan_files
          ≡ count x git_files
    pub orphans :
        (x : String)
        → count x r.buckets.orphan_files ≡ (
            if is_orphan changes (declared (eligible git_files changes)) scopes x
            then count x git_files
            else 0)
    pub found : (r.has_orphans ≡ true) ↔ ((x : String) × (mem x r.buckets.orphan_files ≡ true))

  has_member : (xs : List String) → (not (is_empty xs) ≡ true) ↔ ((x : String) × (mem x xs ≡ true))
  unfolding is_empty
  has_member [] = ((λ h. absurd (cc)), (λ h. absurd (cc (h.1))))
  has_member (y ∷ ys) = ((λ h. (y, ground (arith, eq_iff y y))), (λ h. refl))

  report-IsSorted :
      (changes : Dict ChangeInfo) (scopes git_files : List String) (no_source : Bool) (b : Buckets)
      → Sorts changes (declared (eligible git_files changes)) scopes git_files no_files b
      → IsSorted changes scopes git_files
          (report global_scopes changes scopes git_files no_source b)
  unfolding report
  report-IsSorted changes scopes git_files no_source b h = record {
    complete =
        λ x. no_file_lost changes (declared (eligible git_files changes)) scopes git_files b x h;
    orphans = λ x. zero_plus (count x b.orphan_files) _ (h x).2;
    found = has_member b.orphan_files;
  }

  -- If there is a change or an exception of the task board: every changed path is in one of the
  -- three lists, as often as Git reports it; the orphans are those that no change's directory, no
  -- global scope, no declaration of an eligible change and no exception has; and the report says
  -- that there are orphans exactly when its list has one.
  pub detect_orphans-IsSorted :
      (changes : Dict ChangeInfo) (scopes git_files : List String)
      → (is_empty changes && is_empty scopes) ≡ false
      → IsSorted changes scopes git_files (detect_orphans global_scopes changes scopes git_files)
  unfolding detect_orphans is_empty
  detect_orphans-IsSorted changes scopes [] some_source =
      report-IsSorted changes scopes [] false no_files (λ x. ground arith)
  detect_orphans-IsSorted changes scopes (f ∷ fs) some_source =
      let all_declared = declared (eligible (f ∷ fs) changes) in
      rw some_source (
        report-IsSorted changes scopes (f ∷ fs) false
          (place_all global_scopes changes all_declared scopes (f ∷ fs) no_files)
          (place_all-Sorts changes all_declared scopes (f ∷ fs) no_files))
