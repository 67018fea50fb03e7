-- ===== src/TestPolicy/Select/FailClosed.antt =====
-- `select_tests` (test_policy.py) never leaves a changed path without its tests.
use cairness.Base.{
  String, ◌≡◌, ◌⊎◌, refl, ap, sym, ◌∙◌, subst, true, false, some, List, [], ◌∷◌, ◌++◌, ◌==◌, eq_iff,
  if◌then◌else◌, mem, mem-append, mem-filter_b, mem-distinct, filter_b, distinct, join_texts, arith,
  Option-cases, Bool-cases, inl, inr,
}
use cairness.Base.Dict
use cairness.Base.Dict.{Dict, mem-keys-put}
use cairness.Base.Sorting.{sorted, mem-sorted}
use cairness.TestPolicy.Stem.{is_related, is_documentation}
use cairness.TestPolicy.Select.{
  Rule, Policy, normal, Selection, Verdict, changed_test, global_path, documentation, unmatched,
  routed, related, add_reason, add_all, select_all, Scan, is_global, scanned, is_stop, selected_by,
  missed_by, matches_any, rules_for, expand, by_name, by_rules, verdict, scan, select_keys,
  after_scan, select_changed, select_tests,
}
use cairness.TestPolicy.Select.Covered.{Covers, IsCovered, Covers-IsCovered}

keys-add_reason :
    (reason test x : String) (selected : Dict (List String))
    → mem x (Dict.keys (add_reason reason test selected))
      ≡ (if x == test then true else mem x (Dict.keys selected))
unfolding add_reason
keys-add_reason reason test x selected = elim (Option-cases (Dict.get selected test)) [
  | inl gone ↦ ground (arith, gone, mem-keys-put x selected test (reason ∷ []))
  | inr (rs, found) ↦
      rw (found, add_reason)
        (mem-keys-put x selected test (if mem reason rs then rs else reason ∷ rs))
]

keys-add_all :
    (reason x : String) (ts : List String) (selected : Dict (List String))
    → mem x (Dict.keys (add_all reason ts selected))
      ≡ (if mem x ts then true else mem x (Dict.keys selected))
unfolding add_all
keys-add_all reason x [] selected = ground arith
keys-add_all reason x (t ∷ ts) selected = ground (
  arith,
  keys-add_all reason x ts (add_reason reason t selected),
  keys-add_reason reason t x selected,
)

abbrev Within : List String → List String → Type 0
Within xs ys = (x : String) → mem x xs ≡ true → mem x ys ≡ true

Covers-mono :
    (tests tests' : List String) (v : Verdict) (path : String)
    → Within tests tests'
    → Covers tests v path
    → Covers tests' v path
Covers-mono tests tests' changed_test path w c = w path c
Covers-mono tests tests' (routed ts) path w c = λ t m. w t (c t m)
Covers-mono tests tests' (related ts) path w c = λ t m. w t (c t m)
Covers-mono tests tests' documentation path w c = tt
Covers-mono tests tests' global_path path w c = c
Covers-mono tests tests' unmatched path w c = c

keys-selected_by :
    (v : Verdict) (path : String) (selected : Dict (List String))
    → Within (Dict.keys selected) (Dict.keys (selected_by v path selected))
unfolding selected_by
keys-selected_by changed_test path selected x m =
    ground (arith, keys-add_reason "changed-test" path x selected, m)
keys-selected_by (routed ts) path selected x m = ground (arith, keys-add_all path x ts selected, m)
keys-selected_by (related ts) path selected x m =
    ground (arith, keys-add_all (join_texts "stem:" path) x ts selected, m)
keys-selected_by documentation path selected x m = m
keys-selected_by global_path path selected x m = m
keys-selected_by unmatched path selected x m = m

append-not-nil : (missed : List String) (path : String) → missed ++ path ∷ [] ≡ [] → ⊥
append-not-nil [] path e = absurd (cc)
append-not-nil (x ∷ xs) path e = absurd (cc)

selected_by-Covers :
    (v : Verdict) (path : String) (selected : Dict (List String)) (missed : List String)
    → is_stop v ≡ false
    → missed_by v path missed ≡ []
    → (missed ≡ []) × Covers (Dict.keys (selected_by v path selected)) v path
unfolding selected_by missed_by
selected_by-Covers changed_test path selected missed s e =
    (e, ground (arith, keys-add_reason "changed-test" path path selected, eq_iff path path))
selected_by-Covers (routed ts) path selected missed s e =
    (e, λ t m. ground (arith, keys-add_all path t ts selected, m))
selected_by-Covers (related ts) path selected missed s e =
    (e, λ t m. ground (arith, keys-add_all (join_texts "stem:" path) t ts selected, m))
selected_by-Covers documentation path selected missed s e = (e, tt)
selected_by-Covers global_path path selected missed s e = absurd (cc)
selected_by-Covers unmatched path selected missed s e = absurd (append-not-nil missed path e)

module _ (policy : Policy) (discovered : List String) where
  scan-Covers :
      (paths : List String) (selected last : Dict (List String)) (missed : List String)
      → scan policy discovered paths selected missed ≡ scanned last []
      → (missed ≡ [])
        × Within (Dict.keys selected) (Dict.keys last)
        × ((path : String)
            → mem path paths ≡ true
            → Covers (Dict.keys last) (verdict policy discovered path) path)
  unfolding scan
  scan-Covers [] selected last missed h = (
    ground (arith, h),
    (λ x m.
        subst (λ d. mem x (Dict.keys d) ≡ true) {x = selected} {y = last} (ground (arith, h)) m),
    (λ path m. absurd (cc)),
  )
  scan-Covers (path ∷ paths) selected last missed h =
      let v = verdict policy discovered path in
      elim (Bool-cases (is_stop v)) [
        | inl stops ↦ absurd (ground (arith, h, stops))
        | inr goes ↦
            let (none_missed, kept, covered) =
              scan-Covers paths (selected_by v path selected) last (missed_by v path missed)
                (ground (arith, h, goes)) in
            let (before, here) = selected_by-Covers v path selected missed goes none_missed in
            (
              before,
              (λ x m. kept x (keys-selected_by v path selected x m)),
              (λ x m. elim (Bool-cases (x == path)) [
                | inl same ↦
                    subst (λ y. Covers (Dict.keys last) (verdict policy discovered y) y)
                      (sym ((eq_iff x path).0 same))
                      (Covers-mono (Dict.keys (selected_by v path selected)) (Dict.keys last) v path
                        kept here)
                | inr differ ↦ covered x (ground (arith, m, differ))
              ]),
            )
      ]

  -- The tests of a verdict were discovered.
  abbrev AreDiscovered : Verdict → String → Type 0
  AreDiscovered changed_test path = mem path discovered ≡ true
  AreDiscovered (routed ts) path = Within ts discovered
  AreDiscovered (related ts) path = Within ts discovered
  AreDiscovered _ path = Unit

  expand-discovered : (rs : List Rule) → Within (expand discovered rs) discovered
  unfolding expand
  expand-discovered [] x m = absurd (cc)
  expand-discovered (r ∷ rs) x m = ground (
    arith,
    m,
    expand-discovered rs x,
    mem-append x (filter_b (matches_any r.tests) (sorted discovered)) (expand discovered rs),
    mem-filter_b (matches_any r.tests) x (sorted discovered),
    mem-sorted x discovered,
  )

  by_name-AreDiscovered : (path : String) → AreDiscovered (by_name discovered path) path
  unfolding by_name
  by_name-AreDiscovered path = go (filter_b (is_related path) discovered) refl
    where
      go :
          (l : List String)
          → filter_b (is_related path) discovered ≡ l
          → AreDiscovered
              (elim l [
                | t ∷ ts ↦ related (t ∷ ts)
                | [] ↦ if is_documentation path then documentation else unmatched
              ])
              path
      go [] e = elim (Bool-cases (is_documentation path)) [ inl d ↦ rw d tt | inr d ↦ rw d tt ]
      go (t ∷ ts) e =
          λ x m. ground (arith, mem-filter_b (is_related path) x discovered, ap (mem x) e, m)

  by_rules-AreDiscovered :
      (path : String) (rs : List Rule) → AreDiscovered (by_rules discovered path rs) path
  unfolding by_rules
  by_rules-AreDiscovered path [] = by_name-AreDiscovered path
  by_rules-AreDiscovered path (r ∷ rs) = expand-discovered (r ∷ rs)

  verdict-AreDiscovered : (path : String) → AreDiscovered (verdict policy discovered path) path
  unfolding verdict
  verdict-AreDiscovered path = elim (Bool-cases (mem path discovered)) [
    | inl here ↦ rw (here, AreDiscovered) here
    | inr gone ↦ elim (Bool-cases (matches_any policy.global_paths path)) [
      | inl global ↦ rw (gone, global) tt
      | inr other ↦
          rw (gone, other) (by_rules-AreDiscovered path (rules_for path policy.routing_rules))
    ]
  ]

  -- Either the fallback takes every discovered test, or each changed path is covered.
  abbrev pub IsFailClosed : List String → Selection → Type 0
  IsFailClosed changed sel =
      ((sel.fallback_full ≡ true) × ((t : String) → mem t sel.tests ≡ mem t discovered))
      ⊎ ((path : String) → mem path changed ≡ true → IsCovered policy discovered sel.tests path)

  selected_and_discovered :
      (keys : List String) (v : Verdict) (path : String)
      → Covers keys v path
      → AreDiscovered v path
      → Covers (sorted (filter_b (λ t. mem t discovered) keys)) v path
  selected_and_discovered keys v path c d = both v c d
    where
      kept :
          (x : String)
          → mem x keys ≡ true
          → mem x discovered ≡ true
          → mem x (sorted (filter_b (λ t. mem t discovered) keys)) ≡ true
      kept x k e =
          mem-sorted x (filter_b (λ t. mem t discovered) keys)
          ∙ ground (arith, mem-filter_b (λ t. mem t discovered) x keys, k, e)

      both :
          (v : Verdict)
          → Covers keys v path
          → AreDiscovered v path
          → Covers (sorted (filter_b (λ t. mem t discovered) keys)) v path
      both changed_test c d = kept path c d
      both (routed ts) c d = λ t m. kept t (c t m) (d t m)
      both (related ts) c d = λ t m. kept t (c t m) (d t m)
      both documentation c d = tt
      both global_path c d = c
      both unmatched c d = c

  select_changed-IsFailClosed :
      (changed : List String) → IsFailClosed changed (select_changed policy discovered changed)
  unfolding select_changed after_scan select_all select_keys
  select_changed-IsFailClosed changed =
      go (scan policy discovered (sorted (distinct changed)) [] []) refl
    where
      go :
          (r : Scan)
          → scan policy discovered (sorted (distinct changed)) [] [] ≡ r
          → IsFailClosed changed (after_scan discovered r)
      go (is_global reason) e = inl (refl, λ t. mem-sorted t discovered)
      go (scanned last (u ∷ us)) e = inl (refl, λ t. mem-sorted t discovered)
      go (scanned last []) e =
          let (_, _, covered) = scan-Covers (sorted (distinct changed)) [] last [] e in
          inr (λ path m.
            Covers-IsCovered policy discovered
              (sorted (filter_b (λ t. mem t discovered) (Dict.keys last))) path
              (selected_and_discovered (Dict.keys last) (verdict policy discovered path) path
                (covered path (mem-sorted path (distinct changed) ∙ mem-distinct path changed ∙ m))
                (verdict-AreDiscovered path)))

  -- A normal selection fails closed: either it falls back to every discovered test, or each changed
  -- path that is a test is selected, no other one matches a global path of the policy, each that
  -- the sources of rules match has all discovered tests of those rules selected, each other one has
  -- all discovered tests of its name selected, and if there are none, is below `cairn-core/docs/`.
  pub select_tests-IsFailClosed :
      (changed : List String) (sel : Selection)
      → select_tests policy discovered changed normal ≡ some sel
      → IsFailClosed changed sel
  unfolding select_tests
  select_tests-IsFailClosed changed sel h =
      subst (IsFailClosed changed) {x = select_changed policy discovered changed} {y = sel}
        (ground (arith, h)) (select_changed-IsFailClosed changed)
