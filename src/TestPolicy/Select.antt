-- ===== src/TestPolicy/Select.antt =====
-- `select_tests` (test_policy.py), with the policy and the discovered test files given.
pub mod Covered
pub mod FailClosed
mod Tests
use cairness.Base.{
  ℕ, String, Bool, true, false, not, ◌&&◌, ◌||◌, Option, none, some, List, [], ◌∷◌, ◌++◌, ◌==◌,
  if◌then◌else◌, mem, filter_b, length, distinct, join_texts, codes, equal_codes, eqb,
}
use cairness.Base.Dict
use cairness.Base.Dict.{Dict}
use cairness.Base.Sorting.{sorted}
use cairness.Scopes.Glob.{fnmatchcase}
use cairness.TestPolicy.Stem.{is_related, is_documentation}

pub record Rule : Type 0 where
  pub sources : List String
  pub tests : List String

-- The layers, the tests outside the layers' directories with their rules, the attributes, and what
-- routes a changed path.
pub record Policy : Type 0 where
  pub layers : List String
  pub legacy_files : List String
  pub legacy_rules : Dict (List String)
  pub attributes : Dict (List String)
  pub global_paths : List String
  pub routing_rules : List Rule

pub data Mode : Type 0 where
  normal ci optimize full : Mode
  unknown : String → Mode

pub data SelectionMode : Type 0 where
  all_tests chosen no_tests : SelectionMode

-- `reasons` of a chosen test: what selected it.
pub record Selection : Type 0 where
  pub mode : SelectionMode
  pub tests : List String
  pub reasons : Dict (List String)
  pub fallback_full : Bool
  pub unmatched_sources : List String
  pub total_tests : ℕ

-- What is to be done for a changed path.
pub data Verdict : Type 0 where
  changed_test global_path documentation unmatched : Verdict
  routed : (tests : List String) → Verdict
  related : (tests : List String) → Verdict

-- `selected.setdefault(test, set()).add(reason)`
unfoldable pub add_reason : String → String → Dict (List String) → Dict (List String)
add_reason reason test selected = elim (Dict.get selected test) [
  | none ↦ Dict.put selected test (reason ∷ [])
  | some rs ↦ Dict.put selected test (if mem reason rs then rs else reason ∷ rs)
]

unfoldable pub add_all : String → List String → Dict (List String) → Dict (List String)
add_all reason [] selected = selected
add_all reason (t ∷ ts) selected = add_all reason ts (add_reason reason t selected)

-- One reason for every test.
for_all : String → List String → Dict (List String)
for_all reason [] = []
for_all reason (t ∷ ts) = (t, reason ∷ []) ∷ for_all reason ts

unfoldable pub select_all : String → Bool → List String → List String → Selection
unfolding for_all
select_all reason fallback unmatched_sources discovered = record {
  mode = all_tests;
  tests = sorted discovered;
  reasons = for_all reason (sorted discovered);
  fallback_full = fallback;
  unmatched_sources = unmatched_sources;
  total_tests = length discovered;
}

-- The reasons of the selected tests, sorted.
unfoldable pub reasons_for : Dict (List String) → List String → Dict (List String)
reasons_for selected [] = []
reasons_for selected (t ∷ ts) =
    (t, elim (Dict.get selected t) [ none ↦ [] | some rs ↦ sorted rs ]) ∷ reasons_for selected ts

-- The loop over the changed paths: it stops at a global path.
pub data Scan : Type 0 where
  is_global : (reason : String) → Scan
  scanned : (selected : Dict (List String)) (unmatched : List String) → Scan

abbrev pub is_stop : Verdict → Bool
is_stop global_path = true
is_stop _ = false

-- What the path adds to `selected` and to `unmatched`.
unfoldable pub selected_by : Verdict → String → Dict (List String) → Dict (List String)
selected_by changed_test path selected = add_reason "changed-test" path selected
selected_by (routed ts) path selected = add_all path ts selected
selected_by (related ts) path selected = add_all (join_texts "stem:" path) ts selected
selected_by _ path selected = selected

unfoldable pub missed_by : Verdict → String → List String → List String
missed_by unmatched path missed = missed ++ path ∷ []
missed_by _ path missed = missed

-- `pattern.replace("\\", "/")`
unfoldable pub forward_slashes : List ℕ → List ℕ
forward_slashes [] = []
forward_slashes (c ∷ cs) = (if eqb c b'\\' then b'/' else c) ∷ forward_slashes cs

-- `_matches`
unfoldable pub matches_pattern : (pattern path : String) → Bool
unfolding codes forward_slashes equal_codes fnmatchcase
matches_pattern pattern path =
    let normalized = forward_slashes (codes pattern) in
    equal_codes (codes path) normalized || fnmatchcase (codes path) normalized

-- `_matches`, any of the patterns
unfoldable pub matches_any : List String → String → Bool
unfolding matches_pattern
matches_any [] path = false
matches_any (p ∷ ps) path = matches_pattern p path || matches_any ps path

-- The rules of which a source has the path.
unfoldable pub rules_for : String → List Rule → List Rule
rules_for path [] = []
rules_for path (r ∷ rs) =
    let rest = rules_for path rs in if matches_any r.sources path then r ∷ rest else rest

-- `_expand_test_patterns`, for one rule after the other
unfoldable pub expand : List String → List Rule → List String
expand discovered [] = []
expand discovered (r ∷ rs) =
    filter_b (matches_any r.tests) (sorted discovered) ++ expand discovered rs

-- When no rule has the path.
unfoldable pub by_name : List String → String → Verdict
by_name discovered path = elim (filter_b (is_related path) discovered) [
  | t ∷ ts ↦ related (t ∷ ts)
  | [] ↦ if is_documentation path then documentation else unmatched
]

unfoldable pub by_rules : List String → String → List Rule → Verdict
by_rules discovered path [] = by_name discovered path
by_rules discovered path (r ∷ rs) = routed (expand discovered (r ∷ rs))

-- The body of `for relative in changed_rel`, as far as it decides.
unfoldable pub verdict : Policy → List String → String → Verdict
verdict policy discovered path =
    if mem path discovered
    then changed_test
    else if matches_any policy.global_paths path
    then global_path
    else by_rules discovered path (rules_for path policy.routing_rules)

unfoldable pub scan : Policy → List String → List String → Dict (List String) → List String → Scan
scan policy discovered [] selected missed = scanned selected missed
scan policy discovered (path ∷ paths) selected missed =
    let v = verdict policy discovered path in
    let rest =
      scan policy discovered paths (selected_by v path selected) (missed_by v path missed) in
    if is_stop v then is_global (join_texts "global:" path) else rest

-- Keys of `selected` that were discovered, in order.
unfoldable pub select_keys : List String → Dict (List String) → Selection
select_keys discovered selected =
    let tests = sorted (filter_b (λ t. mem t discovered) (Dict.keys selected)) in
    record {
      mode = elim tests [ [] ↦ no_tests | _ ∷ _ ↦ chosen ];
      tests = tests;
      reasons = reasons_for selected tests;
      fallback_full = false;
      unmatched_sources = [];
      total_tests = length discovered;
    }

unfoldable pub after_scan : List String → Scan → Selection
after_scan discovered (is_global reason) = select_all reason true [] discovered
after_scan discovered (scanned selected []) = select_keys discovered selected
after_scan discovered (scanned selected (u ∷ us)) =
    select_all "fallback:unknown-source" true (u ∷ us) discovered

-- With no changed path the selection is empty.
unfoldable pub select_changed : Policy → List String → List String → Selection
select_changed policy discovered changed =
    after_scan discovered (scan policy discovered (sorted (distinct changed)) [] [])

-- Nothing for `TestPolicyError`.
unfoldable pub select_tests : Policy → List String → List String → Mode → Option Selection
select_tests policy discovered changed (unknown m) = none
select_tests policy discovered changed ci = some (select_all "mode:ci" false [] discovered)
select_tests policy discovered changed optimize =
    some (select_all "mode:optimize" false [] discovered)
select_tests policy discovered changed full = some (select_all "mode:full" false [] discovered)
select_tests policy discovered changed normal = some (select_changed policy discovered changed)
