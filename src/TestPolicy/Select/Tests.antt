-- ===== src/TestPolicy/Select/Tests.antt =====
-- The theorem about `select_tests` at two tests, one rule and two changed paths.
use cairness.Base.{
  String, ◌≡◌, refl, false, some, List, [], ◌∷◌, distinct, codes, equal_codes, has_code,
  starts_with,
}
use cairness.Base.Dict.{get, put, keys}
use cairness.Base.Sorting.{sorted}
use cairness.Scopes.Glob.{fnmatchcase, match_items, compile, accepts, any_suffix}
use cairness.TestPolicy.Stem.{stem, is_related, is_documentation}
use cairness.TestPolicy.Select.{
  Policy, normal, Selection, chosen, add_reason, add_all, reasons_for, select_all, selected_by,
  missed_by, matches_any, matches_pattern, forward_slashes, rules_for, expand, by_name, by_rules,
  verdict, scan, select_keys, after_scan, select_changed, select_tests,
}
use cairness.TestPolicy.Select.FailClosed.{IsFailClosed, select_tests-IsFailClosed}

abbrev policy : Policy
policy = record {
  layers = "unit" ∷ [];
  legacy_files = "tests/test_orphans.py" ∷ "tests/test_wave.py" ∷ [];
  legacy_rules = ("unit", "tests/test_*.py" ∷ []) ∷ [];
  attributes = [];
  global_paths = "pyproject.toml" ∷ [];
  routing_rules =
      record { sources = "src/deps*.py" ∷ []; tests = "tests/test_orphans.py" ∷ [] } ∷ [];
}

abbrev discovered : List String
discovered = "tests/test_orphans.py" ∷ "tests/test_wave.py" ∷ []

abbrev changed : List String
changed = "src/deps.py" ∷ "src/cc-wave.py" ∷ []

abbrev selection : Selection
selection = record {
  mode = chosen;
  tests = "tests/test_orphans.py" ∷ "tests/test_wave.py" ∷ [];
  reasons =
      ("tests/test_orphans.py", "src/deps.py" ∷ [])
      ∷ ("tests/test_wave.py", "stem:src/cc-wave.py" ∷ [])
      ∷ [];
  fallback_full = false;
  unmatched_sources = [];
  total_tests = 2;
}

selected : select_tests policy discovered changed normal ≡ some selection
unfolding select_tests select_changed after_scan select_keys select_all scan verdict by_rules
    by_name expand rules_for matches_pattern forward_slashes fnmatchcase match_items compile
    equal_codes accepts matches_any selected_by missed_by add_all add_reason stem is_related
    is_documentation reasons_for sorted distinct get put keys codes has_code starts_with any_suffix
selected = refl

select_tests-IsFailClosed_example : IsFailClosed policy discovered changed selection
select_tests-IsFailClosed_example =
    select_tests-IsFailClosed policy discovered changed selection selected
