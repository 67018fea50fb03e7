-- ===== src/TestPolicy/Classify/Tests.antt =====
-- The theorem about a validated policy at a legacy test and a test in the directory of its layer.
use cairness.Base.{
  ◌≡◌, refl, String, Bool, true, List, [], ◌∷◌, codes, equal_codes, has_code, starts_with, distinct,
}
use cairness.Base.Sorting.{sorted}
use cairness.Scopes.Glob.{fnmatchcase, match_items, compile, accepts, any_suffix}
use cairness.Scopes.Parts.{split_slashes, add_code}
use cairness.TestPolicy.Select.{Policy, matches_any, matches_pattern, forward_slashes}
use cairness.TestPolicy.Classify.{
  classify_with_policy, classify_by, is_test_file, is_python, ends_in, layer_of_parts, layer_named,
  names_for, legacy_layer, error_of, absent_errors, class_errors, python_errors, rule_errors,
  has_match, pattern_errors, attribute_errors, routing_errors, is_none, policy_errors,
  validate_test_policy,
}
use cairness.TestPolicy.Classify.Complete.{IsComplete, validate_test_policy-IsComplete}

abbrev policy : Policy
policy = record {
  layers = "unit" ∷ "runtime" ∷ [];
  legacy_files = "tests/test_deps.py" ∷ [];
  legacy_rules = ("runtime", "tests/test_d*.py" ∷ []) ∷ [];
  attributes = ("slow", "tests/unit/test_[a-m]*.py" ∷ []) ∷ [];
  global_paths = [];
  routing_rules = record { sources = "src/deps.py" ∷ []; tests = "tests/*_deps.py" ∷ [] } ∷ [];
}

abbrev discovered : List String
discovered = "tests/test_deps.py" ∷ "tests/unit/test_glob.py" ∷ []

abbrev any_file : String → Bool
any_file path = true

valid : validate_test_policy any_file discovered policy ≡ []
unfolding validate_test_policy policy_errors absent_errors class_errors python_errors rule_errors
    attribute_errors routing_errors pattern_errors has_match is_none error_of classify_with_policy
    classify_by is_test_file is_python ends_in layer_of_parts layer_named names_for legacy_layer
    matches_any matches_pattern forward_slashes fnmatchcase match_items compile accepts any_suffix
    split_slashes add_code codes equal_codes has_code starts_with distinct sorted
valid = refl

validate_test_policy-IsComplete_example : IsComplete any_file discovered policy
validate_test_policy-IsComplete_example =
    validate_test_policy-IsComplete any_file discovered policy valid
