-- ===== src/TestPolicy/Classify.antt =====
-- `_classify_with_policy`, `validate_test_policy` and `routing_escape` (test_policy.py). `is_file` says
-- which paths are files below the project root, and the discovered tests are given.
pub mod Complete
mod Tests
use cairness.Base.{
  ℕ, ◌+◌, String, Bool, true, false, not, ◌&&◌, ◌||◌, Option, none, some, List, [], ◌∷◌, ◌++◌, ◌==◌,
  if◌then◌else◌, mem, filter_b, distinct, codes, equal_codes, starts_with, join_texts,
}
use cairness.Base.Dict.{Dict}
use cairness.Base.Sorting.{sorted}
use cairness.Scopes.Parts.{split_slashes}
use cairness.TestPolicy.Select.{
  Policy, Rule, Selection, SelectionMode, all_tests, matches_any, matches_pattern,
}

pub data Classified : Type 0 where
  classified : (layer : String) (attributes : List String) → Classified
  -- `TestPolicyError`
  unclassified : (error : String) → Classified

unfoldable pub ends_in : List ℕ → List ℕ → Bool
unfolding equal_codes
ends_in ending [] = equal_codes ending []
ends_in ending (c ∷ cs) = equal_codes ending (c ∷ cs) || ends_in ending cs

-- `endswith(".py")`
unfoldable pub is_python : String → Bool
unfolding ends_in codes
is_python path = ends_in (codes ".py") (codes path)

unfoldable pub is_test_file : String → Bool
unfolding starts_with is_python codes
is_test_file path = starts_with (codes "tests/") (codes path) && is_python path

-- The layer that the segment names.
unfoldable pub layer_named : List ℕ → List String → Option String
unfolding equal_codes codes
layer_named part [] = none
layer_named part (layer ∷ layers) =
    let rest = layer_named part layers in
    if equal_codes part (codes layer) then some layer else rest

-- `len(parts) >= 3 and parts[1] in policy.layers`
unfoldable pub layer_of_parts : List (List ℕ) → List String → Option String
unfolding layer_named
layer_of_parts (first ∷ second ∷ third ∷ parts) layers = layer_named second layers
layer_of_parts _ layers = none

-- The first rule, or attribute names, with a pattern that has the path.
unfoldable pub names_for : Dict (List String) → String → List String
unfolding matches_any
names_for [] path = []
names_for ((name, patterns) ∷ m) path =
    let rest = names_for m path in if matches_any patterns path then name ∷ rest else rest

unfoldable pub legacy_layer : List String → String → List String → Classified
legacy_layer attributes path [] = unclassified (join_texts "legacy test has no layer rule: " path)
legacy_layer attributes path (layer ∷ layers) = classified layer attributes

unfoldable pub classify_by : Option String → Policy → String → Classified
unfolding legacy_layer names_for
classify_by (some layer) policy path = classified layer (names_for policy.attributes path)
classify_by none policy path =
    if mem path policy.legacy_files
    then legacy_layer (names_for policy.attributes path) path (names_for policy.legacy_rules path)
    else unclassified (
        join_texts "unclassified test "
          (join_texts path "; move it under tests/<layer>/ or add it to legacy_files"))

unfoldable pub classify_with_policy : Policy → String → Classified
unfolding is_test_file layer_of_parts split_slashes classify_by codes
classify_with_policy policy path =
    if not (is_test_file path)
    then unclassified (join_texts "not a test file: " path)
    else classify_by (layer_of_parts (split_slashes (codes path)) policy.layers) policy path

abbrev pub error_if : Bool → String → List String
error_if true error = error ∷ []
error_if false error = []

-- `for declared in sorted(active.legacy_files)`
unfoldable pub absent_errors : (is_file : String → Bool) → List String → List String
absent_errors is_file [] = []
absent_errors is_file (f ∷ fs) =
    error_if (not (is_file f)) (join_texts "legacy test does not exist: " f)
    ++ absent_errors is_file fs

unfoldable pub error_of : Classified → List String
error_of (classified layer attributes) = []
error_of (unclassified error) = error ∷ []

unfoldable pub class_errors : Policy → List String → List String
unfolding error_of classify_with_policy
class_errors policy [] = []
class_errors policy (path ∷ paths) =
    error_of (classify_with_policy policy path) ++ class_errors policy paths

unfoldable pub python_errors : (is_file : String → Bool) → List String → List String
unfolding is_python
python_errors is_file [] = []
python_errors is_file (f ∷ fs) =
    error_if (is_file f && not (is_python f)) (join_texts "legacy entry is not a Python test: " f)
    ++ python_errors is_file fs

unfoldable pub is_none : List String → Bool
is_none [] = true
is_none (x ∷ xs) = false

unfoldable pub rule_errors : List String → Dict (List String) → List String
unfolding is_none
rule_errors layers [] = []
rule_errors layers ((layer, patterns) ∷ rules) =
    error_if (not (mem layer layers)) (join_texts "legacy rule uses unknown layer: " layer)
    ++ error_if (is_none patterns) (join_texts "legacy rule is empty: " layer)
    ++ rule_errors layers rules

-- `any(_matches(pattern, relative) for relative in discovered_rel)`
unfoldable pub has_match : (discovered : List String) → String → Bool
unfolding matches_pattern
has_match [] pattern = false
has_match (path ∷ paths) pattern = matches_pattern pattern path || has_match paths pattern

unfoldable pub pattern_errors :
    (discovered : List String) (message : String) → List String → List String
unfolding has_match
pattern_errors discovered message [] = []
pattern_errors discovered message (pattern ∷ patterns) =
    error_if (not (has_match discovered pattern)) (join_texts message pattern)
    ++ pattern_errors discovered message patterns

unfoldable pub attribute_errors : (discovered : List String) → Dict (List String) → List String
unfolding pattern_errors
attribute_errors discovered [] = []
attribute_errors discovered ((name, patterns) ∷ m) =
    pattern_errors discovered (join_texts "attribute " (join_texts name " matches no test: "))
      patterns
    ++ attribute_errors discovered m

unfoldable pub routing_errors : (discovered : List String) → List Rule → List String
unfolding pattern_errors is_none
routing_errors discovered [] = []
routing_errors discovered (r ∷ rs) =
    pattern_errors discovered "routing rule references missing test: " r.tests
    ++ error_if (is_none r.sources) "routing rule has no source patterns"
    ++ routing_errors discovered rs

unfoldable pub policy_errors :
    (is_file : String → Bool) (discovered : List String) → Policy → List String
unfolding absent_errors class_errors python_errors rule_errors attribute_errors routing_errors
policy_errors is_file discovered policy =
    absent_errors is_file (sorted policy.legacy_files)
    ++ class_errors policy discovered
    ++ python_errors is_file (sorted (filter_b (λ f. not (mem f discovered)) policy.legacy_files))
    ++ rule_errors policy.layers policy.legacy_rules
    ++ attribute_errors discovered policy.attributes
    ++ routing_errors discovered policy.routing_rules

unfoldable pub validate_test_policy :
    (is_file : String → Bool) (discovered : List String) → Policy → List String
unfolding policy_errors
validate_test_policy is_file discovered policy =
    sorted (distinct (policy_errors is_file discovered policy))

any_outside : List String → List String → Bool
any_outside selected [] = false
any_outside selected (path ∷ paths) = not (mem path selected) || any_outside selected paths

is_full : SelectionMode → Bool
is_full all_tests = true
is_full _ = false

-- The failed paths are those of the report that pytest prints.
unfoldable pub routing_escape : Selection → (status : String) (failures : List String) → Option Bool
unfolding any_outside is_full is_none
routing_escape selection status failures =
    if status == "passed"
    then some false
    else if is_none failures
    then none
    else if selection.fallback_full || is_full selection.mode
    then some false
    else some (any_outside selection.tests failures)
