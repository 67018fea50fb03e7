-- ===== src/TestPolicy/Classify/Complete.antt =====
-- What a policy without errors guarantees (`validate_test_policy`, test_policy.py).
use cairness.Base.{
  ℕ, ◌≡◌, refl, sym, ap, ◌∙◌, subst, arith, String, Bool, true, false, not, Option, none, some,
  List, [], ◌∷◌, ◌++◌, ◌==◌, eq_iff, mem, filter_b, distinct, mem-distinct, All, codes, equal_codes,
  join_texts, Bool-cases, inl, inr,
}
use cairness.Base.Dict.{Dict}
use cairness.Base.Sorting.{sorted, mem-sorted}
use cairness.Scopes.Parts.{split_slashes}
use cairness.TestPolicy.Select.{Policy, Rule, matches_pattern, matches_any}
use cairness.TestPolicy.Classify.{
  classified, layer_named, layer_of_parts, names_for, is_none, legacy_layer, is_test_file,
  classify_by, classify_with_policy, error_if, absent_errors, error_of, class_errors, rule_errors,
  has_match, python_errors, attribute_errors, pattern_errors, routing_errors, policy_errors,
  validate_test_policy,
}

no_members : (xs : List String) → ((x : String) → mem x xs ≡ false) → xs ≡ []
no_members [] h = refl
no_members (x ∷ xs) h = absurd (ground (arith, h x, eq_iff x x))

-- No errors are left out when they are put in order.
no_errors : (xs : List String) → sorted (distinct xs) ≡ [] → xs ≡ []
no_errors xs h =
    no_members xs (λ x. sym (mem-distinct x xs) ∙ sym (mem-sorted x (distinct xs)) ∙ ap (mem x) h)

no_left : (xs ys : List String) → xs ++ ys ≡ [] → xs ≡ []
no_left [] ys h = refl
no_left (x ∷ xs) ys h = absurd (cc)

no_right : (xs ys : List String) → xs ++ ys ≡ [] → ys ≡ []
no_right [] ys h = h
no_right (x ∷ xs) ys h = absurd (cc)

no_error : (b : Bool) (error : String) → error_if b error ≡ [] → b ≡ false
no_error false error h = refl
no_error true error h = absurd (cc)

mem-absent_errors :
    (is_file : String → Bool) (fs : List String) (f : String)
    → absent_errors is_file fs ≡ []
    → mem f fs ≡ true
    → is_file f ≡ true
unfolding absent_errors
mem-absent_errors is_file [] f h i = absurd (cc)
mem-absent_errors is_file (g ∷ fs) f h i = elim (Bool-cases (f == g)) [
  | inl e ↦
      let here = no_error (not (is_file g)) (join_texts "legacy test does not exist: " g) (
        no_left (error_if (not (is_file g)) (join_texts "legacy test does not exist: " g))
          (absent_errors is_file fs) h) in
      ground (arith, here, ap is_file ((eq_iff f g).0 e))
  | inr e ↦
      mem-absent_errors is_file fs f
        (no_right (error_if (not (is_file g)) (join_texts "legacy test does not exist: " g))
          (absent_errors is_file fs) h)
        (ground (arith, e, i))
]

-- Each rule names a layer of the policy.
rule-layer :
    (layers : List String) (rules : Dict (List String)) (path name : String) (names : List String)
    → rule_errors layers rules ≡ []
    → names_for rules path ≡ name ∷ names
    → mem name layers ≡ true
unfolding rule_errors names_for
rule-layer layers [] path name names h e = absurd (cc)
rule-layer layers ((layer, patterns) ∷ rules) path name names h e =
    let unknown =
      error_if (not (mem layer layers)) (join_texts "legacy rule uses unknown layer: " layer) in
    let empty = error_if (is_none patterns) (join_texts "legacy rule is empty: " layer) in
    let here =
      no_error (not (mem layer layers)) (join_texts "legacy rule uses unknown layer: " layer)
        (no_left unknown empty (no_left (unknown ++ empty) (rule_errors layers rules) h)) in
    let later = no_right (unknown ++ empty) (rule_errors layers rules) h in
    elim (Bool-cases (matches_any patterns path)) [
      | inl m ↦
          subst (λ n. mem n layers ≡ true) {x = layer} {y = name} (ground (arith, m, e))
            (ground (arith, here))
      | inr m ↦ rule-layer layers rules path name names later (ground (arith, m, e))
    ]

layer_named-mem :
    (part : List ℕ) (layers : List String) (layer : String)
    → layer_named part layers ≡ some layer
    → mem layer layers ≡ true
unfolding layer_named
layer_named-mem part [] layer h = absurd (cc)
layer_named-mem part (l ∷ layers) layer h = elim (Bool-cases (equal_codes part (codes l))) [
  | inl e ↦ ground (arith, h, e, eq_iff layer l)
  | inr e ↦ ground (arith, layer_named-mem part layers layer (ground (arith, e, h)))
]

layer_of_parts-mem :
    (parts : List (List ℕ)) (layers : List String) (layer : String)
    → layer_of_parts parts layers ≡ some layer
    → mem layer layers ≡ true
unfolding layer_of_parts
layer_of_parts-mem [] layers layer h = absurd (cc)
layer_of_parts-mem (a ∷ []) layers layer h = absurd (cc)
layer_of_parts-mem (a ∷ b ∷ []) layers layer h = absurd (cc)
layer_of_parts-mem (a ∷ b ∷ c ∷ parts) layers layer h = layer_named-mem b layers layer h

-- Each pattern has a test.
AreMatched : (discovered patterns : List String) → Type 0
AreMatched discovered patterns =
    (p : String)
    → mem p patterns ≡ true
    → (t : String) × (mem t discovered ≡ true) × (matches_pattern p t ≡ true)

has_match-mem :
    (discovered : List String) (p : String)
    → has_match discovered p ≡ true
    → (t : String) × (mem t discovered ≡ true) × (matches_pattern p t ≡ true)
unfolding has_match
has_match-mem [] p h = absurd (cc)
has_match-mem (d ∷ ds) p h = elim (Bool-cases (matches_pattern p d)) [
  | inl e ↦ (d, ground (arith, eq_iff d d), e)
  | inr e ↦
      let (t, m, found) = has_match-mem ds p (ground (arith, e, h)) in (t, ground (arith, m), found)
]

pattern_errors-AreMatched :
    (discovered : List String) (message : String) (patterns : List String)
    → pattern_errors discovered message patterns ≡ []
    → AreMatched discovered patterns
unfolding pattern_errors AreMatched
pattern_errors-AreMatched discovered message [] h p i = absurd (cc)
pattern_errors-AreMatched discovered message (q ∷ patterns) h p i = elim (Bool-cases (p == q)) [
  | inl e ↦
      let here = no_error (not (has_match discovered q)) (join_texts message q) (
        no_left (error_if (not (has_match discovered q)) (join_texts message q))
          (pattern_errors discovered message patterns) h) in
      has_match-mem discovered p
        (ground (arith, here, ap (has_match discovered) ((eq_iff p q).0 e)))
  | inr e ↦
      pattern_errors-AreMatched discovered message patterns
        (no_right (error_if (not (has_match discovered q)) (join_texts message q))
          (pattern_errors discovered message patterns) h)
        p (ground (arith, e, i))
]

-- The test has a layer of the policy.
IsClassified : Policy → String → Type 0
IsClassified policy path =
    (layer : String) × (attributes : List String) × (classify_with_policy policy path
      ≡ classified layer attributes)
    × (mem layer policy.layers ≡ true)

by_layer :
    (policy : Policy) (path : String) (o : Option String)
    → ((layer : String) → o ≡ some layer → mem layer policy.layers ≡ true)
    → rule_errors policy.layers policy.legacy_rules ≡ []
    → error_of (classify_by o policy path) ≡ []
    → (layer : String) × (attributes : List String) × (classify_by o policy path
        ≡ classified layer attributes)
      × (mem layer policy.layers ≡ true)
unfolding classify_by error_of
by_layer policy path (some layer) known rules h = (layer, _, refl, known layer refl)
by_layer policy path none known rules h = elim (Bool-cases (mem path policy.legacy_files)) [
  | inl e ↦ by_rule e (names_for policy.legacy_rules path) refl
  | inr e ↦ absurd (ground (arith, e, h))
]
  where
    by_rule :
        mem path policy.legacy_files ≡ true
        → (names : List String) → names_for policy.legacy_rules path ≡ names
        → (layer : String) × (attributes : List String) × (classify_by none policy path
            ≡ classified layer attributes)
          × (mem layer policy.layers ≡ true)
    by_rule e [] i =
        absurd (ground (arith, e, h, ap (legacy_layer (names_for policy.attributes path) path) i))
    by_rule e (name ∷ names) i = (
      name,
      names_for policy.attributes path,
      ground (arith, e, ap (legacy_layer (names_for policy.attributes path) path) i),
      rule-layer policy.layers policy.legacy_rules path name names rules i,
    )

test-IsClassified :
    (policy : Policy) (path : String)
    → rule_errors policy.layers policy.legacy_rules ≡ []
    → error_of (classify_with_policy policy path) ≡ []
    → IsClassified policy path
unfolding IsClassified classify_with_policy error_of
test-IsClassified policy path rules h = elim (Bool-cases (is_test_file path)) [
  | inl e ↦
      let layer = layer_of_parts (split_slashes (codes path)) policy.layers in
      let same : classify_with_policy policy path ≡ classify_by layer policy path =
        ground (arith, e) in
      let (name, attributes, found, known) =
        by_layer policy path layer (layer_of_parts-mem (split_slashes (codes path)) policy.layers)
          rules (sym (ap error_of same) ∙ h) in
      (name, attributes, same ∙ found, known)
  | inr e ↦ absurd (ground (arith, e, h))
]

class_errors-IsClassified :
    (policy : Policy) (paths : List String) (path : String)
    → rule_errors policy.layers policy.legacy_rules ≡ []
    → class_errors policy paths ≡ []
    → mem path paths ≡ true
    → IsClassified policy path
unfolding class_errors
class_errors-IsClassified policy [] path rules h i = absurd (cc)
class_errors-IsClassified policy (q ∷ paths) path rules h i = elim (Bool-cases (path == q)) [
  | inl e ↦
      let here = no_left (error_of (classify_with_policy policy q)) (class_errors policy paths) h in
      subst (IsClassified policy) (sym ((eq_iff path q).0 e))
        (test-IsClassified policy q rules here)
  | inr e ↦
      class_errors-IsClassified policy paths path rules
        (no_right (error_of (classify_with_policy policy q)) (class_errors policy paths) h)
        (ground (arith, e, i))
]

routing_errors-AreMatched :
    (discovered : List String) (rules : List Rule)
    → routing_errors discovered rules ≡ []
    → All (λ r. AreMatched discovered r.tests) rules
unfolding routing_errors
routing_errors-AreMatched discovered [] h = tt
routing_errors-AreMatched discovered (r ∷ rules) h =
    let tests = pattern_errors discovered "routing rule references missing test: " r.tests in
    let sources = error_if (is_none r.sources) "routing rule has no source patterns" in
    (
      pattern_errors-AreMatched discovered "routing rule references missing test: " r.tests
          (no_left tests sources (no_left (tests ++ sources) (routing_errors discovered rules) h)),
      routing_errors-AreMatched discovered rules
          (no_right (tests ++ sources) (routing_errors discovered rules) h),
    )

pub IsComplete : (is_file : String → Bool) (discovered : List String) → Policy → Type 0
IsComplete is_file discovered policy =
    ((path : String) → mem path discovered ≡ true → IsClassified policy path)
    × ((path : String) → mem path policy.legacy_files ≡ true → is_file path ≡ true)
    × All (λ r. AreMatched discovered r.tests) policy.routing_rules

-- If `validate_test_policy` reports no error, every discovered test is classified, into a layer of
-- the policy, every legacy file is there, and every test pattern of a routing rule has a discovered
-- test.
pub validate_test_policy-IsComplete :
    (is_file : String → Bool) (discovered : List String) (policy : Policy)
    → validate_test_policy is_file discovered policy ≡ []
    → IsComplete is_file discovered policy
unfolding IsComplete validate_test_policy policy_errors
validate_test_policy-IsComplete is_file discovered policy h =
    let absent = absent_errors is_file (sorted policy.legacy_files) in
    let classes = class_errors policy discovered in
    let python =
      python_errors is_file (sorted (filter_b (λ f. not (mem f discovered)) policy.legacy_files)) in
    let rules = rule_errors policy.layers policy.legacy_rules in
    let attributes = attribute_errors discovered policy.attributes in
    let routing = routing_errors discovered policy.routing_rules in
    let all = no_errors (policy_errors is_file discovered policy) h in
    let to_attributes = no_left (absent ++ classes ++ python ++ rules ++ attributes) routing all in
    let to_rules = no_left (absent ++ classes ++ python ++ rules) attributes to_attributes in
    let to_python = no_left (absent ++ classes ++ python) rules to_rules in
    let to_classes = no_left (absent ++ classes) python to_python in
    (
      (λ path i.
          class_errors-IsClassified policy discovered path
            (no_right (absent ++ classes ++ python) rules to_rules)
            (no_right absent classes to_classes) i),
      (λ path i.
          mem-absent_errors is_file (sorted policy.legacy_files) path
            (no_left absent classes to_classes) (mem-sorted path policy.legacy_files ∙ i)),
      routing_errors-AreMatched discovered policy.routing_rules
          (no_right (absent ++ classes ++ python ++ rules ++ attributes) routing all),
    )
