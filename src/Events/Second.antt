-- ===== src/Events/Second.antt =====
-- The checks of `validate_event` (events.py) on events of schema version 2 only.
use cairness.Base.{
  ℕ, String, Bool, true, false, not, ◌&&◌, ◌||◌, Option, none, some, List, [], ◌∷◌, ◌==◌,
  if◌then◌else◌, eqb, ltb, leb, codes, mem, length, distinct,
}
use cairness.Base.Dict.{Dict}
use cairness.WaveExecution.Summary.{pos}
use cairness.Events.Checks.{
  Scalar, Json, Issues, both, issue_if, value_of, scalar_of, value_in, value_among, issue_unless,
  is_null, without_newline, null, boolean, integer, fraction, text, scalar, array, object,
}

-- `isinstance(value, int) and value >= 0`, and null
unfoldable pub is_count : Json → Bool
is_count (scalar null) = true
is_count (scalar (boolean b)) = true
is_count (scalar (integer (pos n))) = true
is_count _ = false

-- An integer or a fraction that is no bool and not negative, and null.
unfoldable pub is_amount : Scalar → Bool
is_amount null = true
is_amount (integer (pos n)) = true
is_amount (fraction is_negative) = not is_negative
is_amount _ = false

unfoldable pub is_attempt : Json → Bool
is_attempt (scalar null) = true
is_attempt (scalar (integer (pos n))) = ltb 0 n
is_attempt _ = false

unfoldable pub is_terminal_flag : Json → Bool
is_terminal_flag (scalar null) = true
is_terminal_flag (scalar (boolean b)) = true
is_terminal_flag _ = false

count_issues : List String → Dict Json → Issues
unfolding is_count
count_issues [] event = some []
count_issues (f ∷ fs) event =
    both (issue_if (not (is_count (value_of event f))) "E_EVENT016" f) (count_issues fs event)

-- `value is not None and value not in texts`, for a set.
optional_in : List String → Json → String → String → Issues
unfolding is_null value_in issue_unless
optional_in texts v code field =
    if is_null v then some [] else issue_unless (value_in texts v) code field

-- The same for a tuple.
optional_among : List String → Json → String → String → Issues
unfolding is_null value_among
optional_among texts v code field = issue_if (not (is_null v || value_among texts v)) code field

amount_issues : (code : String) → List String → Dict Scalar → Issues
unfolding is_amount scalar_of
amount_issues code [] m = some []
amount_issues code (f ∷ fs) m =
    both (issue_if (not (is_amount (scalar_of m f))) code f) (amount_issues code fs m)

-- An optional object whose fields have amounts.
amounts_issues : (not_object bad_field field : String) → List String → Json → Issues
unfolding amount_issues
amounts_issues not_object bad_field field fs (scalar null) = some []
amounts_issues not_object bad_field field fs (object m) = amount_issues bad_field fs m
amounts_issues not_object bad_field field fs v = issue_if true not_object field

is_full_scalar : Scalar → Bool
is_full_scalar (text s) = not (s == "")
is_full_scalar _ = false

abbrev cohort_fields : List String
cohort_fields =
    "phase" ∷ "mode" ∷ "execution_mode" ∷ "cache_state" ∷ "framework_version" ∷ "change_size"
    ∷ "change_type" ∷ "adapter" ∷ []

cohort_field_issues : Dict Scalar → Issues
unfolding is_full_scalar
cohort_field_issues [] = some []
cohort_field_issues ((f, v) ∷ m) =
    both (issue_if (not (mem f cohort_fields && is_full_scalar v)) "E_EVENT034" f)
      (cohort_field_issues m)

cohort_issues : Json → Issues
unfolding cohort_field_issues
cohort_issues (scalar null) = some []
cohort_issues (object m) = cohort_field_issues m
cohort_issues v = issue_if true "E_EVENT033" "cohort"

finding_issues : List String → Dict Scalar → Issues
unfolding is_count scalar_of
finding_issues [] m = some []
finding_issues (f ∷ fs) m =
    both (issue_if (not (is_count (scalar (scalar_of m f)))) "E_EVENT019" f) (finding_issues fs m)

findings_issues : Json → Issues
unfolding finding_issues
findings_issues (scalar null) = some []
findings_issues (object m) = finding_issues ("total_open" ∷ "total_fixed" ∷ "total_accepted" ∷ []) m
findings_issues v = issue_if true "E_EVENT018" "findings_summary"

is_upper : ℕ → Bool
is_upper c = leb b'A' c && leb c b'Z'

is_digit : ℕ → Bool
is_digit c = leb b'0' c && leb c b'9'

all_digits : List ℕ → Bool
unfolding is_digit
all_digits [] = true
all_digits (c ∷ cs) = is_digit c && all_digits cs

-- `[A-Z]*[0-9]+` after a first letter
letters_digits : List ℕ → Bool
unfolding is_upper is_digit all_digits
letters_digits [] = false
letters_digits (c ∷ cs) =
    let later = letters_digits cs in
    let digits = all_digits cs in if is_upper c then later else is_digit c && digits

-- `E_[A-Z]+[0-9]+`
unfoldable pub matches_error_code : List ℕ → Bool
unfolding is_upper letters_digits
matches_error_code (a ∷ b ∷ c ∷ cs) = eqb a b'E' && eqb b b'_' && is_upper c && letters_digits cs
matches_error_code _ = false

-- The texts of a list, if all of them are error codes.
code_texts : List Scalar → Option (List String)
unfolding matches_error_code without_newline codes
code_texts [] = some []
code_texts (text s ∷ vs) = elim (code_texts vs) [
  | none ↦ none
  | some ss ↦ if matches_error_code (without_newline (codes s)) then some (s ∷ ss) else none
]
code_texts (v ∷ vs) = none

error_code_issues : Json → Issues
unfolding code_texts distinct
error_code_issues (scalar null) = some []
error_code_issues (array vs) = elim (code_texts vs) [
  | none ↦ issue_if true "E_EVENT021" "error_codes"
  | some ss ↦ issue_if (not (eqb (length (distinct ss)) (length ss))) "E_EVENT021" "error_codes"
]
error_code_issues v = issue_if true "E_EVENT021" "error_codes"

-- What is checked of an event of schema version 2 only.
unfoldable pub second_issues : Dict Json → Issues
unfolding count_issues optional_in optional_among is_attempt is_terminal_flag amounts_issues
    cohort_issues findings_issues error_code_issues
second_issues event =
    both
      (count_issues ("duration_ms" ∷ "token_count" ∷ "subagent_count" ∷ "files_changed" ∷ []) event)
      (both
        (optional_in ("passed" ∷ "failed" ∷ "partial" ∷ "not_run" ∷ [])
          (value_of event "verification_status") "E_EVENT017" "verification_status")
        (both
          (optional_in ("passed" ∷ "blocked" ∷ "partial" ∷ []) (value_of event "result_status")
            "E_EVENT022" "result_status")
          (both
            (optional_among ("propose" ∷ "apply" ∷ "review" ∷ "fix" ∷ "test" ∷ "archive" ∷ [])
              (value_of event "phase") "E_EVENT023" "phase")
            (both
              (optional_among ("preflight" ∷ "execute" ∷ "verify" ∷ "transition" ∷ "wait" ∷ [])
                (value_of event "activity") "E_EVENT024" "activity")
              (both
                (optional_among ("primary" ∷ "retry" ∷ "shadow" ∷ "delta" ∷ "probe" ∷ [])
                  (value_of event "run_kind") "E_EVENT025" "run_kind")
                (both
                  (optional_among
                    ("environment" ∷ "policy_block" ∷ "test_failure" ∷ "transient" ∷ "unknown" ∷ [])
                    (value_of event "failure_class") "E_EVENT032" "failure_class")
                  (both
                    (issue_if (not (is_attempt (value_of event "attempt"))) "E_EVENT026" "attempt")
                    (both
                      (issue_if (not (is_terminal_flag (value_of event "terminal"))) "E_EVENT027"
                        "terminal")
                      (both
                        (amounts_issues "E_EVENT028" "E_EVENT029" "timing"
                          ("elapsed_ms" ∷ "active_ms" ∷ "tool_ms" ∷ "verification_ms" ∷ "wait_ms"
                            ∷ "blocked_ms" ∷ [])
                          (value_of event "timing"))
                        (both
                          (amounts_issues "E_EVENT030" "E_EVENT031" "usage"
                            ("input_tokens" ∷ "output_tokens" ∷ "cached_input_tokens"
                              ∷ "cache_write_tokens" ∷ "reasoning_tokens" ∷ "total_tokens" ∷ [])
                            (value_of event "usage"))
                          (both (cohort_issues (value_of event "cohort")) (
                            both (findings_issues (value_of event "findings_summary"))
                              (error_code_issues (value_of event "error_codes"))))))))))))))
