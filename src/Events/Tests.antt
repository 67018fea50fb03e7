-- ===== src/Events/Tests.antt =====
-- The theorem about an accepted event at a blocked implementation.
use cairness.Base.{◌≡◌, refl, String, some, List, [], ◌∷◌, codes, distinct}
use cairness.Base.Dict.{Dict, get}
use cairness.LoopRuntime.Ids.{matches_command, matches_change_id}
use cairness.WaveExecution.Summary.{pos}
use cairness.Events.Checks.{
  Json, scalar, array, object, integer, text, both, value_of, scalar_of, scalar_in, value_in,
  value_among, issue_unless, is_null, lacks_any, is_change_id, is_command, is_version, is_second,
  is_same, is_full_text, all_texts, is_evidence, text_issues, command_to, command_target,
  expected_by, expected_to, target_issue, transition_issues,
}
use cairness.Events.Second.{is_count, is_amount, is_attempt, is_terminal_flag, second_issues}
use cairness.Events.{object_issues, validate_event}
use cairness.Events.Accepted.{IsAccepted, validate_event-IsAccepted}

abbrev states : List String
states = "propose" ∷ "apply" ∷ "review" ∷ "done" ∷ "unchanged" ∷ []

abbrev blocked : Dict Json
blocked =
    ("schema_version", scalar (integer (pos 2)))
    ∷ ("event_id", scalar (text "apply-1"))
    ∷ ("occurred_at", scalar (text "2025-01-01"))
    ∷ ("command", scalar (text "cc-apply"))
    ∷ ("change_id", scalar (text "add-login"))
    ∷ ("actor", scalar (text "agent"))
    ∷ ("transition", object (("from", text "apply") ∷ ("to", text "unchanged") ∷ []))
    ∷ ("summary", scalar (text "blocked"))
    ∷ ("evidence", array (text "log" ∷ []))
    ∷ ("result_status", scalar (text "blocked"))
    ∷ ("attempt", scalar (integer (pos 1)))
    ∷ []

accepted : validate_event states states "add-login" (some blocked) ≡ some []
unfolding validate_event object_issues second_issues both value_of scalar_of scalar_in value_in
    value_among issue_unless is_null lacks_any is_change_id is_command is_version is_second is_same
    is_full_text all_texts is_evidence text_issues command_to command_target expected_by expected_to
    target_issue transition_issues is_count is_amount is_attempt is_terminal_flag matches_command
    matches_change_id codes distinct get
accepted = refl

validate_event-IsAccepted_example : IsAccepted states states "add-login" (some blocked)
validate_event-IsAccepted_example =
    validate_event-IsAccepted states states "add-login" (some blocked) accepted
