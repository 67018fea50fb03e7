-- ===== src/Events.antt =====
-- `validate_event` (cairn-core/scripts/harness_runtime/events.py). The states of `enums.yaml` are
-- given. Of an issue the code and the field are kept.
pub mod Checks
pub mod Second
pub mod Accepted
mod Tests
use cairness.Base.{
  ℕ, zero, suc, ◌+◌, String, Bool, true, false, not, ◌&&◌, ◌||◌, Option, none, some, List, [], ◌∷◌,
  ◌++◌, ◌==◌, if◌then◌else◌, eqb, ltb, leb, codes, mem, count, length, distinct, is_given,
  join_texts,
}
use cairness.Base.Dict
use cairness.Base.Dict.{Dict}
use cairness.LoopRuntime.Ids.{matches_command, matches_change_id}
use cairness.WaveExecution.Summary.{ℤ, pos, negsuc}
use cairness.Events.Checks.{
  Json, Issues, both, issue_if, value_of, issue_unless, lacks_any, is_change_id, is_command,
  is_version, is_second, is_same, is_evidence, text_issues, transition_issues, object,
}
use cairness.Events.Second.{second_issues}

abbrev pub required : List String
required =
    "schema_version" ∷ "event_id" ∷ "occurred_at" ∷ "command" ∷ "change_id" ∷ "actor" ∷ "transition"
    ∷ "summary" ∷ "evidence" ∷ []

-- The checks of an object.
unfoldable pub object_issues :
    (valid_from valid_to : List String) (change_id : String) → Dict Json → Issues
unfolding lacks_any issue_unless is_version is_change_id is_command is_same text_issues
    transition_issues is_evidence second_issues is_second
object_issues valid_from valid_to change_id event =
    both (issue_if (lacks_any required event) "E_EVENT002" "") (
      both
        (issue_unless (is_version (value_of event "schema_version")) "E_EVENT003" "schema_version")
        (both (issue_if (not (is_change_id (value_of event "event_id"))) "E_EVENT004" "event_id") (
          both (issue_if (not (is_command (value_of event "command"))) "E_EVENT005" "command") (
            both
              (issue_if (not (is_same change_id (value_of event "change_id"))) "E_EVENT006"
                "change_id")
              (both (text_issues ("occurred_at" ∷ "actor" ∷ "summary" ∷ []) event) (
                both (transition_issues valid_from valid_to event (value_of event "transition")) (
                  both
                    (issue_if (not (is_evidence (value_of event "evidence"))) "E_EVENT012"
                      "evidence")
                    (if is_second (value_of event "schema_version")
                      then second_issues event
                      else some []))))))))

-- Nothing for what is no object.
unfoldable pub validate_event :
    (valid_from valid_to : List String) (change_id : String) → Option (Dict Json) → Issues
unfolding object_issues
validate_event valid_from valid_to change_id none = issue_if true "E_EVENT001" ""
validate_event valid_from valid_to change_id (some event) =
    object_issues valid_from valid_to change_id event
