-- ===== src/Events/Checks.antt =====
-- The values of JSON, and the checks of `validate_event` (events.py) on every event: its fields and its
-- transition.
use cairness.Base.{
  ℕ, String, Bool, true, false, not, ◌&&◌, ◌||◌, Option, none, some, List, [], ◌∷◌, ◌++◌, ◌==◌,
  if◌then◌else◌, eqb, codes, mem, is_given,
}
use cairness.Base.Dict
use cairness.Base.Dict.{Dict}
use cairness.LoopRuntime.Ids.{matches_command, matches_change_id}
use cairness.WaveExecution.Summary.{ℤ, pos}

-- A value of JSON that is no list and no object, or one that is nested too deep to matter.
-- A fraction is a number with a fractional part.
pub data Scalar : Type 0 where
  null : Scalar
  boolean : Bool → Scalar
  integer : ℤ → Scalar
  fraction : (is_negative : Bool) → Scalar
  text : String → Scalar
  compound : Scalar

pub data Json : Type 0 where
  scalar : Scalar → Json
  array : List Scalar → Json
  object : Dict Scalar → Json

pub record Issue : Type 0 where
  pub code : String
  pub field : String

-- Nothing if a `TypeError` is raised: a list or an object is looked up in a set or a dict.
abbrev pub Issues : Type 0
Issues = Option (List Issue)

-- The issues of one check, and then those of the next.
unfoldable pub both : Issues → Issues → Issues
both none js = none
both (some is) none = none
both (some is) (some js) = some (is ++ js)

abbrev pub issue_if : Bool → String → String → Issues
issue_if true code field = some (record { code = code; field = field } ∷ [])
issue_if false code field = some []

-- `event.get(field)`
unfoldable pub value_of : Dict Json → String → Json
value_of event field = elim (Dict.get event field) [ none ↦ scalar null | some v ↦ v ]

unfoldable pub scalar_of : Dict Scalar → String → Scalar
scalar_of m field = elim (Dict.get m field) [ none ↦ null | some v ↦ v ]

-- Membership in a set of texts, if the value can be hashed.
unfoldable pub scalar_in : List String → Scalar → Option Bool
scalar_in texts (text s) = some (mem s texts)
scalar_in texts compound = none
scalar_in texts _ = some false

unfoldable pub value_in : List String → Json → Option Bool
unfolding scalar_in
value_in texts (scalar v) = scalar_in texts v
value_in texts _ = none

-- Membership in a tuple of texts.
unfoldable pub value_among : List String → Json → Bool
value_among texts (scalar (text s)) = mem s texts
value_among texts _ = false

unfoldable pub issue_unless : Option Bool → String → String → Issues
issue_unless none code field = none
issue_unless (some b) code field = issue_if (not b) code field

unfoldable pub is_null : Json → Bool
is_null (scalar null) = true
is_null _ = false

unfoldable pub lacks_any : List String → Dict Json → Bool
lacks_any [] event = false
lacks_any (f ∷ fs) event = not (is_given (Dict.get event f)) || lacks_any fs event

-- `$` also matches before a line feed at the end.
unfoldable pub without_newline : List ℕ → List ℕ
without_newline [] = []
without_newline (c ∷ []) = if eqb c 10 then [] else c ∷ []
without_newline (c ∷ d ∷ cs) = c ∷ without_newline (d ∷ cs)

unfoldable pub is_change_id : Json → Bool
unfolding matches_change_id without_newline codes
is_change_id (scalar (text s)) = matches_change_id false (without_newline (codes s))
is_change_id _ = false

unfoldable pub is_command : Json → Bool
unfolding matches_command without_newline codes
is_command (scalar (text s)) = matches_command (without_newline (codes s))
is_command _ = false

-- `VALID_SCHEMA_VERSIONS`; a bool is an int.
unfoldable pub is_version : Json → Option Bool
is_version (scalar (integer (pos n))) = some (eqb n 1 || eqb n 2)
is_version (scalar (boolean b)) = some b
is_version (scalar compound) = none
is_version (scalar v) = some false
is_version _ = none

unfoldable pub is_second : Json → Bool
is_second (scalar (integer (pos n))) = eqb n 2
is_second _ = false

unfoldable pub is_same : String → Json → Bool
is_same s (scalar (text t)) = t == s
is_same s _ = false

unfoldable pub is_full_text : Json → Bool
is_full_text (scalar (text s)) = not (s == "")
is_full_text _ = false

unfoldable pub all_texts : List Scalar → Bool
all_texts [] = true
all_texts (text s ∷ vs) = not (s == "") && all_texts vs
all_texts (v ∷ vs) = false

unfoldable pub is_evidence : Json → Bool
unfolding all_texts
is_evidence (array (v ∷ vs)) = all_texts (v ∷ vs)
is_evidence _ = false

unfoldable pub text_issues : List String → Dict Json → Issues
unfolding is_full_text
text_issues [] event = some []
text_issues (f ∷ fs) event =
    both (issue_if (not (is_full_text (value_of event f))) "E_EVENT007" f) (text_issues fs event)

-- `COMMAND_TO`
unfoldable pub command_to : String → Option String
command_to command =
    if command == "cc-propose"
    then some "propose"
    else if mem command ("cc-apply" ∷ "cc-review" ∷ "cc-fix" ∷ [])
    then some "review"
    else if mem command ("cc-test" ∷ "cc-promote-audit" ∷ "cc-discuss" ∷ [])
    then some "unchanged"
    else if command == "cc-archive"
    then some "done"
    else none

-- `COMMAND_TO.get(command)`
unfoldable pub command_target : Json → Option (Option String)
unfolding command_to
command_target (scalar (text s)) = some (command_to s)
command_target (scalar compound) = none
command_target (scalar v) = some none
command_target _ = none

abbrev pub stopped_texts : List String
stopped_texts = "blocked" ∷ "partial" ∷ []

unfoldable pub expected_by :
    Option (Option String) → (is_stopped : Option Bool) → Option (Option String)
expected_by none is_stopped = none
expected_by (some target) none = none
expected_by (some target) (some true) = some (some "unchanged")
expected_by (some target) (some false) = some target

-- What the transition has to lead to.
unfoldable pub expected_to : (command result_status : Json) → Option (Option String)
unfolding command_target value_in expected_by
expected_to command result_status =
    expected_by (command_target command) (value_in stopped_texts result_status)

unfoldable pub target_issue : Option (Option String) → Scalar → Issues
target_issue none to_state = none
target_issue (some none) to_state = some []
target_issue (some (some target)) (text s) = issue_if (not (s == target)) "E_EVENT011" "to"
target_issue (some (some target)) v = issue_if true "E_EVENT011" "to"

unfoldable pub transition_issues : (valid_from valid_to : List String) → Dict Json → Json → Issues
unfolding both scalar_in issue_unless expected_to target_issue scalar_of value_of
transition_issues valid_from valid_to event (object m) =
    both (issue_unless (scalar_in valid_from (scalar_of m "from")) "E_EVENT009" "from") (
      both (issue_unless (scalar_in valid_to (scalar_of m "to")) "E_EVENT010" "to") (
        target_issue (expected_to (value_of event "command") (value_of event "result_status"))
          (scalar_of m "to")))
transition_issues valid_from valid_to event v = issue_if true "E_EVENT008" "transition"
