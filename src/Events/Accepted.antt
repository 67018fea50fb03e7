-- ===== src/Events/Accepted.antt =====
-- What an accepted event says (events.py).
use cairness.Base.{
  ◌≡◌, refl, sym, ap, ◌∙◌, arith, String, Bool, true, false, not, Option, none, some, List, [], ◌∷◌,
  ◌==◌, eq_iff, if◌then◌else◌, mem,
}
use cairness.Base.Dict.{Dict}
use cairness.Events.Checks.{
  Scalar, null, boolean, integer, fraction, text, compound, Json, scalar, array, object, Issues,
  both, issue_if, value_of, scalar_of, scalar_in, value_in, issue_unless, is_change_id, is_command,
  lacks_any, is_version, text_issues, is_second, is_same, is_evidence, command_to, command_target,
  stopped_texts, expected_by, expected_to, value_among, target_issue, transition_issues,
}
use cairness.Events.Second.{second_issues}
use cairness.Events.{required, object_issues, validate_event}

both-left : (is js : Issues) → both is js ≡ some [] → is ≡ some []
unfolding both
both-left none js h = absurd (cc)
both-left (some []) none h = absurd (cc)
both-left (some []) (some js) h = refl
both-left (some (i ∷ is)) none h = absurd (cc)
both-left (some (i ∷ is)) (some js) h = absurd (cc)

both-right : (is js : Issues) → both is js ≡ some [] → js ≡ some []
unfolding both
both-right none js h = absurd (cc)
both-right (some []) none h = absurd (cc)
both-right (some []) (some js) h = h
both-right (some (i ∷ is)) none h = absurd (cc)
both-right (some (i ∷ is)) (some js) h = absurd (cc)

no_issue : (b : Bool) (code field : String) → issue_if (not b) code field ≡ some [] → b ≡ true
no_issue true code field h = refl
no_issue false code field h = absurd (cc)

no_issue_unless :
    (o : Option Bool) (code field : String) → issue_unless o code field ≡ some [] → o ≡ some true
unfolding issue_unless
no_issue_unless none code field h = absurd (cc)
no_issue_unless (some b) code field h = ap some (no_issue b code field h)

in_texts :
    (texts : List String) (v : Scalar)
    → scalar_in texts v ≡ some true
    → (s : String) × (v ≡ text s) × (mem s texts ≡ true)
unfolding scalar_in
in_texts texts (text s) h = (s, refl, ground (arith, h))
in_texts texts null h = absurd (ground (arith, h))
in_texts texts (boolean b) h = absurd (ground (arith, h))
in_texts texts (integer i) h = absurd (ground (arith, h))
in_texts texts (fraction b) h = absurd (ground (arith, h))
in_texts texts compound h = absurd (ground (arith, h))

a_command : (v : Json) → is_command v ≡ true → (s : String) × (v ≡ scalar (text s))
unfolding is_command
a_command (scalar (text s)) h = (s, refl)
a_command (scalar null) h = absurd (cc)
a_command (scalar (boolean b)) h = absurd (cc)
a_command (scalar (integer i)) h = absurd (cc)
a_command (scalar (fraction b)) h = absurd (cc)
a_command (scalar compound) h = absurd (cc)
a_command (array vs) h = absurd (cc)
a_command (object m) h = absurd (cc)

a_same : (s : String) (v : Json) → is_same s v ≡ true → v ≡ scalar (text s)
unfolding is_same
a_same s (scalar (text t)) h = ap (λ u. scalar (text u)) ((eq_iff t s).0 h)
a_same s (scalar null) h = absurd (cc)
a_same s (scalar (boolean b)) h = absurd (cc)
a_same s (scalar (integer i)) h = absurd (cc)
a_same s (scalar (fraction b)) h = absurd (cc)
a_same s (scalar compound) h = absurd (cc)
a_same s (array vs) h = absurd (cc)
a_same s (object m) h = absurd (cc)

-- A value that can be looked up in a set is in it exactly if it is among its texts.
among :
    (texts : List String) (v : Json) (b : Bool)
    → value_in texts v ≡ some b
    → value_among texts v ≡ b
unfolding value_in scalar_in value_among
among texts (scalar (text s)) b h = ground (arith, h)
among texts (scalar null) b h = ground (arith, h)
among texts (scalar (boolean c)) b h = ground (arith, h)
among texts (scalar (integer i)) b h = ground (arith, h)
among texts (scalar (fraction c)) b h = ground (arith, h)
among texts (scalar compound) b h = absurd (cc)
among texts (array vs) b h = absurd (cc)
among texts (object m) b h = absurd (cc)

-- What the transition of a command leads to.
target_of : (is_stopped : Bool) → String → String
target_of is_stopped target = if is_stopped then "unchanged" else target

reached :
    (command to_state : String) (o : Option Bool) (b : Bool)
    → ((c : Bool) → o ≡ some c → b ≡ c)
    → target_issue (expected_by (some (command_to command)) o) (text to_state) ≡ some []
    → (target : String) → command_to command ≡ some target
    → to_state ≡ target_of b target
unfolding target_issue expected_by target_of
reached command to_state none b stop h target i = absurd (cc)
reached command to_state (some true) b stop h target i =
    (eq_iff to_state "unchanged").0 (no_issue (to_state == "unchanged") "E_EVENT011" "to" h)
    ∙ ap (λ c. target_of c target) (sym (stop true refl))
reached command to_state (some false) b stop h target i =
    let issue = ap (λ o. target_issue (some o) (text to_state)) (sym i) ∙ h in
    (eq_iff to_state target).0 (no_issue (to_state == target) "E_EVENT011" "to" issue)
    ∙ ap (λ c. target_of c target) (sym (stop false refl))

-- A transition between known states, which leads where the command and the result status say.
pub IsTransition : (valid_from valid_to : List String) → Dict Json → (command : String) → Type 0
IsTransition valid_from valid_to event command =
    (m : Dict Scalar) × (from_state : String) × (to_state : String) × (value_of event "transition"
      ≡ object m)
    × (scalar_of m "from" ≡ text from_state)
    × (mem from_state valid_from ≡ true)
    × (scalar_of m "to" ≡ text to_state)
    × (mem to_state valid_to ≡ true)
    × ((target : String)
        → command_to command ≡ some target
        → to_state ≡ target_of (value_among stopped_texts (value_of event "result_status")) target)

object-IsTransition :
    (valid_from valid_to : List String) (event : Dict Json) (command : String) (m : Dict Scalar)
    → value_of event "command" ≡ scalar (text command)
    → value_of event "transition" ≡ object m
    → transition_issues valid_from valid_to event (object m) ≡ some []
    → IsTransition valid_from valid_to event command
unfolding transition_issues IsTransition expected_to command_target
object-IsTransition valid_from valid_to event command m c t h =
    let origin = issue_unless (scalar_in valid_from (scalar_of m "from")) "E_EVENT009" "from" in
    let goal = issue_unless (scalar_in valid_to (scalar_of m "to")) "E_EVENT010" "to" in
    let led =
      target_issue (expected_to (value_of event "command") (value_of event "result_status"))
        (scalar_of m "to") in
    let stopped = value_in stopped_texts (value_of event "result_status") in
    let (from_state, from_text, from_known) = in_texts valid_from (scalar_of m "from") (
      no_issue_unless (scalar_in valid_from (scalar_of m "from")) "E_EVENT009" "from"
        (both-left origin (both goal led) h)) in
    let rest = both-right origin (both goal led) h in
    let (to_state, to_text, to_known) = in_texts valid_to (scalar_of m "to") (
      no_issue_unless (scalar_in valid_to (scalar_of m "to")) "E_EVENT010" "to"
        (both-left goal led rest)) in
    let issue =
      ap (λ v. target_issue (expected_by (some (command_to command)) stopped) v) (sym to_text)
      ∙ ap (λ v. target_issue (expected_by (command_target v) stopped) (scalar_of m "to")) (sym c)
      ∙ both-right goal led rest in
    (
      m,
      from_state,
      to_state,
      t,
      from_text,
      from_known,
      to_text,
      to_known,
      reached command to_state stopped (value_among stopped_texts (value_of event "result_status"))
          (λ b. among stopped_texts (value_of event "result_status") b) issue,
    )

issues-IsTransition :
    (valid_from valid_to : List String) (event : Dict Json) (command : String) (v : Json)
    → value_of event "command" ≡ scalar (text command)
    → value_of event "transition" ≡ v
    → transition_issues valid_from valid_to event v ≡ some []
    → IsTransition valid_from valid_to event command
unfolding transition_issues
issues-IsTransition valid_from valid_to event command (object m) c t h =
    object-IsTransition valid_from valid_to event command m c t h
issues-IsTransition valid_from valid_to event command (scalar v) c t h = absurd (cc)
issues-IsTransition valid_from valid_to event command (array vs) c t h = absurd (cc)

pub IsAccepted :
    (valid_from valid_to : List String) (change_id : String) → Option (Dict Json) → Type 0
IsAccepted valid_from valid_to change_id none = ⊥
IsAccepted valid_from valid_to change_id (some event) =
    (value_of event "change_id" ≡ scalar (text change_id))
    × (is_change_id (value_of event "event_id") ≡ true)
    × (is_evidence (value_of event "evidence") ≡ true)
    × ((command : String) × (value_of event "command" ≡ scalar (text command))
        × IsTransition valid_from valid_to event command)

-- An event in which `validate_event` finds no issue is an object with the id of the change, an event
-- id and evidence in their forms, a command, and a transition from a state of the one list to a state
-- of the other; if the command is one of the lifecycle, the transition leads to the state of that
-- command, or leaves it unchanged if the result status is blocked or partial.
pub validate_event-IsAccepted :
    (valid_from valid_to : List String) (change_id : String) (event : Option (Dict Json))
    → validate_event valid_from valid_to change_id event ≡ some []
    → IsAccepted valid_from valid_to change_id event
unfolding validate_event object_issues IsAccepted
validate_event-IsAccepted valid_from valid_to change_id none h = absurd (cc)
validate_event-IsAccepted valid_from valid_to change_id (some event) h =
    let missing = issue_if (lacks_any required event) "E_EVENT002" "" in
    let version =
      issue_unless (is_version (value_of event "schema_version")) "E_EVENT003" "schema_version" in
    let ids = issue_if (not (is_change_id (value_of event "event_id"))) "E_EVENT004" "event_id" in
    let commands = issue_if (not (is_command (value_of event "command"))) "E_EVENT005" "command" in
    let changes =
      issue_if (not (is_same change_id (value_of event "change_id"))) "E_EVENT006" "change_id" in
    let texts = text_issues ("occurred_at" ∷ "actor" ∷ "summary" ∷ []) event in
    let transitions = transition_issues valid_from valid_to event (value_of event "transition") in
    let evidences =
      issue_if (not (is_evidence (value_of event "evidence"))) "E_EVENT012" "evidence" in
    let seconds =
      if is_second (value_of event "schema_version") then second_issues event else some [] in
    let from_evidences = both evidences seconds in
    let from_transitions = both transitions from_evidences in
    let from_texts = both texts from_transitions in
    let from_changes = both changes from_texts in
    let from_commands = both commands from_changes in
    let from_ids = both ids from_commands in
    let h_ids = both-right version from_ids (both-right missing (both version from_ids) h) in
    let h_commands = both-right ids from_commands h_ids in
    let h_changes = both-right commands from_changes h_commands in
    let h_texts = both-right changes from_texts h_changes in
    let h_transitions = both-right texts from_transitions h_texts in
    let h_evidences = both-right transitions from_evidences h_transitions in
    let (command, found) = a_command (value_of event "command") (
      no_issue (is_command (value_of event "command")) "E_EVENT005" "command"
        (both-left commands from_changes h_commands)) in
    (
      a_same change_id (value_of event "change_id") (
          no_issue (is_same change_id (value_of event "change_id")) "E_EVENT006" "change_id"
            (both-left changes from_texts h_changes)),
      no_issue (is_change_id (value_of event "event_id")) "E_EVENT004" "event_id"
          (both-left ids from_commands h_ids),
      no_issue (is_evidence (value_of event "evidence")) "E_EVENT012" "evidence"
          (both-left evidences seconds h_evidences),
      (
        command,
        found,
        issues-IsTransition valid_from valid_to event command (value_of event "transition") found
            refl (both-left transitions from_evidences h_transitions),
      ),
    )
