-- ===== src/Intents/Route.antt =====
-- `_single_change_route`, `_status_route` and `route_intent` (intent_router.py).
use cairness.Base.{
  String, Bool, true, false, Option, none, some, List, [], ◌∷◌, ◌++◌, ◌==◌, if◌then◌else◌, eqb,
  join_texts,
}
use cairness.Intents.State.{State, ids_with_status, open_count}

pub data Intent : Type 0 where
  new_project change review fix archive status : Intent

unfoldable pub command_of : Intent → String
command_of new_project = "cc-new-project"
command_of change = "cc-propose"
command_of review = "cc-review"
command_of fix = "cc-fix"
command_of archive = "cc-archive"
command_of status = ""

unfoldable pub reason_of : Intent → String
reason_of new_project = "The explicit new-project intent routes to project discovery."
reason_of change = "The explicit change intent routes to the proposal lifecycle."
reason_of review = "The explicit review intent routes to review without changing state."
reason_of fix = "The explicit fix intent routes to the fix lifecycle."
reason_of archive = "The explicit archive intent routes to the archive lifecycle."
reason_of status =
    "The status intent inspects persisted project state and recommends a legal next command."

unfoldable pub parse_intent : String → Option Intent
parse_intent s =
    if s == "new-project"
    then some new_project
    else if s == "change"
    then some change
    else if s == "review"
    then some review
    else if s == "fix"
    then some fix
    else if s == "archive"
    then some archive
    else if s == "status"
    then some status
    else none

pub record Precondition : Type 0 where
  pub code : String
  pub command : String
  pub message : String

pub record Route : Type 0 where
  pub command : String
  pub args : List String
  pub change_id : Option String
  pub reason : String
  pub preconditions : List Precondition

-- `", ".join(ids)`
abbrev commas : List String → String
commas [] = ""
commas (x ∷ []) = x
commas (x ∷ y ∷ ys) = join_texts x (join_texts ", " (commas (y ∷ ys)))

abbrev pub precondition : String → String → String → Precondition
precondition code command message = record { code = code; command = command; message = message }

-- A route to one change.
abbrev pub to_change : String → String → String → Route
to_change command id reason = record {
  command = command;
  args = id ∷ [];
  change_id = some id;
  reason = reason;
  preconditions = [];
}

-- A route that waits for a precondition.
abbrev pub waits : String → String → Precondition → Route
waits command reason p = record {
  command = command;
  args = [];
  change_id = none;
  reason = reason;
  preconditions = p ∷ [];
}

-- A route without a change.
abbrev pub to_new : String → List String → String → Route
to_new command args reason = record {
  command = command;
  args = args;
  change_id = none;
  reason = reason;
  preconditions = [];
}

abbrev pub one_of : String → String
one_of command = join_texts command " <change-id>"

unfoldable pub single_route :
    (wanted command ambiguous_message : String) (candidates : List String) → Route
single_route wanted command ambiguous_message (id ∷ []) = to_change command id ""
single_route wanted command ambiguous_message (x ∷ y ∷ ids) = waits command "" (
    precondition "E_START102" (one_of command)
      (join_texts ambiguous_message (join_texts ": " (join_texts (commas (x ∷ y ∷ ids)) "."))))
single_route wanted command ambiguous_message [] = waits command "" (
    precondition "E_START103" (one_of command)
      (join_texts "No change is currently in " (join_texts wanted " state.")))

unfoldable pub single_change_route : State → (wanted command ambiguous_message : String) → Route
unfolding single_route
single_change_route state wanted command ambiguous_message =
    single_route wanted command ambiguous_message (ids_with_status state wanted)

-- `_status_route` with no change under way.
unfoldable pub new_work : (has_context : Bool) → Route
new_work false =
    to_new "cc-init" []
      "No active change or project context was found; initialize the project context first."
new_work true =
    to_new "cc-propose" ("<requirement-description>" ∷ [])
      "No active change was found; provide a requirement to start a proposal."

unfoldable pub proposed_route : (has_context : Bool) (proposed : List String) → Route
unfolding new_work
proposed_route has_context (id ∷ []) =
    to_change "cc-apply" id (
      join_texts "Change " (join_texts id " is proposed and is the next implementation candidate."))
proposed_route has_context (x ∷ y ∷ ids) =
    waits "cc-apply" "Multiple changes are proposed; choose one before implementation." (
      precondition "E_START102" "cc-apply <change-id>"
        (join_texts "Proposed changes: " (join_texts (commas (x ∷ y ∷ ids)) ".")))
proposed_route has_context [] = new_work has_context

unfoldable pub reviewed_step : (id : String) (is_clean : Bool) → Route
reviewed_step id true =
    to_change "cc-test" id (
      join_texts "Change " (join_texts id " is in review with no open findings; route to cc-test."))
reviewed_step id false =
    to_change "cc-fix" id
      (join_texts "Change " (join_texts id " is in review with open findings; route to cc-fix."))

unfoldable pub review_route : State → (review_ids : List String) → Route
unfolding proposed_route open_count reviewed_step
review_route state (id ∷ []) = reviewed_step id (eqb (open_count state id) 0)
review_route state (x ∷ y ∷ ids) =
    waits "cc-review" "Multiple changes are in review state; choose one before continuing." (
      precondition "E_START102" "cc-review <change-id>"
        (join_texts "Review changes: " (join_texts (commas (x ∷ y ∷ ids)) ".")))
review_route state [] = proposed_route state.has_context (ids_with_status state "propose")

unfoldable pub resume_route : State → (resumable : List String) → Route
unfolding review_route
resume_route state (id ∷ []) =
    to_change "cc-apply" id
      (join_texts "Change " (join_texts id " is in apply state and can be resumed."))
resume_route state (x ∷ y ∷ ids) =
    waits "cc-apply" "Multiple changes are in apply state; choose one before resuming." (
      precondition "E_START102" "cc-apply <change-id>"
        (join_texts "Resumable changes: " (join_texts (commas (x ∷ y ∷ ids)) ".")))
resume_route state [] = review_route state (ids_with_status state "review")

unfoldable pub status_route : State → Route
unfolding resume_route
status_route state = resume_route state state.resumable_changes

-- `intent == "change"`
unfoldable pub change_route : (resumable : List String) → Route
unfolding reason_of command_of
change_route (id ∷ []) = to_change "cc-apply" id (
    join_texts "Detected change " (
      join_texts id
        " in persisted apply state; route to cc-apply to resume the interrupted implementation."))
change_route (x ∷ y ∷ ids) =
    waits "cc-apply"
      "Detected multiple changes in persisted apply state; select one change before resuming implementation."
      (precondition "E_START102" "cc-apply <change-id>" (
        join_texts "More than one change can be resumed: " (join_texts (commas (x ∷ y ∷ ids)) ".")))
change_route [] = to_new (command_of change) ("<requirement-description>" ∷ []) (reason_of change)

-- What has to come first when no change is in review.
unfoldable pub earlier_step :
    (command : String) (apply_ids propose_ids : List String) → List Precondition → List Precondition
earlier_step command (id ∷ []) propose_ids ps =
    precondition "E_START106" (join_texts "cc-apply " id) (
      join_texts "Change " (
        join_texts id (
          join_texts " is still in apply state; complete or resume it before "
            (join_texts command "."))))
    ∷ []
earlier_step command _ (id ∷ []) ps =
    precondition "E_START106" (join_texts "cc-apply " id) (
      join_texts "Change " (
        join_texts id
          (join_texts " is still in propose state; run cc-apply before " (join_texts command "."))))
    ∷ []
earlier_step command _ _ ps = ps

-- `route_preconditions[0]["code"] == "E_START103"`
unfoldable pub is_missing : Option String → List Precondition → Bool
is_missing none (p ∷ ps) = p.code == "E_START103"
is_missing none [] = false
is_missing (some id) ps = false

-- `if change_id`: the empty text does not count.
unfoldable pub named : Option String → Option String
named none = none
named (some id) = if id == "" then none else some id

unfoldable pub finding_preconditions : State → Intent → String → List Precondition
unfolding open_count
finding_preconditions state fix id =
    if eqb (open_count state id) 0
    then precondition "E_START104" (join_texts "cc-review " id)
        (join_texts "Change " (join_texts id " has no open review finding to fix."))
      ∷ []
    else []
finding_preconditions state archive id =
    if eqb (open_count state id) 0
    then []
    else precondition "E_START105" (join_texts "cc-fix " id)
        (join_texts "Change " (join_texts id " still has open review findings."))
      ∷ []
finding_preconditions state _ id = []

unfoldable pub with_findings :
    State → Intent → Option String → List Precondition → List Precondition
unfolding finding_preconditions command_of
with_findings state intent (some id) ps = ps ++ finding_preconditions state intent id
with_findings state intent none (p ∷ ps) = p ∷ ps
with_findings state intent none [] =
    precondition "E_START103" (one_of (command_of intent)) "A review-state change is required." ∷ []

-- The preconditions, once the step that comes first is known.
unfoldable pub held_up : State → Route → List Precondition
unfolding is_missing earlier_step ids_with_status
held_up state route =
    if is_missing route.change_id route.preconditions
    then earlier_step route.command (ids_with_status state "apply")
        (ids_with_status state "propose") route.preconditions
    else route.preconditions

unfoldable pub finish_review : State → Intent → Route → Route
unfolding held_up with_findings named reason_of
finish_review state intent route = record route {
  reason = reason_of intent;
  preconditions = with_findings state intent (named route.change_id) (held_up state route);
}

-- `intent in {"review", "fix", "archive"}`
unfoldable pub reviewed_route : State → Intent → Route
unfolding single_change_route finish_review command_of
reviewed_route state intent =
    finish_review state intent
      (single_change_route state "review" (command_of intent) "Changes in review state")

unfoldable pub intent_route : State → Intent → Route
unfolding status_route change_route reviewed_route command_of reason_of
intent_route state new_project =
    to_new (command_of new_project) ("<project-idea>" ∷ []) (reason_of new_project)
intent_route state change = change_route state.resumable_changes
intent_route state status = status_route state
intent_route state review = reviewed_route state review
intent_route state fix = reviewed_route state fix
intent_route state archive = reviewed_route state archive

pub record Report : Type 0 where
  pub is_ready : Bool
  pub intent : Intent
  pub route : Route
  pub preconditions : List Precondition
  pub next_action : String

-- `" ".join([command, *command_args])`
abbrev pub spaced : String → List String → String
spaced command [] = command
spaced command (a ∷ args) = join_texts command (join_texts " " (spaced a args))

abbrev onboard : Precondition
onboard =
    precondition "E_START101" "cc-cairn onboard"
      "Cairness must be onboarded before invoking the routed command."

unfoldable pub all_preconditions :
    (framework_installed : Bool) → List Precondition → List Precondition
all_preconditions true ps = ps
all_preconditions false ps = onboard ∷ ps

unfoldable pub report_of : Intent → Route → List Precondition → Report
report_of intent route [] = record {
  is_ready = true;
  intent = intent;
  route = route;
  preconditions = [];
  next_action = spaced route.command route.args;
}
report_of intent route (p ∷ ps) = record {
  is_ready = false;
  intent = intent;
  route = route;
  preconditions = p ∷ ps;
  next_action = p.command;
}

pub data RouteResult : Type 0 where
  unknown_intent : RouteResult
  no_directory : RouteResult
  reported : Report → RouteResult

unfoldable pub report : State → Intent → Report
unfolding report_of all_preconditions intent_route
report state intent =
    let route = intent_route state intent in
    report_of intent route (all_preconditions state.framework_installed route.preconditions)

-- There is no state if the project root is no directory.
unfoldable pub route_intent : Option State → String → RouteResult
unfolding parse_intent report
route_intent state s = elim (parse_intent s) [
  | none ↦ unknown_intent
  | some intent ↦ elim state [ none ↦ no_directory | some st ↦ reported (report st intent) ]
]
