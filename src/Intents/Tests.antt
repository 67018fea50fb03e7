-- ===== src/Intents/Tests.antt =====
-- The theorem about `route_intent` at a project with one change in review.
use cairness.Base.{◌≡◌, refl, String, Bool, true, false, Option, none, some, [], ◌∷◌}
use cairness.Base.Dict.{get, keys}
use cairness.Base.Sorting.{sorted}
use cairness.Intents.State.{Discovered, State, state_of, ids_with_status, with_status, open_count}
use cairness.Intents.Route.{fix, report, spaced}
use cairness.Intents.Step.{Step, correct}
use cairness.Intents.Legal.{report-Step}

abbrev login : Discovered
login = record { status = "review"; findings = some ("open" ∷ "closed" ∷ []) }

abbrev logout : Discovered
logout = record { status = "propose"; findings = none }

abbrev no_name : String → Bool
no_name d = false

abbrev any_prefix : String → Bool
any_prefix d = true

abbrev project : State
project =
    state_of (("login", login) ∷ ("logout", logout) ∷ []) ("login" ∷ "logout" ∷ []) no_name
      any_prefix none true

report-Step_example :
    ((report project fix).is_ready ≡ true
      → (project.framework_installed ≡ true)
        × Step project fix (report project fix).route.command (report project fix).route.change_id
        × ((report project fix).next_action
            ≡ spaced (report project fix).route.command (report project fix).route.args))
    × ((command : String) (change_id : Option String)
        → project.framework_installed ≡ true
        → Step project fix command change_id
        → ((report project fix).is_ready ≡ true)
          × ((report project fix).route.command ≡ command)
          × ((report project fix).route.change_id ≡ change_id))
report-Step_example = report-Step project fix

-- The change in review has an open finding.
correct_step : Step project fix "cc-fix" (some "login")
unfolding state_of ids_with_status with_status open_count sorted keys get
correct_step = correct refl refl refl
