-- ===== src/Intents/Legal.antt =====
-- Which commands `route_intent` (intent_router.py) may recommend.
use cairness.Base.{
  ◌≡◌, refl, sym, ap, subst, String, Bool, true, false, Option, none, some, List, [], ◌∷◌, ◌==◌,
  eqb, arith,
}
use cairness.Intents.State.{State, ids_with_status, open_count}
use cairness.Intents.Route.{
  Intent, review, fix, archive, command_of, Precondition, Route, single_route, single_change_route,
  new_work, proposed_route, review_route, resume_route, status_route, change_route, is_missing,
  named, finding_preconditions, with_findings, reviewed_route, reviewed_step, finish_review,
  held_up, intent_route, all_preconditions, report_of, report, spaced,
}
use cairness.Intents.Step.{
  Step, IsLegal, intent-IsLegal, discover, start, resume, go_on, repair, verify, implement,
  initialize, propose, look, correct, close,
}

-- What a route that leads to a command is like.
Leads : Route → String → Option String → Type 0
Leads route command change_id =
    (route.preconditions ≡ []) × (route.command ≡ command) × (route.change_id ≡ change_id)

reviewed-Leads :
    (state : State) (intent : Intent) (id : String)
    → ids_with_status state "review" ≡ id ∷ []
    → (id == "") ≡ false
    → finding_preconditions state intent id ≡ []
    → Leads (reviewed_route state intent) (command_of intent) (some id)
unfolding Leads reviewed_route finish_review held_up single_change_route single_route with_findings
    named is_missing
reviewed-Leads state intent id e b f =
    subst
      (λ ids.
        Leads
          (finish_review state intent
            (single_route "review" (command_of intent) "Changes in review state" ids))
          (command_of intent) (some id))
      (sym e) (ground (arith, b, f), refl, refl)

-- With nothing to resume, the status route is that of the reviews.
past_apply :
    (state : State) (c : String) (o : Option String)
    → state.resumable_changes ≡ []
    → Leads (review_route state (ids_with_status state "review")) c o
    → Leads (status_route state) c o
unfolding status_route resume_route
past_apply state c o u h = subst (λ ids. Leads (resume_route state ids) c o) (sym u) h

past_review :
    (state : State) (c : String) (o : Option String)
    → state.resumable_changes ≡ []
    → ids_with_status state "review" ≡ []
    → Leads (proposed_route state.has_context (ids_with_status state "propose")) c o
    → Leads (status_route state) c o
unfolding review_route
past_review state c o u v h =
    past_apply state c o u (subst (λ ids. Leads (review_route state ids) c o) (sym v) h)

past_proposed :
    (state : State) (c : String) (o : Option String)
    → state.resumable_changes ≡ []
    → ids_with_status state "review" ≡ []
    → ids_with_status state "propose" ≡ []
    → Leads (new_work state.has_context) c o
    → Leads (status_route state) c o
unfolding proposed_route
past_proposed state c o u v w h =
    past_review state c o u v
      (subst (λ ids. Leads (proposed_route state.has_context ids) c o) (sym w) h)

one_reviewed :
    (state : State) (id : String) (c : String) (b : Bool)
    → state.resumable_changes ≡ []
    → ids_with_status state "review" ≡ id ∷ []
    → eqb (open_count state id) 0 ≡ b
    → Leads (reviewed_step id b) c (some id)
    → Leads (status_route state) c (some id)
unfolding review_route
one_reviewed state id c b u e o h = past_apply state c (some id) u (
    subst (λ ids. Leads (review_route state ids) c (some id)) (sym e)
      (subst (λ t. Leads (reviewed_step id t) c (some id)) (sym o) h))

Step-Leads :
    {state : State} {intent : Intent} {command : String} {change_id : Option String}
    → Step state intent command change_id
    → Leads (intent_route state intent) command change_id
unfolding intent_route command_of Leads change_route resume_route status_route reviewed_step
    proposed_route new_work finding_preconditions
Step-Leads discover = (refl, refl, refl)
Step-Leads (start e) =
    subst (λ ids. Leads (change_route ids) "cc-propose" none) (sym e) (refl, refl, refl)
Step-Leads (resume {id} e) =
    subst (λ ids. Leads (change_route ids) "cc-apply" (some id)) (sym e) (refl, refl, refl)
Step-Leads {state} (go_on {id} e) =
    subst (λ ids. Leads (resume_route state ids) "cc-apply" (some id)) (sym e) (refl, refl, refl)
Step-Leads {state} (repair {id} u e o) =
    one_reviewed state id "cc-fix" false u e o (refl, refl, refl)
Step-Leads {state} (verify {id} u e o) =
    one_reviewed state id "cc-test" true u e o (refl, refl, refl)
Step-Leads {state} (implement {id} u v e) = past_review state "cc-apply" (some id) u v (
    subst (λ ids. Leads (proposed_route state.has_context ids) "cc-apply" (some id)) (sym e)
      (refl, refl, refl))
Step-Leads {state} (initialize u v w c) =
    past_proposed state "cc-init" none u v w
      (subst (λ b. Leads (new_work b) "cc-init" none) (sym c) (refl, refl, refl))
Step-Leads {state} (propose u v w c) =
    past_proposed state "cc-propose" none u v w
      (subst (λ b. Leads (new_work b) "cc-propose" none) (sym c) (refl, refl, refl))
Step-Leads {state} (look {id} e b) = reviewed-Leads state review id e b refl
Step-Leads {state} (correct {id} e b o) = reviewed-Leads state fix id e b (ground (arith, o))
Step-Leads {state} (close {id} e b o) = reviewed-Leads state archive id e b (ground (arith, o))

ready→installed :
    (b : Bool) (intent : Intent) (route : Route)
    → (report_of intent route (all_preconditions b route.preconditions)).is_ready ≡ true
    → (b ≡ true) × (route.preconditions ≡ [])
unfolding report_of all_preconditions
ready→installed false intent route h = absurd (cc)
ready→installed true intent route h = (refl, no_more route.preconditions h)
  where
    no_more : (ps : List Precondition) → (report_of intent route ps).is_ready ≡ true → ps ≡ []
    no_more [] e = refl
    no_more (p ∷ ps) e = absurd (cc)

free-IsReady :
    (b : Bool) (intent : Intent) (route : Route)
    → b ≡ true
    → route.preconditions ≡ []
    → report_of intent route (all_preconditions b route.preconditions) ≡ report_of intent route []
unfolding all_preconditions
free-IsReady true intent route h e = ap (report_of intent route) e
free-IsReady false intent route h e = absurd (cc)

ready→Step :
    (state : State) (intent : Intent)
    → (report state intent).is_ready ≡ true
    → (state.framework_installed ≡ true)
      × Step state intent (report state intent).route.command (report state intent).route.change_id
      × ((report state intent).next_action
          ≡ spaced (report state intent).route.command (report state intent).route.args)
unfolding report report_of IsLegal
ready→Step state intent h =
    let route = intent_route state intent in
    let (installed, free) = ready→installed state.framework_installed intent route h in
    let (legal, action) =
      subst
        (λ r.
          Step state intent r.route.command r.route.change_id
          × (r.next_action ≡ spaced r.route.command r.route.args))
        (sym (free-IsReady state.framework_installed intent route installed free))
        (intent-IsLegal state intent free, refl) in
    (installed, legal, action)

Step→ready :
    (state : State) (intent : Intent) (command : String) (change_id : Option String)
    → state.framework_installed ≡ true
    → Step state intent command change_id
    → ((report state intent).is_ready ≡ true)
      × ((report state intent).route.command ≡ command)
      × ((report state intent).route.change_id ≡ change_id)
unfolding report report_of Leads
Step→ready state intent command change_id installed step =
    let route = intent_route state intent in
    let (free, found, same) = Step-Leads step in
    subst (λ r. (r.is_ready ≡ true) × (r.route.command ≡ command) × (r.route.change_id ≡ change_id))
      (sym (free-IsReady state.framework_installed intent route installed free)) (refl, found, same)

-- A report is ready exactly when the framework is installed and the state of the changes allows a
-- step of the intent (one change to resume, one in review with or without open findings, one that
-- is proposed, or none): its command and change are those of the step, and the next action is the
-- command with its arguments.
pub report-Step :
    (state : State) (intent : Intent)
    → ((report state intent).is_ready ≡ true
        → (state.framework_installed ≡ true)
          × Step state intent
              (report state intent).route.command
              (report state intent).route.change_id
          × ((report state intent).next_action
              ≡ spaced (report state intent).route.command (report state intent).route.args))
      × ((command : String) (change_id : Option String)
          → state.framework_installed ≡ true
          → Step state intent command change_id
          → ((report state intent).is_ready ≡ true)
            × ((report state intent).route.command ≡ command)
            × ((report state intent).route.change_id ≡ change_id))
report-Step state intent = (ready→Step state intent, Step→ready state intent)
