-- ===== src/Intents/Step.antt =====
-- The steps that the state of the changes allows, and the routes of `route_intent`
-- (intent_router.py) that lead to them.
use cairness.Base.{
  ◌≡◌, inl, inr, refl, sym, subst, String, Bool, true, false, Option, none, some, List, [], ◌∷◌,
  ◌==◌, eqb, arith, Bool-cases,
}
use cairness.Intents.State.{State, ids_with_status, open_count}
use cairness.Intents.Route.{
  Intent, new_project, change, review, fix, archive, status, command_of, Precondition, Route,
  single_route, single_change_route, new_work, proposed_route, review_route, resume_route,
  status_route, change_route, earlier_step, is_missing, named, finding_preconditions, with_findings,
  reviewed_route, reviewed_step, finish_review, held_up, intent_route, precondition, one_of,
}

-- A command that an intent may lead to, with the change that it is about.
pub data Step (state : State) : Intent → String → Option String → Type 0 where
  discover : Step state new_project "cc-new-project" none
  start : state.resumable_changes ≡ [] → Step state change "cc-propose" none
  resume :
      {id : String} → state.resumable_changes ≡ id ∷ [] → Step state change "cc-apply" (some id)
  go_on : {id : String} → state.resumable_changes ≡ id ∷ [] → Step state status "cc-apply" (some id)
  repair :
      {id : String}
      → state.resumable_changes ≡ []
      → ids_with_status state "review" ≡ id ∷ []
      → eqb (open_count state id) 0 ≡ false
      → Step state status "cc-fix" (some id)
  verify :
      {id : String}
      → state.resumable_changes ≡ []
      → ids_with_status state "review" ≡ id ∷ []
      → eqb (open_count state id) 0 ≡ true
      → Step state status "cc-test" (some id)
  implement :
      {id : String}
      → state.resumable_changes ≡ []
      → ids_with_status state "review" ≡ []
      → ids_with_status state "propose" ≡ id ∷ []
      → Step state status "cc-apply" (some id)
  initialize :
      state.resumable_changes ≡ []
      → ids_with_status state "review" ≡ []
      → ids_with_status state "propose" ≡ []
      → state.has_context ≡ false
      → Step state status "cc-init" none
  propose :
      state.resumable_changes ≡ []
      → ids_with_status state "review" ≡ []
      → ids_with_status state "propose" ≡ []
      → state.has_context ≡ true
      → Step state status "cc-propose" none
  look :
      {id : String}
      → ids_with_status state "review" ≡ id ∷ []
      → (id == "") ≡ false
      → Step state review "cc-review" (some id)
  correct :
      {id : String}
      → ids_with_status state "review" ≡ id ∷ []
      → (id == "") ≡ false
      → eqb (open_count state id) 0 ≡ false
      → Step state fix "cc-fix" (some id)
  close :
      {id : String}
      → ids_with_status state "review" ≡ id ∷ []
      → (id == "") ≡ false
      → eqb (open_count state id) 0 ≡ true
      → Step state archive "cc-archive" (some id)

-- A route that nothing holds up is a step.
unfoldable pub IsLegal : State → Intent → Route → Type 0
IsLegal state intent route =
    route.preconditions ≡ [] → Step state intent route.command route.change_id

change-IsLegal : (state : State) → IsLegal state change (change_route state.resumable_changes)
unfolding IsLegal change_route command_of
change-IsLegal state = by_ids state.resumable_changes refl
  where
    by_ids :
        (ids : List String)
        → state.resumable_changes ≡ ids
        → IsLegal state change (change_route ids)
    by_ids [] e h = start e
    by_ids (id ∷ []) e h = resume e
    by_ids (x ∷ y ∷ ids) e h = absurd (cc)

new-IsLegal :
    (state : State)
    → state.resumable_changes ≡ []
    → ids_with_status state "review" ≡ []
    → ids_with_status state "propose" ≡ []
    → IsLegal state status (new_work state.has_context)
unfolding IsLegal new_work
new-IsLegal state u v w = by_context state.has_context refl
  where
    by_context : (b : Bool) → state.has_context ≡ b → IsLegal state status (new_work b)
    by_context false e h = initialize u v w e
    by_context true e h = propose u v w e

proposed-IsLegal :
    (state : State)
    → state.resumable_changes ≡ []
    → ids_with_status state "review" ≡ []
    → IsLegal state status (proposed_route state.has_context (ids_with_status state "propose"))
unfolding IsLegal proposed_route
proposed-IsLegal state u v = by_ids (ids_with_status state "propose") refl
  where
    by_ids :
        (ids : List String)
        → ids_with_status state "propose" ≡ ids
        → IsLegal state status (proposed_route state.has_context ids)
    by_ids [] e h = new-IsLegal state u v e h
    by_ids (id ∷ []) e h = implement u v e
    by_ids (x ∷ y ∷ ids) e h = absurd (cc)

review-IsLegal :
    (state : State)
    → state.resumable_changes ≡ []
    → IsLegal state status (review_route state (ids_with_status state "review"))
unfolding IsLegal review_route reviewed_step
review-IsLegal state u = by_ids (ids_with_status state "review") refl
  where
    by_open :
        (id : String) (b : Bool)
        → ids_with_status state "review" ≡ id ∷ []
        → eqb (open_count state id) 0 ≡ b
        → IsLegal state status (reviewed_step id b)
    by_open id true e o h = verify u e o
    by_open id false e o h = repair u e o

    by_ids :
        (ids : List String)
        → ids_with_status state "review" ≡ ids
        → IsLegal state status (review_route state ids)
    by_ids [] e h = proposed-IsLegal state u e h
    by_ids (id ∷ []) e h = by_open id (eqb (open_count state id) 0) e refl h
    by_ids (x ∷ y ∷ ids) e h = absurd (cc)

status-IsLegal : (state : State) → IsLegal state status (status_route state)
unfolding IsLegal status_route resume_route
status-IsLegal state = by_ids state.resumable_changes refl
  where
    by_ids :
        (ids : List String)
        → state.resumable_changes ≡ ids
        → IsLegal state status (resume_route state ids)
    by_ids [] e h = review-IsLegal state e h
    by_ids (id ∷ []) e h = go_on e
    by_ids (x ∷ y ∷ ids) e h = absurd (cc)

-- What the intents that want one change in review ask of it.
IsReviewed : State → Intent → String → Type 0
IsReviewed state intent id =
    (ids_with_status state "review" ≡ id ∷ [])
    × ((id == "") ≡ false)
    × (finding_preconditions state intent id ≡ [])

earlier_step-full :
    (command : String) (xs ys : List String) (p : Precondition)
    → (q : Precondition) × (qs : List Precondition) × (earlier_step command xs ys (p ∷ []) ≡ q ∷ qs)
unfolding earlier_step
earlier_step-full command (id ∷ []) ys p = (_, _, refl)
earlier_step-full command [] (id ∷ []) p = (_, _, refl)
earlier_step-full command [] [] p = (_, _, refl)
earlier_step-full command [] (y ∷ z ∷ ys) p = (_, _, refl)
earlier_step-full command (w ∷ x ∷ xs) (id ∷ []) p = (_, _, refl)
earlier_step-full command (w ∷ x ∷ xs) [] p = (_, _, refl)
earlier_step-full command (w ∷ x ∷ xs) (y ∷ z ∷ ys) p = (_, _, refl)

route-IsReviewed :
    (state : State) (intent : Intent)
    → (reviewed_route state intent).preconditions ≡ []
    → (id : String) × IsReviewed state intent id
      × ((reviewed_route state intent).change_id ≡ some id)
unfolding IsReviewed reviewed_route finish_review held_up single_change_route single_route
    with_findings named is_missing
route-IsReviewed state intent = by_ids (ids_with_status state "review") refl
  where
    by_ids :
        (ids : List String)
        → ids_with_status state "review" ≡ ids
        → (finish_review state intent
            (single_route "review" (command_of intent) "Changes in review state" ids)).preconditions
          ≡ []
        → (id : String) × IsReviewed state intent id
          × ((finish_review state intent
                (single_route "review" (command_of intent) "Changes in review state" ids)).change_id
              ≡ some id)
    by_ids [] e h =
        let route = single_route "review" (command_of intent) "Changes in review state" [] in
        let (q, qs, full) =
          earlier_step-full route.command (ids_with_status state "apply")
            (ids_with_status state "propose")
            (precondition "E_START103" (one_of (command_of intent))
              "No change is currently in review state.") in
        absurd (cc (h, full))
    by_ids (id ∷ []) e h = elim (Bool-cases (id == "")) [
      | inl b ↦ absurd (ground (arith, h, b))
      | inr b ↦ (id, (e, b, ground (arith, h, b)), refl)
    ]
    by_ids (x ∷ y ∷ ids) e h = absurd (cc)

reviewed-command :
    (state : State) (intent : Intent) → (reviewed_route state intent).command ≡ command_of intent
unfolding reviewed_route finish_review single_change_route single_route
reviewed-command state intent = by_ids (ids_with_status state "review")
  where
    by_ids :
        (ids : List String)
        → (single_route "review" (command_of intent) "Changes in review state" ids).command
          ≡ command_of intent
    by_ids [] = refl
    by_ids (id ∷ []) = refl
    by_ids (x ∷ y ∷ ids) = refl

-- The command and the change of a route that needs a change in review.
at_reviewed :
    (state : State) (intent : Intent)
    → ((id : String) → IsReviewed state intent id → Step state intent (command_of intent) (some id))
    → IsLegal state intent (reviewed_route state intent)
unfolding IsLegal
at_reviewed state intent step h =
    let (id, found, same) = route-IsReviewed state intent h in
    subst (λ c. Step state intent c (reviewed_route state intent).change_id)
      (sym (reviewed-command state intent))
      (subst (λ o. Step state intent (command_of intent) o) (sym same) (step id found))

fix-open :
    (state : State) (id : String)
    → finding_preconditions state fix id ≡ []
    → eqb (open_count state id) 0 ≡ false
unfolding finding_preconditions
fix-open state id h = elim (Bool-cases (eqb (open_count state id) 0)) [
  | inl e ↦ absurd (ground (arith, h, e))
  | inr e ↦ e
]

archive-clean :
    (state : State) (id : String)
    → finding_preconditions state archive id ≡ []
    → eqb (open_count state id) 0 ≡ true
unfolding finding_preconditions
archive-clean state id h = elim (Bool-cases (eqb (open_count state id) 0)) [
  | inl e ↦ e
  | inr e ↦ absurd (ground (arith, h, e))
]

pub intent-IsLegal :
    (state : State) (intent : Intent) → IsLegal state intent (intent_route state intent)
unfolding intent_route IsReviewed IsLegal command_of
intent-IsLegal state new_project h = discover
intent-IsLegal state change h = change-IsLegal state h
intent-IsLegal state status h = status-IsLegal state h
intent-IsLegal state review h = at_reviewed state review (λ id found. look (found.0) (found.1)) h
intent-IsLegal state fix h =
    at_reviewed state fix (λ id found. correct (found.0) (found.1) (fix-open state id (found.2))) h
intent-IsLegal state archive h =
    at_reviewed state archive
      (λ id found. close (found.0) (found.1) (archive-clean state id (found.2))) h
