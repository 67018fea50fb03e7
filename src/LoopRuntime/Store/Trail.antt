-- ===== src/LoopRuntime/Store/Trail.antt =====
-- The audit trail of a session against its recorded steps (loop_runtime.py).
use cairness.Base.{
  ℕ, String, ◌≡◌, refl, sym, ap, ◌∙◌, Option, none, some, List, [], ◌∷◌, ◌++◌, append-nil, ◌==◌,
  if◌then◌else◌, arith, Bool-cases, Option-cases, inl, inr, eq_iff,
}
use cairness.Base.Dict
use cairness.Base.Dict.{Dict, get-put}
use cairness.LoopRuntime.Config.{ConfigFile}
use cairness.LoopRuntime.Session.{StepStatus, Step, SessionState, Manifests, ok}
use cairness.LoopRuntime.Timing.{RuntimeEvent}
use cairness.LoopRuntime.Steps.{Decision, go_on, stop, Clock, advance, pause, resume}
use cairness.LoopRuntime.Store.{
  SessionFile, unreadable, session, AuditEvent, session_started, step_recorded, Project,
  fresh_state, recorded,
}
use cairness.LoopRuntime.Store.Requests.{
  Request, handle_all, Change, started, stepped, waited, went_on,
}
use cairness.LoopRuntime.Store.Kept.{handle_all-kept}

-- The steps in the audit file of a session.
unfoldable pub audited_steps : String → List (String × AuditEvent) → List Step
audited_steps id [] = []
audited_steps id ((x, session_started at change_id command) ∷ es) = audited_steps id es
audited_steps id ((x, step_recorded step) ∷ es) =
    let rest = audited_steps id es in if x == id then step ∷ rest else rest

abbrev pub stored_steps : Option SessionFile → List Step
stored_steps (some (session state)) = state.steps
stored_steps (some unreadable) = []
stored_steps none = []

abbrev pub AreAudited : Project → Type 0
AreAudited p = (id : String) → audited_steps id p.audit ≡ stored_steps (Dict.get p.sessions id)

audited_steps-append :
    (id : String) (es fs : List (String × AuditEvent))
    → audited_steps id (es ++ fs) ≡ audited_steps id es ++ audited_steps id fs
unfolding audited_steps
audited_steps-append id [] fs = refl
audited_steps-append id ((x, session_started at change_id command) ∷ es) fs =
    audited_steps-append id es fs
audited_steps-append id ((x, step_recorded step) ∷ es) fs = elim (Bool-cases (x == id)) [
  | inl same ↦ rw (same, audited_steps-append id es fs) refl
  | inr differ ↦ rw (differ, audited_steps-append id es fs) refl
]

-- One more audit event, of the session that is written.
put-AreAudited :
    (p : Project) (x : String) (state : SessionState) (es : List (String × AuditEvent))
    (more : List Step)
    → AreAudited p
    → ((id : String) → audited_steps id es ≡ (if x == id then more else []))
    → state.steps ≡ stored_steps (Dict.get p.sessions x) ++ more
    → (id : String)
    → audited_steps id (p.audit ++ es)
      ≡ stored_steps (Dict.get (Dict.put p.sessions x (session state)) id)
put-AreAudited p x state es more a adds grows id = elim (Bool-cases (x == id)) [
  | inl same ↦
      let here = (eq_iff x id).0 same in
      rw (audited_steps-append, adds, a id, get-put, same, grows, here) refl
  | inr differ ↦ rw (audited_steps-append, adds, a id, get-put, differ, append-nil) refl
]

recorded-advance :
    (clock : Clock) (events : List RuntimeEvent) (command : String) (status : StepStatus)
    (condition evidence : String) (d : Decision) (state : SessionState)
    → (advance clock events command status condition evidence d state).steps
      ≡ state.steps ++ recorded clock events command status condition evidence d state ∷ []
unfolding advance recorded
recorded-advance clock events command status condition evidence (go_on next) state = refl
recorded-advance clock events command status condition evidence (stop reason) state = refl

pause-steps :
    (now : ℕ) (state state' : SessionState)
    → pause now state ≡ ok state'
    → state'.steps ≡ state.steps ++ []
unfolding pause
pause-steps now state state' h = ground (arith, h, append-nil state.steps)

resume-steps :
    (now : ℕ) (state state' : SessionState)
    → resume now state ≡ ok state'
    → state'.steps ≡ state.steps ++ []
unfolding resume
resume-steps now state state' h = elim (Option-cases state.phase_pause_started_at) [
  | inl going ↦ absurd (ground (arith, h, going))
  | inr (paused_at, q) ↦ ground (arith, h, q, append-nil state.steps)
]

stored_steps-session :
    (o : Option SessionFile) (state : SessionState)
    → o ≡ some (session state)
    → state.steps ≡ stored_steps o
stored_steps-session o state e = sym (ap stored_steps e)

module _ (profile : Option String) (config : ConfigFile) (manifests : Manifests) where
  Change-AreAudited :
      {r : Request} {p p' : Project}
      → Change profile config manifests r p p'
      → AreAudited p
      → AreAudited p'
  unfolding audited_steps fresh_state
  Change-AreAudited {p = p} (started id' command' x change_id command now later m safe free read)
        a =
      put-AreAudited p x (fresh_state x change_id command now)
        ((x, session_started later change_id command) ∷ []) [] a (λ id. ground arith)
        (sym (ap (λ o. stored_steps o ++ []) free))
  Change-AreAudited {p = p}
        (stepped clock events x command status condition evidence s d there admitted) a =
      let step = recorded clock events command status condition evidence d s in
      put-AreAudited p x (advance clock events command status condition evidence d s)
        ((x, step_recorded step) ∷ []) (step ∷ []) a (λ id. refl)
        (recorded-advance clock events command status condition evidence d s
          ∙ ap (λ l. l ++ step ∷ []) (stored_steps-session (Dict.get p.sessions x) s there))
  Change-AreAudited {p = p} (waited x s s' now e there moved) a =
      put-AreAudited p x s' [] [] a (λ id. ground arith)
        (pause-steps now s s' moved
          ∙ ap (λ l. l ++ []) (stored_steps-session (Dict.get p.sessions x) s there))
  Change-AreAudited {p = p} (went_on x s s' now e there moved) a =
      put-AreAudited p x s' [] [] a (λ id. ground arith)
        (resume-steps now s s' moved
          ∙ ap (λ l. l ++ []) (stored_steps-session (Dict.get p.sessions x) s there))

  -- Whatever is requested, failing or not: the steps in the audit trail of a session stay those
  -- that its file has, in the same order.
  pub handle_all-AreAudited :
      (rs : List Request) (p : Project)
      → AreAudited p
      → AreAudited (handle_all profile config manifests rs p)
  handle_all-AreAudited rs p a =
      handle_all-kept profile config manifests AreAudited (λ r p p' c k. Change-AreAudited c k) rs p
        a
