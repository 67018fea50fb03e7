-- ===== src/LoopRuntime/Store.antt =====
-- `start_session`, `_load_state`, `record_step`, `pause_session` and `resume_session`
-- (loop_runtime.py) on the files of a project. A request that raises writes nothing.
pub mod Requests
pub mod Kept
pub mod Final
pub mod Trail
pub mod Progress
mod Tests
use cairness.Base.{
  codes, ℕ, String, Bool, true, false, not, ◌&&◌, Option, none, some, List, [], ◌∷◌, ◌++◌, ◌==◌,
  if◌then◌else◌, eqb, is_given, map,
}
use cairness.Base.Dict
use cairness.Base.Dict.{Dict}
use cairness.LoopRuntime.Ids.{matches_session_id, matches_change_id, phase_for_command}
use cairness.LoopRuntime.Config.{ConfigFile, require_loop_enabled}
use cairness.LoopRuntime.Session.{
  SessionStatus, active, stopped, completed, unsupported, StepStatus, PhaseTiming, Step,
  SessionState, Continuation, Manifests, LoopError, Outcome, ok, raised, and_then,
  invalid_session_id, invalid_change_id, no_continuation, already_exists, not_found, invalid_state,
  expected_drift,
}
use cairness.LoopRuntime.Timing.{RuntimeEvent}
use cairness.LoopRuntime.Steps.{
  safe_command, read_manifest, Decision, go_on, stop, is_active, is_supported, expected_from,
  admit_step, Clock, step_timing, make_step, advance, pause, resume,
}

-- What is at a session's path.
pub data SessionFile : Type 0 where
  unreadable : SessionFile
  session : SessionState → SessionFile

pub data AuditEvent : Type 0 where
  session_started : (at : ℕ) (change_id command : String) → AuditEvent
  step_recorded : (step : Step) → AuditEvent

pub data PhaseEvent : Type 0 where
  phase_started : (at : ℕ) (phase command : String) → PhaseEvent
  phase_ended : (at : ℕ) (phase : String) (status : StepStatus) (timing : PhaseTiming) → PhaseEvent
  phase_paused : (at : ℕ) (phase : String) → PhaseEvent
  phase_resumed : (at : ℕ) (phase : String) (wait_ms : ℕ) → PhaseEvent

-- The session files and the two audit trails, each entry with the session whose file it is in.
pub record Project : Type 0 where
  pub sessions : Dict SessionFile
  pub audit : List (String × AuditEvent)
  pub phase_audit : List (String × PhaseEvent)

unfoldable pub safe_session_id : String → Outcome String
safe_session_id id = if matches_session_id (codes id) then ok id else raised (invalid_session_id id)

unfoldable pub same_command : Option String → String → Bool
same_command none command = false
same_command (some expected) command = command == expected

-- The checks of `_load_state` on a state.
unfoldable pub check_state : String → SessionState → Outcome SessionState
unfolding is_supported same_command
check_state id state =
    if not (eqb state.schema_version 1 && state.session_id == id && is_supported state.status)
    then raised (invalid_state id)
    else if is_active state.status
        && not (
            same_command (expected_from (some state.entry_command) state.steps)
              state.expected_command)
    then raised (expected_drift id)
    else ok state

unfoldable pub check_file : String → Option SessionFile → Outcome SessionState
check_file id none = raised (not_found id)
check_file id (some unreadable) = raised (not_found id)
check_file id (some (session state)) = check_state id state

unfoldable pub load_state : String → Project → Outcome SessionState
unfolding check_file
load_state id p = and_then (safe_session_id id) (λ id. check_file id (Dict.get p.sessions id))

unfoldable pub fresh_state : String → String → String → ℕ → SessionState
fresh_state id change_id command now = record {
  schema_version = 1;
  session_id = id;
  change_id = change_id;
  status = active;
  entry_command = command;
  current_command = command;
  expected_command = command;
  started_at = now;
  updated_at = now;
  phase = phase_for_command command;
  phase_started_at = now;
  phase_pause_started_at = none;
  phase_wait_ms = 0;
  phase_blocked_ms = 0;
  steps = [];
  stop_reason = none;
}

-- `_write_json` of a session and the appended audits.
abbrev pub write : String → SessionState → List AuditEvent → List PhaseEvent → Project → Project
write id state audit phase_audit p = record {
  sessions = Dict.put p.sessions id (session state);
  audit = p.audit ++ map (λ e. (id, e)) audit;
  phase_audit = p.phase_audit ++ map (λ e. (id, e)) phase_audit;
}

-- The phase that a step ends, and the one that it starts.
unfoldable pub phase_events :
    Clock → List RuntimeEvent → StepStatus → Decision → SessionState → List PhaseEvent
phase_events clock events status d state =
    phase_ended clock.at state.phase status (step_timing clock events status state) ∷ elim d [
      | go_on next ↦ phase_started clock.next_at (phase_for_command next) next ∷ []
      | stop _ ↦ []
    ]

unfoldable pub recorded :
    Clock
    → List RuntimeEvent
    → String
    → StepStatus
    → String
    → String
    → Decision
    → SessionState
    → Step
recorded clock events command status condition evidence (go_on next) state =
    make_step clock events command status condition evidence (some next) none state
recorded clock events command status condition evidence (stop reason) state =
    make_step clock events command status condition evidence none (some reason) state

-- The new state and the audits of a step that was decided.
abbrev pub write_step :
    Clock
    → List RuntimeEvent
    → String
    → String
    → StepStatus
    → String
    → String
    → SessionState
    → Project
    → Decision
    → Project
write_step clock events id command status condition evidence state p d =
    write id (advance clock events command status condition evidence d state)
      (step_recorded (recorded clock events command status condition evidence d state) ∷ [])
      (phase_events clock events status d state) p

unfoldable pub pause_loaded : String → ℕ → Project → SessionState → Outcome Project
pause_loaded id now p state =
    and_then (pause now state)
      (λ state'. ok (write id state' [] (phase_paused now state.phase ∷ []) p))

unfoldable pub resume_loaded : String → ℕ → Project → SessionState → Outcome Project
resume_loaded id now p state =
    and_then (resume now state) (λ state'.
      ok (write id state' [] (phase_resumed now state.phase state'.phase_wait_ms ∷ []) p))

-- With the id that was given or drawn.
unfoldable pub create_named : String → String → ℕ → ℕ → Project → String → Outcome Project
unfolding fresh_state
create_named change_id command now later p id =
    if is_given (Dict.get p.sessions id)
    then raised (already_exists id)
    else ok (
        write id (fresh_state id change_id command now)
          (session_started later change_id command ∷ [])
          (phase_started now (phase_for_command command) command ∷ []) p)

-- `loop_continuation` has to be an object.
unfoldable pub create :
    String → String → String → ℕ → ℕ → Project → Option Continuation → Outcome Project
create id change_id command now later p none = raised (no_continuation command)
create id change_id command now later p (some _) =
    and_then (safe_session_id id) (create_named change_id command now later p)

-- `profile`, the config file and the manifests do not change.
module _ (profile : Option String) (config : ConfigFile) (manifests : Manifests) where
  unfoldable pub start_named : String → String → ℕ → ℕ → Project → String → Outcome Project
  start_named id change_id now later p command =
      and_then (read_manifest manifests command) (create id change_id command now later p)

  unfoldable pub start_session : String → String → String → ℕ → ℕ → Project → Outcome Project
  start_session id change_id command now later p =
      and_then (require_loop_enabled profile config) (λ _.
        if not (matches_change_id false (codes change_id))
        then raised (invalid_change_id change_id)
        else and_then (safe_command command) (start_named id change_id now later p))

  -- How the other requests begin.
  unfoldable pub with_session :
      String → Project → (SessionState → Outcome Project) → Outcome Project
  with_session id p f =
      and_then (require_loop_enabled profile config) (λ _. and_then (load_state id p) f)

  unfoldable pub record_step :
      Clock
      → List RuntimeEvent
      → String
      → String
      → StepStatus
      → String
      → String
      → Project
      → Outcome Project
  record_step clock events id command status condition evidence p = with_session id p (λ state.
      and_then (admit_step manifests command status condition state)
        (λ d. ok (write_step clock events id command status condition evidence state p d)))

  unfoldable pub pause_session : String → ℕ → Project → Outcome Project
  pause_session id now p = with_session id p (pause_loaded id now p)

  unfoldable pub resume_session : String → ℕ → Project → Outcome Project
  resume_session id now p = with_session id p (resume_loaded id now p)
