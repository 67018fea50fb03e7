-- ===== src/LoopRuntime/Steps.antt =====
-- The decisions and the state changes of `record_step`, `pause_session` and `resume_session`
-- (loop_runtime.py), on a state that `_load_state` has accepted.
pub mod Admit
pub mod Route
use cairness.Base.{
  codes, ℕ, ◌+◌, String, Bool, true, false, not, ◌&&◌, Option, none, some, List, [], ◌∷◌, ◌++◌,
  ◌==◌, if◌then◌else◌, mem, max, is_given,
}
use cairness.Base.Dict
use cairness.LoopRuntime.Ids.{matches_command, phase_for_command}
use cairness.LoopRuntime.Session.{
  SessionStatus, active, stopped, completed, unsupported, StepStatus, passed, blocked, partly,
  other, PhaseTiming, Step, SessionState, Continuation, Manifests, LoopError, Outcome, ok, raised,
  and_then, invalid_command, invalid_manifest, not_active, paused, already_paused, not_paused,
  unexpected_command, invalid_status, unknown_condition, not_same_session,
}
use cairness.LoopRuntime.Timing.{elapsed_between, RuntimeEvent, runtime_durations, phase_timing}

-- `_safe_command`
unfoldable pub safe_command : String → Outcome String
safe_command command =
    if matches_command (codes command) then ok command else raised (invalid_command command)

-- `_manifest`
unfoldable pub read_manifest : Manifests → String → Outcome (Option Continuation)
read_manifest manifests command = and_then (safe_command command) (λ command.
    elim (manifests command) [ none ↦ raised (invalid_manifest command) | some m ↦ ok m ])

pub data Decision : Type 0 where
  go_on : (next_command : String) → Decision
  stop : (stop_reason : String) → Decision

-- A next command has to be one by its pattern.
unfoldable pub go_on_safe : String → Outcome Decision
go_on_safe command = and_then (safe_command command) (λ next. ok (go_on next))

-- `elif condition`
unfoldable pub decide_condition : String → String → Continuation → Outcome Decision
decide_condition command condition c =
    if mem condition c.stop_conditions
    then ok (stop condition)
    else elim (Dict.get c.on_conditions condition) [
      | some next ↦ go_on_safe next
      | none ↦ raised (unknown_condition command condition)
    ]

-- What follows a step that passed.
unfoldable pub decide_passed : String → String → Option Continuation → Outcome Decision
decide_passed command condition none = ok (stop "continuation_complete")
decide_passed command condition (some c) =
    if condition == ""
    then elim c.on_pass [ some next ↦ go_on_safe next | none ↦ ok (stop "continuation_complete") ]
    else decide_condition command condition c

unfoldable pub decide : String → StepStatus → String → Option Continuation → Outcome Decision
decide command passed condition continuation = decide_passed command condition continuation
decide command blocked condition continuation = ok (stop "command_status_blocked")
decide command partly condition continuation = ok (stop "command_status_partial")
decide command (other s) condition continuation = raised invalid_status

-- `same_session` of the next command's manifest.
unfoldable pub accept_next : String → Option Continuation → Outcome Decision
accept_next next none = ok (go_on next)
accept_next next (some c) =
    if c.same_session then ok (go_on next) else raised (not_same_session next)

-- The check of the next command before the state is changed.
unfoldable pub check_next : Manifests → Decision → Outcome Decision
unfolding accept_next
check_next manifests (stop reason) = ok (stop reason)
check_next manifests (go_on next) = and_then (read_manifest manifests next) (accept_next next)

unfoldable pub is_active : SessionStatus → Bool
is_active active = true
is_active _ = false

-- `steps[-1].get("next_command")`, or the default.
unfoldable pub expected_from : Option String → List Step → Option String
expected_from d [] = d
expected_from d (s ∷ ss) = expected_from s.next_command ss

unfoldable pub is_supported : SessionStatus → Bool
is_supported (unsupported s) = false
is_supported _ = true

unfoldable pub is_blocked : StepStatus → Bool
is_blocked blocked = true
is_blocked _ = false

unfoldable pub is_valid_status : StepStatus → Bool
is_valid_status (other s) = false
is_valid_status _ = true

-- The checks of `record_step`, and what they decide.
module _ (manifests : Manifests) where
  unfoldable pub choose : String → StepStatus → String → Outcome Decision
  choose command status condition =
      and_then (read_manifest manifests command)
        (λ m. and_then (decide command status condition m) (check_next manifests))

  unfoldable pub admit_command : StepStatus → String → SessionState → String → Outcome Decision
  admit_command status condition state command =
      if not (command == state.expected_command)
      then raised (unexpected_command state.expected_command command)
      else if is_given state.phase_pause_started_at
      then raised (paused state.session_id)
      else if not (is_valid_status status)
      then raised invalid_status
      else choose command status condition

  unfoldable pub admit_step : String → StepStatus → String → SessionState → Outcome Decision
  admit_step command status condition state =
      if not (is_active state.status)
      then raised (not_active state.session_id)
      else and_then (safe_command command) (admit_command status condition state)

-- The readings of the clock in `record_step`, in order, and the time that the call takes.
pub record Clock : Type 0 where
  pub at : ℕ
  pub next_at : ℕ
  pub updated_at : ℕ
  pub spent_ms : ℕ

-- `_record_phase_end`, less its audit.
unfoldable pub step_timing : Clock → List RuntimeEvent → StepStatus → SessionState → PhaseTiming
step_timing clock events status state =
    let (runtime_ms, verification_ms) = runtime_durations state.phase_started_at clock.at events in
    phase_timing state clock.at (is_blocked status) (max clock.spent_ms runtime_ms) verification_ms

-- `"completed" if stop_reason == "continuation_complete" else "stopped"`
unfoldable pub status_after : String → SessionStatus
status_after reason = if reason == "continuation_complete" then completed else stopped

module _ (clock : Clock) (events : List RuntimeEvent) (command : String) (status : StepStatus)
    (condition evidence : String) where
  unfoldable pub make_step : Option String → Option String → SessionState → Step
  make_step next_command stop_reason state = record {
    command = command;
    status = status;
    condition = condition;
    evidence = evidence;
    at = clock.at;
    next_command = next_command;
    stop_reason = stop_reason;
    phase = state.phase;
    phase_timing = step_timing clock events status state;
  }

  -- The new state.
  unfoldable pub advance : Decision → SessionState → SessionState
  advance (go_on next) state = record state {
    current_command = next;
    expected_command = next;
    status = active;
    steps = state.steps ++ make_step (some next) none state ∷ [];
    phase = phase_for_command next;
    phase_started_at = clock.next_at;
    phase_pause_started_at = none;
    phase_wait_ms = 0;
    phase_blocked_ms = 0;
    updated_at = clock.updated_at;
  }
  advance (stop reason) state = record state {
    current_command = command;
    expected_command = "";
    status = status_after reason;
    stop_reason = some reason;
    steps = state.steps ++ make_step none (some reason) state ∷ [];
    updated_at = clock.updated_at;
  }

unfoldable pub pause : ℕ → SessionState → Outcome SessionState
pause now state =
    if not (is_active state.status)
    then raised (not_active state.session_id)
    else if is_given state.phase_pause_started_at
    then raised (already_paused state.session_id)
    else ok (record state { phase_pause_started_at = some now; updated_at = now })

unfoldable pub resume : ℕ → SessionState → Outcome SessionState
resume now state =
    if not (is_active state.status)
    then raised (not_active state.session_id)
    else elim state.phase_pause_started_at [
      | none ↦ raised (not_paused state.session_id)
      | some paused_at ↦ ok (record state {
        phase_wait_ms = state.phase_wait_ms + elapsed_between paused_at now;
        phase_pause_started_at = none;
        updated_at = now;
      })
    ]
