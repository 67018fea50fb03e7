-- ===== src/LoopRuntime/Session.antt =====
-- The state of a session as its JSON file keeps it, the manifests' `loop_continuation`, and the
-- errors (loop_runtime.py). A time is a number of microseconds.
use cairness.Base.{ℕ, String, Bool, Option, List}
use cairness.Base.Dict.{Dict}

pub data SessionStatus : Type 0 where
  active stopped completed : SessionStatus
  unsupported : String → SessionStatus

-- The status that a step is recorded with; `other` is any further text.
pub data StepStatus : Type 0 where
  passed blocked partly : StepStatus
  other : String → StepStatus

pub record PhaseTiming : Type 0 where
  pub elapsed_ms : ℕ
  pub active_ms : ℕ
  pub wait_ms : ℕ
  pub blocked_ms : ℕ
  pub tool_ms : ℕ
  pub verification_ms : ℕ

pub record Step : Type 0 where
  pub command : String
  pub status : StepStatus
  pub condition : String
  pub evidence : String
  pub at : ℕ
  pub next_command : Option String
  pub stop_reason : Option String
  pub phase : String
  pub phase_timing : PhaseTiming

pub record SessionState : Type 0 where
  pub schema_version : ℕ
  pub session_id : String
  pub change_id : String
  pub status : SessionStatus
  pub entry_command : String
  pub current_command : String
  pub expected_command : String
  pub started_at : ℕ
  pub updated_at : ℕ
  pub phase : String
  pub phase_started_at : ℕ
  pub phase_pause_started_at : Option ℕ
  pub phase_wait_ms : ℕ
  pub phase_blocked_ms : ℕ
  pub steps : List Step
  pub stop_reason : Option String

-- `loop_continuation` of a command's manifest.
pub record Continuation : Type 0 where
  pub on_pass : Option String
  pub stop_conditions : List String
  pub on_conditions : Dict String
  pub same_session : Bool

-- The manifest files, by command: nothing for a file that is missing or invalid, and in a manifest
-- nothing for a `loop_continuation` that is not an object.
abbrev pub Manifests : Type 0
Manifests = String → Option (Option Continuation)

-- The messages of `LoopRuntimeError`. `type_error` is Python's own, for a list looked up in a set.
pub data LoopError : Type 0 where
  not_loop_profile missing_config unreadable_config incomplete_envelope : LoopError
  unsupported_scope unsupported_risk type_error : LoopError
  not_a_text_list : (field : String) → LoopError
  invalid_session_id invalid_command invalid_change_id : String → LoopError
  invalid_manifest no_continuation : (command : String) → LoopError
  already_exists not_found invalid_state expected_drift : (session_id : String) → LoopError
  not_active paused already_paused not_paused : (session_id : String) → LoopError
  unexpected_command : (expected command : String) → LoopError
  invalid_status : LoopError
  unknown_condition : (command condition : String) → LoopError
  not_same_session : (command : String) → LoopError

pub data Outcome (A : Type 0) : Type 0 where
  ok : A → Outcome A
  raised : LoopError → Outcome A

abbrev pub and_then : {A B : Type 0} → Outcome A → (A → Outcome B) → Outcome B
and_then (ok a) f = f a
and_then (raised e) f = raised e
