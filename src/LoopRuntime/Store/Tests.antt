-- ===== src/LoopRuntime/Store/Tests.antt =====
-- The theorems about sessions on a project in which one loop is started, advanced, paused, resumed
-- and stopped (loop_runtime.py).
use cairness.Base.{
  codes, String, ◌≡◌, refl, true, false, none, some, List, [], ◌∷◌, ◌++◌, ◌==◌, if◌then◌else◌,
}
use cairness.Base.Dict
use cairness.Base.Dict.{Dict, get, put}
use cairness.LoopRuntime.Ids.{
  matches_session_id, matches_command, matches_change_id, phase_for_command,
}
use cairness.LoopRuntime.Config.{ConfigFile, parsed, text, texts, require_loop_enabled}
use cairness.LoopRuntime.Session.{
  active, stopped, completed, passed, blocked, Step, SessionState, Manifests, ok,
}
use cairness.LoopRuntime.Timing.{elapsed_between, runtime_durations, phase_timing}
use cairness.LoopRuntime.Steps.{
  safe_command, read_manifest, go_on_safe, decide, decide_passed, decide_condition, accept_next,
  check_next, is_active, is_supported, expected_from, is_blocked, is_valid_status, choose,
  admit_command, admit_step, step_timing, make_step, status_after, advance, pause, resume,
}
use cairness.LoopRuntime.Steps.Route.{IsSession}
use cairness.LoopRuntime.Store.{
  session, Project, safe_session_id, same_command, check_state, check_file, load_state, fresh_state,
  recorded, phase_events, pause_loaded, resume_loaded, create_named, create, start_named,
  start_session, with_session, record_step, pause_session, resume_session,
}
use cairness.LoopRuntime.Store.Requests.{
  Request, start_request, record_request, pause_request, resume_request, attempt, handle,
  handle_all,
}
use cairness.LoopRuntime.Store.Kept.{AreSessions, handle_all-AreSessions, handle_all-loads}
use cairness.LoopRuntime.Store.Final.{handle_all-final}
use cairness.LoopRuntime.Store.Trail.{AreAudited, audited_steps, handle_all-AreAudited}
use cairness.LoopRuntime.Store.Progress.{record_step-stops}

-- The manifests of apply, review and archive.
abbrev flow : Manifests
flow command =
    if command == "cc-apply"
    then some (
        some (record {
          on_pass = some "cc-review";
          stop_conditions = "scope_exceeded" ∷ [];
          on_conditions = [];
          same_session = true;
        }))
    else if command == "cc-review"
    then some (
        some (record {
          on_pass = some "cc-archive";
          stop_conditions = [];
          on_conditions = ("auto_fixable_open_findings", "cc-apply") ∷ [];
          same_session = true;
        }))
    else if command == "cc-archive"
    then some none
    else none

abbrev config : ConfigFile
config = parsed (some 1) (
    some (record {
      max_scope = some (text "small");
      max_residual_risk = some (text "low");
      allowed_change_types = some (texts ("feature" ∷ []));
      disallowed_change_types = some (texts []);
    }))

abbrev id : String
id = "loop-0001"

abbrev empty : Project
empty = record { sessions = []; audit = []; phase_audit = [] }

abbrev requests : List Request
requests =
    start_request id "add-login" "cc-apply" 1000 1000
    ∷ record_request (record { at = 5000; next_at = 6000; updated_at = 6000; spent_ms = 1 }) [] id
        "cc-apply" passed "" "done"
    ∷ pause_request id 8000
    ∷ resume_request id 9000
    ∷ []

empty-AreSessions : AreSessions flow empty
unfolding get
empty-AreSessions x state there = absurd (cc)

empty-AreAudited : AreAudited empty
unfolding get audited_steps
empty-AreAudited x = refl

-- A proof that runs requests names this on its `unfolding` line.
unfoldable loop : Unit {0}
unfolding codes matches_session_id matches_command matches_change_id phase_for_command
    require_loop_enabled elapsed_between runtime_durations phase_timing safe_command read_manifest
    go_on_safe decide decide_passed decide_condition accept_next check_next is_active is_supported
    expected_from is_blocked is_valid_status choose admit_command admit_step step_timing make_step
    status_after advance pause resume safe_session_id same_command check_state check_file load_state
    fresh_state recorded phase_events pause_loaded resume_loaded create_named create start_named
    start_session with_session record_step pause_session resume_session attempt handle handle_all
    get put
loop = tt

abbrev begun : SessionState
begun = record {
  schema_version = 1;
  session_id = id;
  change_id = "add-login";
  status = active;
  entry_command = "cc-apply";
  current_command = "cc-apply";
  expected_command = "cc-apply";
  started_at = 1000;
  updated_at = 1000;
  phase = "apply";
  phase_started_at = 1000;
  phase_pause_started_at = none;
  phase_wait_ms = 0;
  phase_blocked_ms = 0;
  steps = [];
  stop_reason = none;
}

abbrev start : List Request
start = start_request id "add-login" "cc-apply" 1000 1000 ∷ []

start-begun :
    Dict.get (handle_all (some "loop") config flow start empty).sessions id ≡ some (session begun)
unfolding loop
start-begun = refl

enabled : require_loop_enabled (some "loop") config ≡ ok tt
unfolding loop
enabled = refl

abbrev ended : SessionState
ended = record begun { status = completed; expected_command = "" }

abbrev archived : Project
archived = record empty { sessions = (id, session ended) ∷ [] }

archived-ended : Dict.get archived.sessions id ≡ some (session ended)
unfolding get
archived-ended = refl

ended-inactive : is_active ended.status ≡ false
unfolding is_active
ended-inactive = refl

abbrev applied : Step
applied = record {
  command = "cc-apply";
  status = passed;
  condition = "";
  evidence = "done";
  at = 5000;
  next_command = some "cc-review";
  stop_reason = none;
  phase = "apply";
  phase_timing = record {
    elapsed_ms = 4;
    active_ms = 4;
    wait_ms = 0;
    blocked_ms = 0;
    tool_ms = 1;
    verification_ms = 0;
  };
}

abbrev in_review : SessionState
in_review = record begun {
  current_command = "cc-review";
  expected_command = "cc-review";
  updated_at = 9000;
  phase = "review";
  phase_started_at = 6000;
  phase_wait_ms = 1;
  steps = applied ∷ [];
}

requests-in_review :
    Dict.get (handle_all (some "loop") config flow requests empty).sessions id
    ≡ some (session in_review)
unfolding loop
requests-in_review = refl

handle_all-loads_example :
    IsSession flow id in_review
    × (load_state id (handle_all (some "loop") config flow requests empty) ≡ ok in_review)
handle_all-loads_example =
    handle_all-loads (some "loop") config flow requests empty id in_review refl requests-in_review

handle_all-final_example :
    Dict.get (handle_all (some "loop") config flow requests archived).sessions id
    ≡ some (session ended)
handle_all-final_example =
    handle_all-final (some "loop") config flow id ended requests archived ended-inactive
      archived-ended

handle_all-AreAudited_example : AreAudited (handle_all (some "loop") config flow requests empty)
handle_all-AreAudited_example =
    handle_all-AreAudited (some "loop") config flow requests empty empty-AreAudited

record_step-stops_example :
    (p' : Project) × (state' : SessionState) × (record_step
        (some "loop")
        config
        flow
        (record { at = 5000; next_at = 6000; updated_at = 6000; spent_ms = 1 })
        []
        id
        "cc-apply"
        blocked
        ""
        "no network"
        (handle_all (some "loop") config flow start empty)
      ≡ ok p')
    × (Dict.get p'.sessions id ≡ some (session state'))
    × (state'.steps
        ≡ begun.steps
          ++ make_step
              (record { at = 5000; next_at = 6000; updated_at = 6000; spent_ms = 1 })
              []
              begun.expected_command
              blocked
              ""
              "no network"
              none
              (some "command_status_blocked")
              begun
            ∷ [])
    × (state'.status ≡ stopped)
    × (state'.stop_reason ≡ some "command_status_blocked")
unfolding is_active
record_step-stops_example =
    record_step-stops (some "loop") config flow
      (record { at = 5000; next_at = 6000; updated_at = 6000; spent_ms = 1 }) [] id "" "no network"
      begun (handle_all (some "loop") config flow start empty) enabled
      (handle_all-AreSessions (some "loop") config flow start empty empty-AreSessions) start-begun
      refl refl

-- A second and a millisecond, as Python's floats have it.
a_thousand_and_one : elapsed_between 0 1001000 ≡ 1000
unfolding elapsed_between
a_thousand_and_one = refl

half_a_second : elapsed_between 0 500000 ≡ 500
unfolding elapsed_between
half_a_second = refl

an_hour : elapsed_between 7 3600123463 ≡ 3600123
unfolding elapsed_between
an_hour = refl
