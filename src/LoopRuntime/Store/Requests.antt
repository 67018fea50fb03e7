-- ===== src/LoopRuntime/Store/Requests.antt =====
-- The requests to loop_runtime.py in sequence, and what one that succeeded has done.
use cairness.Base.{
  codes, ℕ, String, ◌≡◌, sym, ap, true, false, not, Option, none, some, List, [], ◌∷◌,
  if◌then◌else◌, arith, subst, Bool-cases, Option-cases, inl, inr,
}
use cairness.Base.Dict
use cairness.Base.Dict.{Dict, get-put}
use cairness.LoopRuntime.Ids.{matches_session_id, matches_change_id, phase_for_command}
use cairness.LoopRuntime.Config.{ConfigFile, require_loop_enabled}
use cairness.LoopRuntime.Session.{
  StepStatus, SessionState, Continuation, Manifests, Outcome, ok, raised, and_then,
  invalid_change_id,
}
use cairness.LoopRuntime.Timing.{RuntimeEvent}
use cairness.LoopRuntime.Steps.{
  safe_command, read_manifest, Decision, admit_step, Clock, pause, resume,
}
use cairness.LoopRuntime.Steps.Admit.{and_then-ok, IsAdmitted, admit_step-IsAdmitted}
use cairness.LoopRuntime.Store.{
  SessionFile, unreadable, session, session_started, PhaseEvent, phase_started, phase_paused,
  phase_resumed, Project, write, safe_session_id, check_state, check_file, load_state, fresh_state,
  create_named, create, start_named, start_session, write_step, with_session, pause_loaded,
  resume_loaded, record_step, pause_session, resume_session,
}

pub data Request : Type 0 where
  start_request : (id change_id command : String) (now later : ℕ) → Request
  record_request :
      (clock : Clock) (events : List RuntimeEvent) (id command : String) (status : StepStatus)
      (condition evidence : String)
      → Request
  pause_request : (id : String) (now : ℕ) → Request
  resume_request : (id : String) (now : ℕ) → Request

safe_session_id-ok :
    (id id' : String)
    → safe_session_id id ≡ ok id'
    → (id ≡ id') × (matches_session_id (codes id') ≡ true)
unfolding safe_session_id
safe_session_id-ok id id' h = elim (Bool-cases (matches_session_id (codes id))) [
  | inr f ↦ absurd (ground (arith, h, f))
  | inl t ↦
      let same : id ≡ id' = ground (arith, h, t) in
      (same, subst (λ x. matches_session_id (codes x) ≡ true) same t)
]

check_state-ok :
    (id : String) (state state' : SessionState) → check_state id state ≡ ok state' → state ≡ state'
unfolding check_state
check_state-ok id state state' h = ground (arith, h)

check_file-ok :
    (id : String) (file : Option SessionFile) (state : SessionState)
    → check_file id file ≡ ok state
    → file ≡ some (session state)
unfolding check_file
check_file-ok id none state h = absurd (cc)
check_file-ok id (some unreadable) state h = absurd (cc)
check_file-ok id (some (session s)) state h =
    ap (λ x. some (session x)) (check_state-ok id s state h)

-- A state that is loaded is the one in the file.
pub load_state-ok :
    (id : String) (p : Project) (state : SessionState)
    → load_state id p ≡ ok state
    → Dict.get p.sessions id ≡ some (session state)
unfolding load_state
load_state-ok id p state h =
    let (id', safe, checked) =
      and_then-ok (safe_session_id id) (λ id. check_file id (Dict.get p.sessions id)) state h in
    let (same, _) = safe_session_id-ok id id' safe in
    check_file-ok id (Dict.get p.sessions id) state
      (subst (λ x. check_file x (Dict.get p.sessions x) ≡ ok state) (sym same) checked)

module _ (profile : Option String) (config : ConfigFile) (manifests : Manifests) where
  unfoldable pub attempt : Request → Project → Outcome Project
  attempt (start_request id change_id command now later) p =
      start_session profile config manifests id change_id command now later p
  attempt (record_request clock events id command status condition evidence) p =
      record_step profile config manifests clock events id command status condition evidence p
  attempt (pause_request id now) p = pause_session profile config manifests id now p
  attempt (resume_request id now) p = resume_session profile config manifests id now p

  -- A request that raises has written nothing.
  abbrev or_same : Project → Outcome Project → Project
  or_same p (ok p') = p'
  or_same p (raised e) = p

  unfoldable pub handle : Request → Project → Project
  handle r p = or_same p (attempt r p)

  unfoldable pub handle_all : List Request → Project → Project
  handle_all [] p = p
  handle_all (r ∷ rs) p = handle_all rs (handle r p)

  -- What a request that succeeded did: a new session, or a step, a pause or a resumption of a
  -- session that is stored and active.
  pub data Change : Request → Project → Project → Type 0 where
    started :
        {p : Project} (id' command' id change_id command : String) (now later : ℕ)
        (m : Option Continuation)
        → matches_session_id (codes id) ≡ true
        → Dict.get p.sessions id ≡ none
        → read_manifest manifests command ≡ ok m
        → Change (start_request id' change_id command' now later) p (
            write id
              (fresh_state id change_id command now)
              (session_started later change_id command ∷ [])
              (phase_started now (phase_for_command command) command ∷ [])
              p)
    stepped :
        {p : Project} (clock : Clock) (events : List RuntimeEvent) (id command : String)
        (status : StepStatus) (condition evidence : String) (state : SessionState) (d : Decision)
        → Dict.get p.sessions id ≡ some (session state)
        → IsAdmitted manifests command status condition state d
        → Change
            (record_request clock events id command status condition evidence)
            p
            (write_step clock events id command status condition evidence state p d)
    waited :
        {p : Project} (id : String) (state state' : SessionState) (now : ℕ) (e : PhaseEvent)
        → Dict.get p.sessions id ≡ some (session state)
        → pause now state ≡ ok state'
        → Change (pause_request id now) p (write id state' [] (e ∷ []) p)
    went_on :
        {p : Project} (id : String) (state state' : SessionState) (now : ℕ) (e : PhaseEvent)
        → Dict.get p.sessions id ≡ some (session state)
        → resume now state ≡ ok state'
        → Change (resume_request id now) p (write id state' [] (e ∷ []) p)

  create_named-Change :
      (id' command' id change_id command : String) (now later : ℕ) (m : Option Continuation)
      (p p' : Project)
      → matches_session_id (codes id) ≡ true
      → read_manifest manifests command ≡ ok m
      → create_named change_id command now later p id ≡ ok p'
      → Change (start_request id' change_id command' now later) p p'
  unfolding create_named
  create_named-Change id' command' id change_id command now later m p p' fine read h =
      elim (Option-cases (Dict.get p.sessions id)) [
        | inr (file, there) ↦ absurd (ground (arith, h, there))
        | inl free ↦
            subst (Change (start_request id' change_id command' now later) p)
              (ground (arith, h, free))
              (started id' command' id change_id command now later m fine free read)
      ]

  create-Change :
      (id' command' id change_id command : String) (now later : ℕ) (m : Option Continuation)
      (p p' : Project)
      → read_manifest manifests command ≡ ok m
      → create id change_id command now later p m ≡ ok p'
      → Change (start_request id' change_id command' now later) p p'
  unfolding create
  create-Change id' command' id change_id command now later none p p' read h = absurd (cc)
  create-Change id' command' id change_id command now later (some c) p p' read h =
      let (drawn, safe, made) =
        and_then-ok (safe_session_id id) (create_named change_id command now later p) p' h in
      create_named-Change id' command' drawn change_id command now later (some c) p p'
        (safe_session_id-ok id drawn safe).1 read made

  start_session-Change :
      (id change_id command : String) (now later : ℕ) (p p' : Project)
      → start_session profile config manifests id change_id command now later p ≡ ok p'
      → Change (start_request id change_id command now later) p p'
  unfolding start_session start_named
  start_session-Change id change_id command now later p p' h =
      let (_, enabled, checked) =
        and_then-ok (require_loop_enabled profile config)
          (λ _.
            if not (matches_change_id false (codes change_id))
            then raised (invalid_change_id change_id)
            else and_then (safe_command command)
                (start_named profile config manifests id change_id now later p))
          p' h in
      let (c, safe, named) =
        and_then-ok (safe_command command)
          (start_named profile config manifests id change_id now later p) p'
          (ground (arith, checked)) in
      let (m, read, made) =
        and_then-ok (read_manifest manifests c) (create id change_id c now later p) p' named in
      create-Change id command id change_id c now later m p p' read made

  with_session-ok :
      (id : String) (p p' : Project) (f : SessionState → Outcome Project)
      → with_session profile config manifests id p f ≡ ok p'
      → (state : SessionState) × (Dict.get p.sessions id ≡ some (session state)) × (f state ≡ ok p')
  unfolding with_session
  with_session-ok id p p' f h =
      let (_, enabled, going) =
        and_then-ok (require_loop_enabled profile config) (λ _. and_then (load_state id p) f) p'
          h in
      let (state, loaded, done) = and_then-ok (load_state id p) f p' going in
      (state, load_state-ok id p state loaded, done)

  record_step-Change :
      (clock : Clock) (events : List RuntimeEvent) (id command : String) (status : StepStatus)
      (condition evidence : String) (p p' : Project)
      → record_step profile config manifests clock events id command status condition evidence p
        ≡ ok p'
      → Change (record_request clock events id command status condition evidence) p p'
  unfolding record_step
  record_step-Change clock events id command status condition evidence p p' h =
      let written : SessionState → Decision → Outcome Project =
        λ state d. ok (write_step clock events id command status condition evidence state p d) in
      let (state, there, going) =
        with_session-ok id p p'
          (λ state. and_then (admit_step manifests command status condition state) (written state))
          h in
      let (d, admitted, done) =
        and_then-ok (admit_step manifests command status condition state) (written state) p'
          going in
      subst (Change (record_request clock events id command status condition evidence) p)
        (ground (arith, done))
        (stepped clock events id command status condition evidence state d there
          (admit_step-IsAdmitted manifests command status condition state d admitted))

  pause_session-Change :
      (id : String) (now : ℕ) (p p' : Project)
      → pause_session profile config manifests id now p ≡ ok p'
      → Change (pause_request id now) p p'
  unfolding pause_session pause_loaded
  pause_session-Change id now p p' h =
      let (state, there, going) = with_session-ok id p p' (pause_loaded id now p) h in
      let (state', moved, done) =
        and_then-ok (pause now state)
          (λ s. ok (write id s [] (phase_paused now state.phase ∷ []) p)) p' going in
      subst (Change (pause_request id now) p) (ground (arith, done))
        (waited id state state' now (phase_paused now state.phase) there moved)

  resume_session-Change :
      (id : String) (now : ℕ) (p p' : Project)
      → resume_session profile config manifests id now p ≡ ok p'
      → Change (resume_request id now) p p'
  unfolding resume_session resume_loaded
  resume_session-Change id now p p' h =
      let (state, there, going) = with_session-ok id p p' (resume_loaded id now p) h in
      let (state', moved, done) =
        and_then-ok (resume now state)
          (λ s. ok (write id s [] (phase_resumed now state.phase s.phase_wait_ms ∷ []) p)) p'
          going in
      subst (Change (resume_request id now) p) (ground (arith, done)) (
        went_on id state state' now (phase_resumed now state.phase state'.phase_wait_ms) there
          moved)

  pub attempt-Change : (r : Request) (p p' : Project) → attempt r p ≡ ok p' → Change r p p'
  unfolding attempt
  attempt-Change (start_request id change_id command now later) p p' h =
      start_session-Change id change_id command now later p p' h
  attempt-Change (record_request clock events id command status condition evidence) p p' h =
      record_step-Change clock events id command status condition evidence p p' h
  attempt-Change (pause_request id now) p p' h = pause_session-Change id now p p' h
  attempt-Change (resume_request id now) p p' h = resume_session-Change id now p p' h
