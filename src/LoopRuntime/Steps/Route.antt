-- ===== src/LoopRuntime/Steps/Route.antt =====
-- The recorded steps of a session as a route through the manifests (loop_runtime.py).
use cairness.Base.{
  codes, ℕ, String, ◌≡◌, refl, true, false, Option, none, some, List, [], ◌∷◌, ◌++◌, if◌then◌else◌,
  arith, subst, Option-cases, inl, inr, ◌+◌,
}
use cairness.LoopRuntime.Ids.{matches_session_id, phase_for_command}
use cairness.LoopRuntime.Session.{StepStatus, Step, SessionState, Continuation, Manifests, ok}
use cairness.LoopRuntime.Timing.{RuntimeEvent, elapsed_between}
use cairness.LoopRuntime.Steps.{
  read_manifest, Decision, go_on, stop, decide, is_active, is_supported, expected_from, Clock,
  make_step, status_after, advance, pause, resume,
}
use cairness.LoopRuntime.Steps.Admit.{IsAdmitted, HasManifest}

abbrev pub get_or : String → Option String → String
get_or d none = d
get_or d (some t) = t

-- The decision that a step's last two fields tell.
abbrev pub decision_of : Option String → Option String → Decision
decision_of (some next) reason = go_on next
decision_of none reason = stop (get_or "" reason)

-- A step is what its command's manifest decides.
pub record IsDecided (manifests : Manifests) (s : Step) : Type 0 where
  pub manifest : Option Continuation
  pub read : read_manifest manifests s.command ≡ ok manifest
  pub decided :
      decide s.command s.status s.condition manifest ≡ ok (decision_of s.next_command s.stop_reason)

-- Each step is that of the command that is expected after the steps before it, so that only the
-- last step can stop.
abbrev pub IsRoute : Manifests → Option String → List Step → Type 0
IsRoute manifests expected [] = Unit
IsRoute manifests expected (s ∷ ss) =
    (expected ≡ some s.command) × IsDecided manifests s × IsRoute manifests s.next_command ss

-- What a stored session keeps to.
pub record IsSession (manifests : Manifests) (id : String) (state : SessionState) : Type 0 where
  pub safe : matches_session_id (codes id) ≡ true
  pub versioned : state.schema_version ≡ 1
  pub named : state.session_id ≡ id
  pub supported : is_supported state.status ≡ true
  pub route : IsRoute manifests (some state.entry_command) state.steps
  pub expects :
      expected_from (some state.entry_command) state.steps
      ≡ (if is_active state.status then some state.expected_command else none)
  pub runnable :
      is_active state.status ≡ true
      → (state.current_command ≡ state.expected_command)
        × (state.phase ≡ phase_for_command state.expected_command)
        × HasManifest manifests (some state.expected_command)

expected_from-append :
    (d : Option String) (ss : List Step) (s : Step)
    → expected_from d (ss ++ s ∷ []) ≡ s.next_command
unfolding expected_from
expected_from-append d [] s = refl
expected_from-append d (t ∷ ss) s = expected_from-append t.next_command ss s

IsRoute-append :
    (manifests : Manifests) (d : Option String) (ss : List Step) (s : Step)
    → IsRoute manifests d ss
    → expected_from d ss ≡ some s.command
    → IsDecided manifests s
    → IsRoute manifests d (ss ++ s ∷ [])
unfolding expected_from
IsRoute-append manifests d [] s r e k = (e, k, tt)
IsRoute-append manifests d (t ∷ ss) s r e k =
    (r.0, r.1, IsRoute-append manifests t.next_command ss s r.2 e k)

status_after-supported : (reason : String) → is_supported (status_after reason) ≡ true
unfolding status_after is_supported
status_after-supported reason = ground arith

status_after-inactive : (reason : String) → is_active (status_after reason) ≡ false
unfolding status_after is_active
status_after-inactive reason = ground arith

-- An admitted step keeps it.
module _ (manifests : Manifests) (id : String) (clock : Clock) (events : List RuntimeEvent)
    (command : String) (status : StepStatus) (condition evidence : String) where
  continues :
      (state : SessionState)
      → IsSession manifests id state
      → is_active state.status ≡ true
      → command ≡ state.expected_command
      → expected_from (some state.entry_command) state.steps ≡ some command
  continues state s runs expected = ground (arith, s.expects, runs, expected)

  pub advance-IsSession :
      (d : Decision) (state : SessionState)
      → IsSession manifests id state
      → IsAdmitted manifests command status condition state d
      → IsSession manifests id (advance clock events command status condition evidence d state)
  unfolding advance make_step is_active is_supported
  advance-IsSession (go_on next) state s a =
      let step = make_step clock events command status condition evidence (some next) none state in
      record {
        safe = s.safe;
        versioned = s.versioned;
        named = s.named;
        supported = refl;
        route =
            IsRoute-append manifests (some state.entry_command) state.steps step s.route
              (continues state s a.runs a.expected)
              (record { manifest = a.manifest; read = a.read; decided = a.decided });
        expects = expected_from-append (some state.entry_command) state.steps step;
        runnable = λ h. (refl, refl, a.goes_on);
      }
  advance-IsSession (stop reason) state s a =
      let step =
        make_step clock events command status condition evidence none (some reason) state in
      record {
        safe = s.safe;
        versioned = s.versioned;
        named = s.named;
        supported = status_after-supported reason;
        route =
            IsRoute-append manifests (some state.entry_command) state.steps step s.route
              (continues state s a.runs a.expected)
              (record { manifest = a.manifest; read = a.read; decided = a.decided });
        expects =
            rw (status_after-inactive reason)
              (expected_from-append (some state.entry_command) state.steps step);
        runnable = λ h. absurd (ground (arith, h, status_after-inactive reason));
      }

pub pause-IsSession :
    (manifests : Manifests) (id : String) (now : ℕ) (state state' : SessionState)
    → IsSession manifests id state
    → pause now state ≡ ok state'
    → IsSession manifests id state'
unfolding pause
pause-IsSession manifests id now state state' s h =
    subst (IsSession manifests id)
      {x = record state { phase_pause_started_at = some now; updated_at = now }} (ground (arith, h))
      (record {
        safe = s.safe;
        versioned = s.versioned;
        named = s.named;
        supported = s.supported;
        route = s.route;
        expects = s.expects;
        runnable = s.runnable;
      })

pub resume-IsSession :
    (manifests : Manifests) (id : String) (now : ℕ) (state state' : SessionState)
    → IsSession manifests id state
    → resume now state ≡ ok state'
    → IsSession manifests id state'
unfolding resume
resume-IsSession manifests id now state state' s h =
    elim (Option-cases state.phase_pause_started_at) [
      | inl going ↦ absurd (ground (arith, h, going))
      | inr (paused_at, p) ↦
          subst (IsSession manifests id)
            {x = record state {
              phase_wait_ms = state.phase_wait_ms + elapsed_between paused_at now;
              phase_pause_started_at = none;
              updated_at = now;
            }}
            (ground (arith, h, p))
            (record {
              safe = s.safe;
              versioned = s.versioned;
              named = s.named;
              supported = s.supported;
              route = s.route;
              expects = s.expects;
              runnable = s.runnable;
            })
    ]
