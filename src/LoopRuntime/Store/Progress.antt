-- ===== src/LoopRuntime/Store/Progress.antt =====
-- An active session can always be brought to its end (loop_runtime.py).
use cairness.Base.{String, ◌≡◌, refl, true, Option, none, some, List, [], ◌∷◌, ◌++◌, arith, eq_iff}
use cairness.Base.Dict
use cairness.Base.Dict.{Dict, get-put}
use cairness.LoopRuntime.Config.{ConfigFile, require_loop_enabled}
use cairness.LoopRuntime.Session.{stopped, blocked, SessionState, Manifests, ok}
use cairness.LoopRuntime.Timing.{RuntimeEvent}
use cairness.LoopRuntime.Steps.{stop, is_active, Clock, make_step, advance, status_after}
use cairness.LoopRuntime.Steps.Admit.{admit_step-blocked}
use cairness.LoopRuntime.Store.{session, Project, write_step, with_session, record_step}
use cairness.LoopRuntime.Store.Kept.{AreSessions, load_state-accepts}

module _ (profile : Option String) (config : ConfigFile) (manifests : Manifests) where
  record_step-blocked :
      (clock : Clock) (events : List RuntimeEvent) (id condition evidence : String)
      (state : SessionState) (p : Project)
      → require_loop_enabled profile config ≡ ok tt
      → AreSessions manifests p
      → Dict.get p.sessions id ≡ some (session state)
      → is_active state.status ≡ true
      → state.phase_pause_started_at ≡ none
      → record_step profile config manifests clock events id state.expected_command blocked
          condition evidence p
        ≡ ok (
            write_step clock events id state.expected_command blocked condition evidence state p
              (stop "command_status_blocked"))
  unfolding record_step with_session
  record_step-blocked clock events id condition evidence state p enabled a there runs unpaused =
      let (m, read) = ((a id state there).runnable runs).2 in
      rw (record_step, enabled, load_state-accepts manifests p id state a there)
        (rw (admit_step-blocked manifests condition state m runs unpaused read) refl)

  -- While the loop is enabled and the sessions keep to the manifests, a step of the expected command
  -- with status `blocked` is accepted for every stored session that is active and not paused,
  -- whatever its condition is: it is appended to the session's steps, with its stop reason and no
  -- next command, and stops the session.
  pub record_step-stops :
      (clock : Clock) (events : List RuntimeEvent) (id condition evidence : String)
      (state : SessionState) (p : Project)
      → require_loop_enabled profile config ≡ ok tt
      → AreSessions manifests p
      → Dict.get p.sessions id ≡ some (session state)
      → is_active state.status ≡ true
      → state.phase_pause_started_at ≡ none
      → (p' : Project) × (state' : SessionState) × (record_step profile config manifests clock
            events id state.expected_command blocked condition evidence p
          ≡ ok p')
        × (Dict.get p'.sessions id ≡ some (session state'))
        × (state'.steps
            ≡ state.steps
              ++ make_step clock events state.expected_command blocked condition evidence none
                  (some "command_status_blocked")
                  state
                ∷ [])
        × (state'.status ≡ stopped)
        × (state'.stop_reason ≡ some "command_status_blocked")
  unfolding advance status_after
  record_step-stops clock events id condition evidence state p enabled a there runs unpaused =
      let reason = stop "command_status_blocked" in
      let state' =
        advance clock events state.expected_command blocked condition evidence reason state in
      (
        write_step clock events id state.expected_command blocked condition evidence state p reason,
        state',
        record_step-blocked clock events id condition evidence state p enabled a there runs
            unpaused,
        rw get-put (ground (arith, eq_iff id id)),
        refl,
        refl,
        refl,
      )
