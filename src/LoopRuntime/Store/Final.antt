-- ===== src/LoopRuntime/Store/Final.antt =====
-- A session that is stopped or completed does not change any more (loop_runtime.py).
use cairness.Base.{
  ℕ, String, ◌≡◌, ap, ◌∙◌, true, false, Option, some, List, ◌==◌, arith, Bool-cases, inl, inr,
  eq_iff,
}
use cairness.Base.Dict
use cairness.Base.Dict.{Dict, get-put}
use cairness.LoopRuntime.Config.{ConfigFile}
use cairness.LoopRuntime.Session.{SessionState, Manifests, ok}
use cairness.LoopRuntime.Steps.{is_active, advance, pause, resume}
use cairness.LoopRuntime.Store.{SessionFile, session, Project, fresh_state}
use cairness.LoopRuntime.Store.Requests.{
  Request, handle_all, Change, started, stepped, waited, went_on,
}
use cairness.LoopRuntime.Store.Kept.{handle_all-kept}

pause-active :
    (now : ℕ) (state state' : SessionState)
    → pause now state ≡ ok state'
    → is_active state.status ≡ true
unfolding pause
pause-active now state state' h = ground (arith, h)

resume-active :
    (now : ℕ) (state state' : SessionState)
    → resume now state ≡ ok state'
    → is_active state.status ≡ true
unfolding resume
resume-active now state state' h = ground (arith, h)

-- A file is written only where there is none, or an active session.
put-other :
    (m : Dict SessionFile) (x id : String) (f : SessionFile) (state : SessionState)
    → Dict.get m id ≡ some (session state)
    → ((Dict.get m x ≡ some (session state)) → ⊥)
    → Dict.get (Dict.put m x f) id ≡ some (session state)
put-other m x id f state there fresh = elim (Bool-cases (x == id)) [
  | inl same ↦ absurd (fresh (ap (Dict.get m) ((eq_iff x id).0 same) ∙ there))
  | inr differ ↦ rw (get-put, differ) there
]

module _ (profile : Option String) (config : ConfigFile) (manifests : Manifests) (id : String)
    (state : SessionState) (ended : is_active state.status ≡ false) where
  IsThere : Project → Type 0
  IsThere p = Dict.get p.sessions id ≡ some (session state)

  not_the_one :
      (p : Project) (x : String) (s : SessionState)
      → Dict.get p.sessions x ≡ some (session s)
      → is_active s.status ≡ true
      → Dict.get p.sessions x ≡ some (session state)
      → ⊥
  not_the_one p x s there runs here = ground (arith, there, here, runs, ended)

  Change-IsThere :
      {r : Request} {p p' : Project}
      → Change profile config manifests r p p'
      → IsThere p
      → IsThere p'
  unfolding IsThere
  Change-IsThere {p = p} (started id' command' x change_id command now later m safe free read) k =
      put-other p.sessions x id (session (fresh_state x change_id command now)) state k
        (λ h. ground (arith, h, free))
  Change-IsThere {p = p}
        (stepped clock events x command status condition evidence s d there admitted) k =
      put-other p.sessions x id
        (session (advance clock events command status condition evidence d s)) state k
        (not_the_one p x s there admitted.runs)
  Change-IsThere {p = p} (waited x s s' now e there moved) k =
      put-other p.sessions x id (session s') state k
        (not_the_one p x s there (pause-active now s s' moved))
  Change-IsThere {p = p} (went_on x s s' now e there moved) k =
      put-other p.sessions x id (session s') state k
        (not_the_one p x s there (resume-active now s s' moved))

-- A stored session that is stopped or completed stays as it is, whatever is requested, failing or
-- not, of it or of others.
pub handle_all-final :
    (profile : Option String) (config : ConfigFile) (manifests : Manifests) (id : String)
    (state : SessionState) (rs : List Request) (p : Project)
    → is_active state.status ≡ false
    → Dict.get p.sessions id ≡ some (session state)
    → Dict.get (handle_all profile config manifests rs p).sessions id ≡ some (session state)
unfolding IsThere
handle_all-final profile config manifests id state rs p ended there =
    handle_all-kept profile config manifests (IsThere profile config manifests id state ended)
      (λ r p p' c k. Change-IsThere profile config manifests id state ended c k) rs p there
