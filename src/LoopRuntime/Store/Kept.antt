-- ===== src/LoopRuntime/Store/Kept.antt =====
-- Every sequence of requests keeps the stored sessions to the manifests (loop_runtime.py).
use cairness.Base.{
  codes, ℕ, String, ◌≡◌, refl, ap, true, Option, some, List, [], ◌∷◌, ◌==◌, arith, subst,
  Bool-cases, inl, inr, eq_iff, test_of_eq,
}
use cairness.Base.Dict
use cairness.Base.Dict.{Dict, get-put}
use cairness.LoopRuntime.Ids.{matches_session_id}
use cairness.LoopRuntime.Config.{ConfigFile}
use cairness.LoopRuntime.Session.{Continuation, SessionState, Manifests, Outcome, ok, raised}
use cairness.LoopRuntime.Steps.{read_manifest, is_active, is_supported, expected_from, advance}
use cairness.LoopRuntime.Steps.Route.{
  IsSession, advance-IsSession, pause-IsSession, resume-IsSession,
}
use cairness.LoopRuntime.Store.{
  session, Project, safe_session_id, check_state, check_file, load_state, fresh_state, same_command,
}
use cairness.LoopRuntime.Store.Requests.{
  Request, attempt, handle, handle_all, Change, started, stepped, waited, went_on, attempt-Change,
}

-- Each stored session is one that the manifests allow.
abbrev pub AreSessions : Manifests → Project → Type 0
AreSessions manifests p =
    (id : String) (state : SessionState)
    → Dict.get p.sessions id ≡ some (session state)
    → IsSession manifests id state

-- `p'` has `state` at `id` and what `p` has elsewhere.
put-AreSessions :
    (manifests : Manifests) (p : Project) (id : String) (state : SessionState)
    → AreSessions manifests p
    → IsSession manifests id state
    → (x : String) (s : SessionState)
    → Dict.get (Dict.put p.sessions id (session state)) x ≡ some (session s)
    → IsSession manifests x s
put-AreSessions manifests p id state a k x s there = elim (Bool-cases (id == x)) [
  | inl same ↦
      let equal : state ≡ s =
        ground (arith, there, same, get-put p.sessions id (session state) x) in
      subst (λ y. IsSession manifests y s) ((eq_iff id x).0 same)
        (subst (IsSession manifests id) equal k)
  | inr differ ↦ a x s (ground (arith, there, differ, get-put p.sessions id (session state) x))
]

fresh_state-IsSession :
    (manifests : Manifests) (id change_id command : String) (now : ℕ) (m : Option (Continuation))
    → matches_session_id (codes id) ≡ true
    → read_manifest manifests command ≡ ok m
    → IsSession manifests id (fresh_state id change_id command now)
unfolding fresh_state is_supported expected_from is_active
fresh_state-IsSession manifests id change_id command now m safe read = record {
  safe = safe;
  versioned = refl;
  named = refl;
  supported = refl;
  route = tt;
  expects = refl;
  runnable = λ h. (refl, refl, (m, read));
}

module _ (profile : Option String) (config : ConfigFile) (manifests : Manifests) where
  Change-AreSessions :
      {r : Request} {p p' : Project}
      → Change profile config manifests r p p'
      → AreSessions manifests p
      → AreSessions manifests p'
  Change-AreSessions {p = p} (started id' command' id change_id command now later m safe free read)
        a =
      put-AreSessions manifests p id (fresh_state id change_id command now) a
        (fresh_state-IsSession manifests id change_id command now m safe read)
  Change-AreSessions {p = p}
        (stepped clock events id command status condition evidence state d there admitted) a =
      put-AreSessions manifests p id
        (advance clock events command status condition evidence d state) a
        (advance-IsSession manifests id clock events command status condition evidence d state
          (a id state there) admitted)
  Change-AreSessions {p = p} (waited id state state' now e there moved) a =
      put-AreSessions manifests p id state' a
        (pause-IsSession manifests id now state state' (a id state there) moved)
  Change-AreSessions {p = p} (went_on id state state' now e there moved) a =
      put-AreSessions manifests p id state' a
        (resume-IsSession manifests id now state state' (a id state there) moved)

  -- A property of projects that each change keeps is kept by every request.
  handle-kept :
      (P : Project → Type 0)
      → ((r : Request) (p p' : Project) → Change profile config manifests r p p' → P p → P p')
      → (r : Request) (p : Project) → P p
      → P (handle profile config manifests r p)
  unfolding handle
  handle-kept P step r p k = kept (attempt profile config manifests r p) refl
    where
      kept :
          (o : Outcome Project)
          → attempt profile config manifests r p ≡ o
          → P (elim o [ ok p' ↦ p' | raised e ↦ p ])
      kept (ok p') e = step r p p' (attempt-Change profile config manifests r p p' e) k
      kept (raised err) e = k

  pub handle_all-kept :
      (P : Project → Type 0)
      → ((r : Request) (p p' : Project) → Change profile config manifests r p p' → P p → P p')
      → (rs : List Request) (p : Project) → P p
      → P (handle_all profile config manifests rs p)
  unfolding handle_all
  handle_all-kept P step [] p k = k
  handle_all-kept P step (r ∷ rs) p k =
      handle_all-kept P step rs (handle profile config manifests r p) (handle-kept P step r p k)

  -- Whatever is requested, failing or not: each stored session keeps to the manifests. Its steps
  -- are a route from the entry command on which each step is what its command's manifest decides,
  -- and while it is active, `expected_command` is what the route goes on to and has a manifest.
  pub handle_all-AreSessions :
      (rs : List Request) (p : Project)
      → AreSessions manifests p
      → AreSessions manifests (handle_all profile config manifests rs p)
  handle_all-AreSessions rs p a =
      handle_all-kept (AreSessions manifests) (λ r p p' c k. Change-AreSessions c k) rs p a

check_state-accepts :
    (manifests : Manifests) (id : String) (state : SessionState)
    → IsSession manifests id state
    → check_state id state ≡ ok state
unfolding check_state same_command
check_state-accepts manifests id state s = elim (Bool-cases (is_active state.status)) [
  | inr ended ↦
      ground (arith, s.versioned, test_of_eq state.session_id id s.named, s.supported, ended)
  | inl runs ↦
      let expects : expected_from (some state.entry_command) state.steps
          ≡ some state.expected_command =
        ground (arith, s.expects, runs) in
      rw
        (
          s.versioned,
          test_of_eq state.session_id id s.named,
          s.supported,
          runs,
          expects,
          check_state,
        )
        (ground (arith, eq_iff state.expected_command state.expected_command))
]

-- A session that keeps to the manifests is never refused by `_load_state`: no expected command
-- drifts. It is loaded as it was stored.
pub load_state-accepts :
    (manifests : Manifests) (p : Project) (id : String) (state : SessionState)
    → AreSessions manifests p
    → Dict.get p.sessions id ≡ some (session state)
    → load_state id p ≡ ok state
unfolding load_state safe_session_id check_file
load_state-accepts manifests p id state a there =
    let s = a id state there in
    rw (load_state, s.safe, there) (check_state-accepts manifests id state s)

-- From a project with no session on, whatever is requested, failing or not: every stored session
-- keeps to the manifests, and `_load_state` accepts it as it is stored, so that no expected command
-- ever drifts from the recorded steps.
pub handle_all-loads :
    (profile : Option String) (config : ConfigFile) (manifests : Manifests) (rs : List Request)
    (p : Project) (id : String) (state : SessionState)
    → p.sessions ≡ []
    → Dict.get (handle_all profile config manifests rs p).sessions id ≡ some (session state)
    → IsSession manifests id state
      × (load_state id (handle_all profile config manifests rs p) ≡ ok state)
unfolding Dict.get
handle_all-loads profile config manifests rs p id state empty there =
    let kept =
      handle_all-AreSessions profile config manifests rs p
        (λ x s h. absurd (ground (arith, h, ap (λ m. Dict.get m x) empty))) in
    (
      kept id state there,
      load_state-accepts manifests (handle_all profile config manifests rs p) id state kept there,
    )
