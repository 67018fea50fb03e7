-- ===== src/LoopRuntime/Steps/Admit.antt =====
-- What a step that `record_step` admits has passed, and that a blocked step is always admitted.
use cairness.Base.{
  codes, String, ◌≡◌, refl, sym, true, false, Option, none, some, eq_iff, arith, Bool-cases, inl,
  inr, is_given, subst,
}
use cairness.LoopRuntime.Ids.{matches_command}
use cairness.LoopRuntime.Session.{
  StepStatus, blocked, Continuation, Manifests, Outcome, ok, raised, and_then, SessionState,
}
use cairness.LoopRuntime.Steps.{
  safe_command, read_manifest, Decision, go_on, stop, decide, check_next, accept_next, is_active,
  is_valid_status, admit_step, admit_command, choose,
}

-- What an `and_then` that succeeded went through.
pub and_then-ok :
    {A B : Type 0} (o : Outcome A) (f : A → Outcome B) (b : B)
    → and_then o f ≡ ok b
    → (a : A) × (o ≡ ok a) × (f a ≡ ok b)
and_then-ok (ok a) f b h = (a, refl, h)
and_then-ok (raised e) f b h = absurd (cc)

pub safe_command-ok : (c c' : String) → safe_command c ≡ ok c' → c ≡ c'
unfolding safe_command
safe_command-ok c c' h = ground (arith, h)

pub read_manifest-safe :
    (manifests : Manifests) (c : String) (m : Option Continuation)
    → read_manifest manifests c ≡ ok m
    → safe_command c ≡ ok c
unfolding read_manifest safe_command
read_manifest-safe manifests c m h = elim (Bool-cases (matches_command (codes c))) [
  | inl t ↦ ground (arith, t)
  | inr f ↦ absurd (ground (arith, h, f))
]

-- Where a decision goes on to.
abbrev pub next_of : Decision → Option String
next_of (go_on next) = some next
next_of (stop reason) = none

-- The next command has a manifest.
abbrev pub HasManifest : Manifests → Option String → Type 0
HasManifest manifests none = Unit
HasManifest manifests (some next) =
    (m : Option Continuation) × (read_manifest manifests next ≡ ok m)

accept_next-ok :
    (next : String) (m : Option Continuation) (d : Decision)
    → accept_next next m ≡ ok d
    → go_on next ≡ d
unfolding accept_next
accept_next-ok next none d h = ground (arith, h)
accept_next-ok next (some c) d h = ground (arith, h)

check_next-ok :
    (manifests : Manifests) (d d' : Decision)
    → check_next manifests d ≡ ok d'
    → (d ≡ d') × HasManifest manifests (next_of d')
unfolding check_next
check_next-ok manifests (stop reason) d' h =
    let same : stop reason ≡ d' = ground (arith, h) in
    (same, subst (λ e. HasManifest manifests (next_of e)) same tt)
check_next-ok manifests (go_on next) d' h =
    let (m, read, accepted) = and_then-ok (read_manifest manifests next) (accept_next next) d' h in
    let same = accept_next-ok next m d' accepted in
    (same, subst (λ e. HasManifest manifests (next_of e)) same (m, read))

pub record IsAdmitted (manifests : Manifests) (command : String) (status : StepStatus)
    (condition : String) (state : SessionState) (d : Decision) : Type 0 where
  pub runs : is_active state.status ≡ true
  pub expected : command ≡ state.expected_command
  pub unpaused : state.phase_pause_started_at ≡ none
  pub manifest : Option Continuation
  pub read : read_manifest manifests command ≡ ok manifest
  pub decided : decide command status condition manifest ≡ ok d
  pub goes_on : HasManifest manifests (next_of d)

none_of_given : {A : Type 0} (o : Option A) → is_given o ≡ false → o ≡ none
none_of_given none h = refl
none_of_given (some a) h = absurd (cc)

choose-ok :
    (manifests : Manifests) (command : String) (status : StepStatus) (condition : String)
    (d : Decision)
    → choose manifests command status condition ≡ ok d
    → (m : Option Continuation) × (read_manifest manifests command ≡ ok m)
      × (decide command status condition m ≡ ok d)
      × HasManifest manifests (next_of d)
unfolding choose
choose-ok manifests command status condition d h =
    let (m, read, rest) =
      and_then-ok (read_manifest manifests command)
        (λ m. and_then (decide command status condition m) (check_next manifests)) d h in
    let (d', decided, next) =
      and_then-ok (decide command status condition m) (check_next manifests) d rest in
    let (same, goes_on) = check_next-ok manifests d' d next in
    (m, read, subst (λ e. decide command status condition m ≡ ok e) same decided, goes_on)

admit_command-IsAdmitted :
    (manifests : Manifests) (command : String) (status : StepStatus) (condition : String)
    (state : SessionState) (d : Decision)
    → is_active state.status ≡ true
    → admit_command manifests status condition state command ≡ ok d
    → IsAdmitted manifests command status condition state d
unfolding admit_command
admit_command-IsAdmitted manifests command status condition state d runs h =
    let (m, read, decided, goes_on) =
      choose-ok manifests command status condition d (ground (arith, h)) in
    record {
      runs = runs;
      expected = ground (arith, h, eq_iff command state.expected_command);
      unpaused = none_of_given state.phase_pause_started_at (ground (arith, h));
      manifest = m;
      read = read;
      decided = decided;
      goes_on = goes_on;
    }

-- An admitted step has passed every check.
pub admit_step-IsAdmitted :
    (manifests : Manifests) (command : String) (status : StepStatus) (condition : String)
    (state : SessionState) (d : Decision)
    → admit_step manifests command status condition state ≡ ok d
    → IsAdmitted manifests command status condition state d
unfolding admit_step
admit_step-IsAdmitted manifests command status condition state d h =
    elim (Bool-cases (is_active state.status)) [
      | inr f ↦ absurd (ground (arith, h, f))
      | inl runs ↦
          let (c, safe, admitted) =
            and_then-ok (safe_command command) (admit_command manifests status condition state) d
              (ground (arith, h, runs)) in
          subst (λ x. IsAdmitted manifests x status condition state d)
            (sym (safe_command-ok command c safe))
            (admit_command-IsAdmitted manifests c status condition state d runs admitted)
    ]

choose-blocked :
    (manifests : Manifests) (command condition : String) (m : Option Continuation)
    → read_manifest manifests command ≡ ok m
    → choose manifests command blocked condition ≡ ok (stop "command_status_blocked")
unfolding choose decide check_next
choose-blocked manifests command condition m read = rw (read, choose) refl

admit_command-blocked :
    (manifests : Manifests) (condition : String) (state : SessionState) (m : Option Continuation)
    → state.phase_pause_started_at ≡ none
    → read_manifest manifests state.expected_command ≡ ok m
    → admit_command manifests blocked condition state state.expected_command
      ≡ ok (stop "command_status_blocked")
unfolding admit_command is_valid_status
admit_command-blocked manifests condition state m unpaused read = ground (
  arith,
  unpaused,
  choose-blocked manifests state.expected_command condition m read,
  eq_iff state.expected_command state.expected_command,
)

-- A blocked step is admitted with any condition, and stops.
pub admit_step-blocked :
    (manifests : Manifests) (condition : String) (state : SessionState) (m : Option Continuation)
    → is_active state.status ≡ true
    → state.phase_pause_started_at ≡ none
    → read_manifest manifests state.expected_command ≡ ok m
    → admit_step manifests state.expected_command blocked condition state
      ≡ ok (stop "command_status_blocked")
unfolding admit_step
admit_step-blocked manifests condition state m runs unpaused read =
    rw (runs, admit_step)
      (rw (read_manifest-safe manifests state.expected_command m read)
        (admit_command-blocked manifests condition state m unpaused read))
