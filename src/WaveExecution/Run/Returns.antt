-- ===== src/WaveExecution/Run/Returns.antt =====
-- A wave can always end (wave_execution.py): whatever has happened, some moves of the threads let
-- `execute_wave` return.
use cairness.Base.{
  ℕ, ◌≤◌, ◌<◌, String, ◌≡◌, ◌≢◌, refl, subst, Bool, true, none, List, [], ◌∷◌, ◌++◌, length, min,
  count, arith,
}
use cairness.Base.Dict
use cairness.Base.Dict.{Dict}
use cairness.WaveExecution.Ledger.{ok, is_empty}
use cairness.WaveExecution.Outcome.{FutureResult}
use cairness.WaveExecution.Pool.{Pool, Event, run, submitted}
use cairness.WaveExecution.Pool.Synced.{IsSynced, run-IsSynced}
use cairness.WaveExecution.Pool.Kept.{run-IsKept}
use cairness.WaveExecution.Pool.Drained.{work, drain, run-append}
use cairness.WaveExecution.Run.{returned, WaveExecutionResult, Cleanup, is_drained, execute_wave}
use cairness.WaveExecution.Run.Fresh.{
  fresh, new_ledger-ok, fresh-IsCounted, submitted-IsSynced, keys-fresh_entries,
}
use cairness.WaveExecution.Run.Joins.{IsJoined, drained-ended, close_and_join-ended}

no_items : (xs : List String) → length xs ≡ 0 → is_empty xs ≡ true
unfolding is_empty
no_items [] h = refl
no_items (x ∷ xs) h = absurd (omega (arith, h))

no_keys : (m : Dict FutureResult) → length m ≡ 0 → is_empty (Dict.keys m) ≡ true
unfolding is_empty Dict.keys
no_keys [] h = refl
no_keys ((x, r) ∷ m) h = absurd (omega (arith, h))

no_work-drained : (p : Pool) → work p ≡ 0 → is_drained p ≡ true
unfolding is_drained
no_work-drained p h = ground (
  arith,
  no_items p.queue (omega (arith, h)),
  no_items p.picked (omega (arith, h)),
  no_items p.working (omega (arith, h)),
  no_keys p.done (omega (arith, h)),
)

length-pos : (xs : List String) → xs ≢ [] → 0 < length xs
length-pos [] h = absurd (h refl)
length-pos (x ∷ xs) h = omega arith

run-IsSynced_kept :
    (width : ℕ) (lower : String → String) (vs : List Event) (p p' : Pool)
    → run lower width vs p ≡ ok p'
    → IsSynced width p
    → IsSynced width p'
run-IsSynced_kept width lower vs p p' h s =
    let (q, ran, synced) = run-IsSynced width lower vs p s in
    subst (IsSynced width) {x = q} {y = p'} (ground (arith, h, ran)) synced

-- Without a timeout, for a named wave of distinct tasks and at least one worker: whatever moves the
-- threads have made, there are further moves after which the call returns a result for exactly the
-- given ids, with every status terminal.
pub execute_wave_returns :
    (lower : String → String) (wave_id : String) (ids : List String) (max_parallel : ℕ)
    (cleanup : Cleanup) (events : List Event) (expires : Bool) (now : ℕ)
    → wave_id ≢ ""
    → ids ≢ []
    → ((x : String) → count x ids ≤ 1)
    → 0 < max_parallel
    → (more : List Event) × (r : WaveExecutionResult) × (execute_wave lower wave_id ids max_parallel
          none cleanup
          (events ++ more)
          expires
          now
        ≡ returned r)
      × IsJoined ids r
unfolding execute_wave
execute_wave_returns lower wave_id ids max_parallel cleanup events expires now named some_ids u
      pos =
    let width = min max_parallel (length ids) in
    let made = new_ledger-ok wave_id ids named some_ids u in
    let start = submitted (fresh ids) ids in
    let (p1, ran1, synced1) =
      run-IsSynced width lower events start (submitted-IsSynced width ids u) in
    let (more, p, ran2, none_left) =
      drain lower width (work p1) p1 (omega arith) (omega (arith, pos, length-pos ids some_ids))
        synced1 in
    let ran = run-append lower width events more start p1 p ran1 ran2 in
    let kept =
      run-IsKept lower width ids (events ++ more) start p
        (record { counted = fresh-IsCounted ids; keyed = keys-fresh_entries ids u }) ran in
    let drained = no_work-drained p none_left in
    let (r, joined, fine) =
      close_and_join-ended ids wave_id now cleanup p.ledger
        (drained-ended width ids lower p u (run-IsSynced_kept width lower more p1 p ran2 synced1)
          kept drained)
        kept.counted kept.keyed in
    (more, r, ground (arith, made, ran, drained, joined), fine)
