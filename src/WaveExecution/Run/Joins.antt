-- ===== src/WaveExecution/Run/Joins.antt =====
-- `execute_wave` with no timeout: it waits, or it returns with every task ended.
use cairness.Base.{
  ℕ, suc, ◌≤◌, ◌<◌, min, String, ◌≡◌, ◌≢◌, refl, ap, ◌∙◌, Bool, true, false, none, some, List, [],
  ◌∷◌, arith, ◌==◌, eq_iff, length, count, Bool-cases, inl, inr, ◌⊎◌, subst,
}
use cairness.Base.Dict
use cairness.Base.Dict.{Dict, get→count-keys}
use cairness.WaveExecution.Ledger.{
  Status, is_terminal, is_running, TaskLedgerEntry, WaveLedger, is_empty, entries_terminal,
  ids_with, active_task_ids,
}
use cairness.WaveExecution.Ledger.Invariant.{IsCounted}
use cairness.WaveExecution.Outcome.{FutureResult}
use cairness.WaveExecution.Pool.{Pool, Event, submitted}
use cairness.WaveExecution.Pool.Kept.{IsKept, run-IsKept}
use cairness.WaveExecution.Pool.Synced.{IsSynced, run-IsSynced, synced_drained}
use cairness.WaveExecution.Run.{
  waiting, returned, WaveExecutionResult, not_required, is_drained, Cleanup, close, statuses,
  result_of, join, close_and_join, execute_wave,
}
use cairness.WaveExecution.Run.Fresh.{
  fresh, new_ledger-ok, fresh-IsCounted, submitted-IsSynced, keys-fresh_entries,
}

-- What a wave that returned without a timeout shows.
pub record IsJoined (ids : List String) (r : WaveExecutionResult) : Type 0 where
  pub keyed : Dict.keys r.task_statuses ≡ ids
  pub ended : (x : String) (s : Status) → Dict.get r.task_statuses x ≡ some s → is_terminal s ≡ true
  pub bounded : r.actual_parallelism ≤ length ids
  pub clean : r.cleanup_status ≡ not_required

keys-statuses : (m : Dict TaskLedgerEntry) → Dict.keys (statuses m) ≡ Dict.keys m
unfolding statuses Dict.keys
keys-statuses [] = refl
keys-statuses ((x, e) ∷ m) = ap (λ l. x ∷ l) (keys-statuses m)

length-keys : (m : Dict TaskLedgerEntry) → length (Dict.keys m) ≡ length m
unfolding Dict.keys
length-keys [] = refl
length-keys ((x, e) ∷ m) = ap suc (length-keys m)

-- An all-terminal dict has terminal statuses only.
statuses-ended :
    (m : Dict TaskLedgerEntry) (x : String) (s : Status)
    → entries_terminal m ≡ true
    → Dict.get (statuses m) x ≡ some s
    → is_terminal s ≡ true
unfolding statuses entries_terminal Dict.get
statuses-ended [] x s t h = absurd (cc)
statuses-ended ((y, e) ∷ m) x s t h = elim (Bool-cases (y == x)) [
  | inl same ↦
      let e≡s : e.status ≡ s = ground (arith, h, same) in
      subst (λ st. is_terminal st ≡ true) e≡s (ground arith)
  | inr differ ↦ statuses-ended m x s (ground arith) (ground (arith, h, differ))
]

get-tail :
    (y x : String) (e d : TaskLedgerEntry) (m : Dict TaskLedgerEntry)
    → count x (y ∷ Dict.keys m) ≤ 1
    → Dict.get m x ≡ some d
    → Dict.get ((y, e) ∷ m) x ≡ some d
unfolding Dict.get
get-tail y x e d m u found =
    ground (arith, u, found, get→count-keys x d m found, eq_iff x y, eq_iff y x)

all_ended :
    (m : Dict TaskLedgerEntry)
    → ((x : String) → count x (Dict.keys m) ≤ 1)
    → ((x : String) (e : TaskLedgerEntry) → Dict.get m x ≡ some e → is_terminal e.status ≡ true)
    → entries_terminal m ≡ true
unfolding entries_terminal Dict.get Dict.keys
all_ended [] u h = refl
all_ended ((y, e) ∷ m) u h =
    rw (h y e (ground (arith, eq_iff y y)))
      (all_ended m (λ x. omega (arith, u x)) (λ x d found. h x d (get-tail y x e d m (u x) found)))

none_active : (m : Dict TaskLedgerEntry) → entries_terminal m ≡ true → ids_with is_running m ≡ []
unfolding entries_terminal ids_with
none_active [] h = refl
none_active ((x, e) ∷ m) h = ground (arith, none_active m)

close_quiet :
    (now : ℕ) (cleanup : Cleanup) (l : WaveLedger)
    → active_task_ids l ≡ []
    → close now cleanup not_required l ≡ (l, not_required)
unfolding close is_empty
close_quiet now none l q = refl
close_quiet now (some f) l q = rw q refl

-- The way out with every task ended.
pub close_and_join-ended :
    (ids : List String) (wave_id : String) (now : ℕ) (cleanup : Cleanup) (l : WaveLedger)
    → entries_terminal l.entries ≡ true
    → IsCounted l
    → Dict.keys l.entries ≡ ids
    → (r : WaveExecutionResult) × (close_and_join wave_id now cleanup not_required l ≡ returned r)
      × IsJoined ids r
unfolding close_and_join join result_of
close_and_join-ended ids wave_id now cleanup l t c k = (
  result_of wave_id l not_required,
  rw (close_quiet now cleanup l (none_active l.entries t)) (rw t),
  record {
    keyed = keys-statuses l.entries ∙ k;
    ended = λ x s. statuses-ended l.entries x s t;
    bounded = omega (arith, c.bounded, length-keys l.entries, ap length k);
    clean = refl;
  },
)

empty-nil : (xs : List String) → is_empty xs ≡ true → xs ≡ []
unfolding is_empty
empty-nil [] h = refl
empty-nil (x ∷ xs) h = absurd (cc)

nil_of_keys : (m : Dict FutureResult) → Dict.keys m ≡ [] → m ≡ []
unfolding Dict.keys
nil_of_keys [] h = refl
nil_of_keys ((x, r) ∷ m) h = absurd (cc)

pub drained-ended :
    (width : ℕ) (ids : List String) (lower : String → String) (p : Pool)
    → ((x : String) → count x ids ≤ 1)
    → IsSynced width p
    → IsKept lower width ids p
    → is_drained p ≡ true
    → entries_terminal p.ledger.entries ≡ true
unfolding is_drained
drained-ended width ids lower p u s k d =
    all_ended p.ledger.entries (λ x. omega (arith, u x, ap (count x) k.keyed))
      (synced_drained width p s (empty-nil p.queue (ground arith))
        (empty-nil p.picked (ground arith)) (empty-nil p.working (ground arith))
        (nil_of_keys p.done (empty-nil (Dict.keys p.done) (ground arith))))

-- Without a timeout, for a named wave of distinct tasks and at least one worker: whatever the moves
-- of the threads are, the call never fails. It waits while some future is not collected, and else
-- it returns a result for exactly the given ids, with every status terminal, no cleanup and at most
-- as much parallelism as there are tasks.
pub execute_wave_joins :
    (lower : String → String) (wave_id : String) (ids : List String) (max_parallel : ℕ)
    (cleanup : Cleanup) (events : List Event) (expires : Bool) (now : ℕ)
    → wave_id ≢ ""
    → ids ≢ []
    → ((x : String) → count x ids ≤ 1)
    → 0 < max_parallel
    → ((p : Pool) × (execute_wave lower wave_id ids max_parallel none cleanup events expires now
          ≡ waiting p)
        × (is_drained p ≡ false))
      ⊎ ((r : WaveExecutionResult) × (execute_wave lower wave_id ids max_parallel none cleanup
              events expires now
            ≡ returned r)
          × IsJoined ids r)
unfolding execute_wave
execute_wave_joins lower wave_id ids max_parallel cleanup events expires now named some_ids u pos =
    let width = min max_parallel (length ids) in
    let made = new_ledger-ok wave_id ids named some_ids u in
    let start = submitted (fresh ids) ids in
    let (p, ran, synced) = run-IsSynced width lower events start (submitted-IsSynced width ids u) in
    let kept =
      run-IsKept lower width ids events start p
        (record { counted = fresh-IsCounted ids; keyed = keys-fresh_entries ids u }) ran in
    elim (Bool-cases (is_drained p)) [
      | inl drained ↦
          let (r, joined, fine) =
            close_and_join-ended ids wave_id now cleanup p.ledger
              (drained-ended width ids lower p u synced kept drained) kept.counted kept.keyed in
          inr (r, ground (arith, made, ran, drained, joined), fine)
      | inr more ↦ inl (p, ground (arith, made, ran, more), more)
    ]
