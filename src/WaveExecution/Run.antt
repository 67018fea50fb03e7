-- ===== src/WaveExecution/Run.antt =====
-- `execute_wave` (wave_execution.py) from its arguments to its result. The events are the moves of
-- the threads up to the moment at which the main thread stops waiting; `expires` says that it
-- stopped by `TimeoutError`. From then on the main thread is taken to run undisturbed.
mod Fresh
pub mod Joins
mod Returns
pub mod Gate
pub mod Parallelism
mod Tests
use cairness.Base.{
  ℕ, zero, suc, ◌+◌, String, Bool, true, false, not, ◌&&◌, ◌||◌, Option, none, some, List, [], ◌∷◌,
  ◌==◌, if◌then◌else◌, ltb, eqb, mem, length, discard, min,
}
use cairness.Base.Dict
use cairness.Base.Dict.{Dict}
use cairness.WaveExecution.Ledger.{
  Status, pending, running, completed, failed, timed_out, cancelled, other, is_terminal, is_pending,
  TaskLedgerEntry, WaveLedger, Error, Result, ok, err, and_then, new_ledger, finish,
  active_task_ids, pending_task_ids, all_terminal, is_empty,
}
use cairness.WaveExecution.Outcome.{FutureResult}
use cairness.WaveExecution.Pool.{Pool, Event, run, submitted}

-- `failed_by` carries the exception's type name.
pub data CleanupStatus : Type 0 where
  not_required required cleanup_passed cleanup_failed : CleanupStatus
  failed_by : String → CleanupStatus

pub data CleanupReply : Type 0 where
  replied : Dict Status → CleanupReply
  raised : String → CleanupReply

pub record WaveExecutionResult : Type 0 where
  pub wave_id : String
  pub passed : Bool
  pub task_statuses : Dict Status
  pub actual_parallelism : ℕ
  pub cleanup_status : CleanupStatus
  pub task_errors : Dict String

pub data Wave : Type 0 where
  -- the call has not returned: the main thread waits for a future
  waiting : Pool → Wave
  -- `WaveExecutionError`
  invalid_parallelism invalid_timeout : Wave
  ledger_error : Error → Wave
  -- `WaveJoinError` with the active and the pending ids
  join_error : List String → List String → Wave
  returned : WaveExecutionResult → Wave

unfoldable pub is_drained : Pool → Bool
unfolding is_empty
is_drained p =
    is_empty p.queue && is_empty p.picked && is_empty p.working && is_empty (Dict.keys p.done)

-- `future.done()` of a task that was submitted
is_done : String → Pool → Bool
is_done x p = not (mem x p.queue || mem x p.picked || mem x p.working)

status_at : String → WaveLedger → Status
status_at x l = elim (Dict.get l.entries x) [ none ↦ other "" | some e ↦ e.status ]

-- The body of the loop under `except TimeoutError`.
expire_one : ℕ → String → Pool → Result Pool
expire_one now x p =
    if is_done x p
    then ok p
    else let p' = record p { queue = discard x p.queue } in
      if is_pending (status_at x p.ledger)
      then and_then (finish now x timed_out none p.ledger) (λ l. ok (record p' { ledger = l }))
      else ok p'

unfoldable pub expire : ℕ → List String → Pool → Result Pool
unfolding expire_one is_done status_at
expire now [] p = ok p
expire now (x ∷ xs) p = and_then (expire_one now x p) (expire now xs)

-- `for task_id in orphan_ids` under `finally`, and whether `finish` raised.
unfoldable pub clean_orphans : ℕ → Dict Status → List String → WaveLedger → WaveLedger × Bool
clean_orphans now replies [] l = (l, false)
clean_orphans now replies (x ∷ xs) l = elim (Dict.get replies x) [
  | none ↦ clean_orphans now replies xs l
  | some status ↦
      if is_terminal status
      then elim (finish now x status none l) [
        | ok l' ↦ clean_orphans now replies xs l'
        | err e ↦ (l, true)
      ]
      else clean_orphans now replies xs l
]

abbrev pub Cleanup : Type 0
Cleanup = Option (List String → CleanupReply)

-- After the reply: the new ledger and `cleanup_status`.
after_reply : ℕ → List String → WaveLedger → CleanupReply → WaveLedger × CleanupStatus
after_reply now orphans l (raised name) = (l, failed_by name)
after_reply now orphans l (replied replies) =
    let (l', raises) = clean_orphans now replies orphans l in
    (
      l',
      if raises
          then failed_by "WaveExecutionError"
          else if is_empty (active_task_ids l')
          then cleanup_passed
          else cleanup_failed,
    )

-- The `finally` block.
unfoldable pub close : ℕ → Cleanup → CleanupStatus → WaveLedger → WaveLedger × CleanupStatus
unfolding after_reply is_empty
close now none so_far l = (l, so_far)
close now (some cleanup) so_far l =
    let orphans = active_task_ids l in
    if is_empty orphans then (l, so_far) else after_reply now orphans l (cleanup orphans)

unfoldable pub statuses : Dict TaskLedgerEntry → Dict Status
statuses [] = []
statuses ((x, e) ∷ m) = (x, e.status) ∷ statuses m

-- `if entry.error`: an empty text counts as no error.
errors : Dict TaskLedgerEntry → Dict String
errors [] = []
errors ((x, e) ∷ m) =
    let rest = errors m in
    elim e.error [ none ↦ rest | some t ↦ if t == "" then rest else (x, t) ∷ rest ]

unfoldable pub all_completed : Dict Status → Bool
all_completed [] = true
all_completed ((x, completed) ∷ m) = all_completed m
all_completed ((x, s) ∷ m) = false

unfoldable pub result_of : String → WaveLedger → CleanupStatus → WaveExecutionResult
unfolding errors
result_of wave_id l cleanup_status = record {
  wave_id = wave_id;
  passed = all_completed (statuses l.entries);
  task_statuses = statuses l.entries;
  actual_parallelism = l.max_active;
  cleanup_status = cleanup_status;
  task_errors = errors l.entries;
}

-- The join gate.
unfoldable pub join : String → WaveLedger → CleanupStatus → Wave
join wave_id l cleanup_status =
    if not (all_terminal l)
    then join_error (active_task_ids l) (pending_task_ids l)
    else returned (result_of wave_id l cleanup_status)

unfoldable pub close_and_join : String → ℕ → Cleanup → CleanupStatus → WaveLedger → Wave
close_and_join wave_id now cleanup so_far l =
    let (l', cleanup_status) = close now cleanup so_far l in join wave_id l' cleanup_status

-- What becomes of the pool when the main thread stops waiting.
stop : String → List String → ℕ → Bool → Cleanup → Pool → Wave
stop wave_id ids now expires cleanup p =
    if is_drained p
    then close_and_join wave_id now cleanup not_required p.ledger
    else if expires
    then elim (expire now ids p) [
      | err e ↦ ledger_error e
      | ok p' ↦ close_and_join wave_id now cleanup required p'.ledger
    ]
    else waiting p

-- Without a timeout `as_completed` waits for ever.
has_timeout : Option ℕ → Bool
has_timeout none = false
has_timeout (some t) = true

-- `timeout_s` is a number of ticks, with 0 for what is not positive. `now` is the clock's reading
-- at the end.
unfoldable pub execute_wave :
    (String → String) → String → List String → ℕ → Option ℕ → Cleanup → List Event → Bool → ℕ → Wave
unfolding stop has_timeout
execute_wave lower wave_id ids max_parallel timeout_s cleanup events expires now =
    if ltb max_parallel 1
    then invalid_parallelism
    else if elim timeout_s [ none ↦ false | some t ↦ eqb t 0 ]
    then invalid_timeout
    else elim (new_ledger wave_id ids) [
      | err e ↦ ledger_error e
      | ok l ↦ elim (run lower (min max_parallel (length ids)) events (submitted l ids)) [
        | err e ↦ ledger_error e
        | ok p ↦ stop wave_id ids now (expires && has_timeout timeout_s) cleanup p
      ]
    ]
