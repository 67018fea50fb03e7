-- ===== src/WaveExecution/Run/Tests.antt =====
-- The theorems about the ledger, the pool and `execute_wave` at a wave of two tasks.
use cairness.Base.{
  ◌++◌, ◌≤◌, Bool, ◌↔◌, String, ◌≡◌, ◌≢◌, refl, true, false, none, some, List, [], ◌∷◌, arith,
  eq_iff, if◌then◌else◌, count, ◌⊎◌, discard,
}
use cairness.Base.Dict
use cairness.Base.Dict.{Dict, get, put, keys}
use cairness.WaveExecution.Ledger.{
  completed, failed, timed_out, cancelled, is_pending, TaskLedgerEntry, WaveLedger, ok, new_ledger,
  fresh_entries, are_unique, is_empty, ids_with, entries_terminal, start, finish, cleanup_pending,
}
use cairness.WaveExecution.Ledger.Invariant.{IsCounted}
use cairness.WaveExecution.Ledger.Entries.{UniqueKeys}
use cairness.WaveExecution.Ledger.Terminal.{
  start_call, finish_call, calls, IsTerminalAt, calls-keep,
}
use cairness.WaveExecution.Ledger.Cleanup.{cleanup_pending_lem}
use cairness.WaveExecution.Outcome.{
  value, text, outcome_status, outcome_error, read_status, status_text, error_text,
}
use cairness.WaveExecution.Pool.{
  Pool, Event, pick, begin, settle, collect, step, run, submitted, without_key,
}
use cairness.WaveExecution.Pool.Synced.{IsSynced, run-IsSynced}
use cairness.WaveExecution.Pool.Overtaking.{overtake}
use cairness.WaveExecution.Run.{
  waiting, returned, WaveExecutionResult, execute_wave, expire, close, statuses, result_of, join,
  close_and_join, all_completed, is_drained, required,
}
use cairness.WaveExecution.Summary.{pos, execution_summary, validate_execution_summary}
use cairness.WaveExecution.Summary.Valid.{is_valid, execution_summary_lem}
use cairness.WaveExecution.Run.Fresh.{
  fresh, fresh-IsCounted, submitted-IsSynced, keys-fresh_entries,
}
use cairness.WaveExecution.Run.Returns.{execute_wave_returns}
use cairness.WaveExecution.Run.Joins.{IsJoined, execute_wave_joins}
use cairness.WaveExecution.Run.Gate.{IsClosed, execute_wave-IsClosed}
use cairness.WaveExecution.Run.Parallelism.{max_active_overtakes}

abbrev pair : List String
pair = "a" ∷ "b" ∷ []

pair_unique : (x : String) → count x pair ≤ 1
pair_unique x = ground (arith, eq_iff x "a", eq_iff x "b", eq_iff "a" "b")

abbrev same : String → String
same x = x

-- The main thread collects `a`, and stops waiting while `b` waits in the queue.
abbrev moves : List Event
moves = pick ∷ begin 3 "a" ∷ settle "a" (value (text "done")) ∷ collect 5 "a" ∷ []

calls-keep_example :
    IsCounted (
      calls (start_call 1 "a" ∷ finish_call 2 "a" failed none ∷ start_call 3 "a" ∷ []) (fresh pair))
    × ((y : String) (e : TaskLedgerEntry)
        → IsTerminalAt (fresh pair) y e
        → IsTerminalAt
            (calls
              (start_call 1 "a" ∷ finish_call 2 "a" failed none ∷ start_call 3 "a" ∷ [])
              (fresh pair))
            y
            e)
calls-keep_example =
    calls-keep (start_call 1 "a" ∷ finish_call 2 "a" failed none ∷ start_call 3 "a" ∷ [])
      (fresh pair) (fresh-IsCounted pair)

fresh-UniqueKeys : UniqueKeys (fresh_entries [] pair)
fresh-UniqueKeys y = rw (keys-fresh_entries pair pair_unique) (pair_unique y)

cleanup_pending_lem_example :
    (l' : WaveLedger) × (cleanup_pending 7 cancelled (fresh pair) ≡ ok l')
    × (l'.active_count ≡ 0)
    × ((y : String) (e : TaskLedgerEntry)
        → Dict.get (fresh_entries [] pair) y ≡ some e
        → Dict.get l'.entries y
          ≡ some (
              if is_pending e.status
              then record e { status = cancelled; ended_at = some 7; error = none }
              else e))
cleanup_pending_lem_example = cleanup_pending_lem 7 cancelled (fresh pair) fresh-UniqueKeys refl

run-IsSynced_example :
    (p : Pool) × (run same 1 moves (submitted (fresh pair) pair) ≡ ok p) × IsSynced 1 p
run-IsSynced_example =
    run-IsSynced 1 same moves (submitted (fresh pair) pair) (submitted-IsSynced 1 pair pair_unique)

some_pair : pair ≢ []
some_pair h = absurd (cc)

execute_wave_joins_example :
    ((p : Pool) × (execute_wave same "w" pair 2 none none moves false 9 ≡ waiting p)
      × (is_drained p ≡ false))
    ⊎ ((r : WaveExecutionResult) × (execute_wave same "w" pair 2 none none moves false 9
          ≡ returned r)
        × IsJoined pair r)
execute_wave_joins_example =
    execute_wave_joins same "w" pair 2 none moves false 9 (λ h. ground (arith, eq_iff "w" "", h))
      some_pair pair_unique (omega arith)

abbrev late : WaveExecutionResult
late = record {
  wave_id = "w";
  passed = false;
  task_statuses = ("a", completed) ∷ ("b", timed_out) ∷ [];
  actual_parallelism = 1;
  cleanup_status = required;
  task_errors = [];
}

late_returned : execute_wave same "w" pair 1 (some 10) none moves true 11 ≡ returned late
unfolding execute_wave run step new_ledger fresh_entries are_unique is_empty expire close join
    close_and_join statuses result_of all_completed is_drained outcome_status outcome_error
    read_status status_text error_text without_key start finish get put keys discard ids_with
    entries_terminal
late_returned = refl

execute_wave-IsClosed_example : IsClosed late
execute_wave-IsClosed_example =
    execute_wave-IsClosed same "w" pair 1 (some 10) none moves true 11 late late_returned

max_active_overtakes_example :
    (p : Pool) × (run same 1 (overtake pair) (submitted (fresh pair) pair) ≡ ok p)
    × (p.ledger.max_active ≡ 2)
max_active_overtakes_example = max_active_overtakes same 1 pair (omega arith) pair_unique

execute_wave_returns_example :
    (more : List Event) × (r : WaveExecutionResult) × (execute_wave same "w" pair 2 none none
        (moves ++ more)
        false
        9
      ≡ returned r)
    × IsJoined pair r
execute_wave_returns_example =
    execute_wave_returns same "w" pair 2 none moves false 9 (λ h. ground (arith, eq_iff "w" "", h))
      some_pair pair_unique (omega arith)

abbrev any_time : String → Bool
any_time t = true

-- The cleanup is still required, so the summary does not pass.
execution_summary_lem_example :
    (validate_execution_summary any_time (execution_summary late "t0" "t1" (pos 1) (pos 0) (pos 0))
      ≡ [])
    ↔ (is_valid any_time late "t0" "t1" (pos 1) (pos 0) (pos 0) ≡ true)
execution_summary_lem_example =
    execution_summary_lem same "w" pair 1 (some 10) none moves true 11 late any_time "t0" "t1"
      (pos 1) (pos 0) (pos 0) late_returned
