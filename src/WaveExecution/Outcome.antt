-- ===== src/WaveExecution/Outcome.antt =====
-- `_normalize_outcome` (wave_execution.py): from what a worker returns to a terminal status.
use cairness.Base.{String, true, Option, none, some, ◌==◌, if◌then◌else◌, ◌≡◌, refl, arith}
use cairness.WaveExecution.Ledger.{
  Status, pending, running, completed, failed, timed_out, cancelled, other, is_terminal,
}

-- A mapping with its `status` and `error` as texts, a text, or any other value.
pub data WorkerValue : Type 0 where
  mapping : Option String → Option String → WorkerValue
  text : String → WorkerValue
  anything : WorkerValue

-- What `future.result()` does: it returns, or raises an `Exception`. A `SystemExit` and the like, which
-- `execute_wave` lets through, are not modelled.
pub data FutureResult : Type 0 where
  value : WorkerValue → FutureResult
  exception : String → FutureResult

-- The name of a status, with `aliases` applied.
unfoldable pub read_status : String → Status
read_status s =
    if s == "done"
    then completed
    else if s == "passed"
    then completed
    else if s == "success"
    then completed
    else if s == "error"
    then failed
    else if s == "completed"
    then completed
    else if s == "failed"
    then failed
    else if s == "timed_out"
    then timed_out
    else if s == "cancelled"
    then cancelled
    else if s == "pending"
    then pending
    else if s == "running"
    then running
    else other s

abbrev get_or : String → Option String → String
get_or d none = d
get_or d (some s) = s

unfoldable pub status_text : WorkerValue → String
status_text (mapping status error) = get_or "completed" status
status_text (text s) = s
status_text anything = "completed"

unfoldable pub error_text : WorkerValue → Option String
error_text (mapping status error) = error
error_text _ = none

-- `lower` is `str.lower`, and `describe` the text of an exception.
module _ (lower : String → String) where
  -- A worker's exception and a status that is not terminal both end as `failed`.
  unfoldable pub outcome_status : FutureResult → Status
  unfolding read_status status_text
  outcome_status (exception e) = failed
  outcome_status (value v) =
      let status = read_status (lower (status_text v)) in
      if is_terminal status then status else failed

  unfoldable pub outcome_error : FutureResult → Option String
  unfolding read_status status_text error_text
  outcome_error (exception e) = some e
  outcome_error (value v) =
      if is_terminal (read_status (lower (status_text v)))
      then error_text v
      else some "WaveExecutionError: worker returned non-terminal status"

  -- The main thread always has a terminal status to record.
  pub outcome_status-terminal : (r : FutureResult) → is_terminal (outcome_status r) ≡ true
  unfolding outcome_status
  outcome_status-terminal (exception e) = refl
  outcome_status-terminal (value v) = ground arith
