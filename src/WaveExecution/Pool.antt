-- ===== src/WaveExecution/Pool.antt =====
-- The thread pool of `execute_wave` (wave_execution.py) as the moves of its threads. A future
-- waits in the queue, is picked by a worker thread, works from `ledger.start` on, and is done until
-- the main thread collects it. Which move comes next is the scheduler's choice.
pub mod Synced
pub mod Overtaking
pub mod Kept
pub mod Drained
use cairness.Base.{
  ℕ, zero, suc, ◌+◌, String, Bool, true, false, ◌&&◌, ◌||◌, Option, none, some, List, [], ◌∷◌, ◌++◌,
  ◌==◌, if◌then◌else◌, ltb, mem, length, discard,
}
use cairness.Base.Dict
use cairness.Base.Dict.{Dict}
use cairness.WaveExecution.Ledger.{WaveLedger, Error, Result, ok, err, start, finish}
use cairness.WaveExecution.Outcome.{FutureResult, exception, outcome_status, outcome_error}

pub record Pool : Type 0 where
  pub ledger : WaveLedger
  pub queue : List String
  pub picked : List String
  pub working : List String
  pub done : Dict FutureResult

unfoldable pub without_key : String → Dict FutureResult → Dict FutureResult
without_key x [] = []
without_key x ((y, r) ∷ m) = let rest = without_key x m in if x == y then rest else (y, r) ∷ rest

pub data Event : Type 0 where
  -- a free worker takes the next future
  pick : Event
  -- `ledger.start(task_id)` in `run_one`, with the clock's reading
  begin : ℕ → String → Event
  -- `dispatch(task_id)` returns or raises
  settle : String → FutureResult → Event
  -- the main thread takes a completed future, and calls `ledger.finish`
  collect : ℕ → String → Event

-- The head of the queue, if a worker is free.
pick_next : ℕ → List String → Pool → Pool
pick_next width [] p = p
pick_next width (x ∷ q) p =
    if ltb (length p.picked + length p.working) width
    then record p { queue = q; picked = x ∷ p.picked }
    else p

-- A raise in `run_one` becomes the future's exception.
begin_work : String → Result WaveLedger → Pool → Pool
begin_work x (ok l) p = record p {
  ledger = l;
  picked = discard x p.picked;
  working = x ∷ p.working;
}
begin_work x (err e) p = record p {
  picked = discard x p.picked;
  done = Dict.put p.done x (exception "WaveExecutionError: task cannot start");
}

abbrev pub collected : String → Pool → Result WaveLedger → Result Pool
collected x p (ok l) = ok (record p { ledger = l; done = without_key x p.done })
collected x p (err e) = err e

-- A move that is not possible changes nothing. Only the main thread's `finish` can raise.
module _ (lower : String → String) (width : ℕ) where
  unfoldable pub step : Event → Pool → Result Pool
  unfolding pick_next begin_work
  step pick p = ok (pick_next width p.queue p)
  step (begin now x) p = if mem x p.picked then ok (begin_work x (start now x p.ledger) p) else ok p
  step (settle x r) p =
      if mem x p.working
      then ok (record p { working = discard x p.working; done = Dict.put p.done x r })
      else ok p
  step (collect now x) p = elim (Dict.get p.done x) [
    | none ↦ ok p
    | some r ↦
        collected x p (finish now x (outcome_status lower r) (outcome_error lower r) p.ledger)
  ]

  unfoldable pub run : List Event → Pool → Result Pool
  run [] p = ok p
  run (v ∷ vs) p = elim (step v p) [ ok p' ↦ run vs p' | err e ↦ err e ]

-- All futures submitted, none picked.
abbrev pub submitted : WaveLedger → List String → Pool
submitted l ids = record { ledger = l; queue = ids; picked = []; working = []; done = [] }
