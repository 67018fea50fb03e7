-- ===== src/WaveExecution/Summary/Valid.antt =====
-- When the summary of a result passes `validate_execution_summary` (wave_execution.py).
use cairness.Base.{
  ℕ, suc, ◌≡◌, ◌↔◌, refl, ap, String, Bool, true, false, not, ◌&&◌, ◌||◌, Option, some, List, [],
  ◌∷◌, ◌==◌, ltb, leb, arith, length, distinct,
}
use cairness.Base.Dict
use cairness.Base.Dict.{Dict}
use cairness.Base.Sorting.{sorted}
use cairness.WaveExecution.Ledger.{
  Status, pending, running, completed, failed, timed_out, cancelled, other, is_terminal,
}
use cairness.WaveExecution.Run.{WaveExecutionResult, Cleanup, execute_wave, returned}
use cairness.WaveExecution.Pool.{Event}
use cairness.WaveExecution.Run.Gate.{AllStatuses, execute_wave-IsClosed}
use cairness.WaveExecution.Summary.{
  ℤ, pos, negsuc, Value, status_texts, cleanup_text, execution_summary, is_blank, missing_errors,
  is_text, text_errors, is_bad_time, time_errors, is_natural, natural_errors, as_int, is_zero,
  zero_errors, exceeds, exceed_error, disagrees, non_terminal, listed, status_errors, is_clean,
  or_zero, wait_errors, validate_execution_summary,
}

-- Positive, no less than `low`, and no more than `high`.
unfoldable pub is_between : (low high : ℕ) → ℤ → Bool
is_between low high (pos n) = ltb 0 n && leb low n && leb n high
is_between low high (negsuc n) = false

unfoldable pub is_non_negative : ℤ → Bool
is_non_negative (pos n) = true
is_non_negative (negsuc n) = false

-- What a summary has to meet besides the states of its tasks.
unfoldable pub is_valid :
    (is_iso : String → Bool)
    → WaveExecutionResult
    → (started_at ended_at : String) → (planned_parallelism wait_ms task_wait_ms : ℤ) → Bool
is_valid is_iso r started_at ended_at planned_parallelism wait_ms task_wait_ms =
    not (is_blank r.wave_id)
    && not (is_blank started_at)
    && not (is_blank ended_at)
    && is_iso started_at
    && is_iso ended_at
    && is_between r.actual_parallelism (length r.task_statuses) planned_parallelism
    && is_non_negative wait_ms
    && is_non_negative task_wait_ms
    && (cleanup_text r.cleanup_status == "not_required"
        || cleanup_text r.cleanup_status == "passed")

non_terminal-none :
    (m : Dict Status) → AllStatuses is_terminal m → non_terminal (status_texts m) ≡ []
unfolding non_terminal
non_terminal-none [] h = refl
non_terminal-none ((x, completed) ∷ m) h = non_terminal-none m h.1
non_terminal-none ((x, failed) ∷ m) h = non_terminal-none m h.1
non_terminal-none ((x, timed_out) ∷ m) h = non_terminal-none m h.1
non_terminal-none ((x, cancelled) ∷ m) h = non_terminal-none m h.1
non_terminal-none ((x, pending) ∷ m) h = absurd (cc (h.0))
non_terminal-none ((x, running) ∷ m) h = absurd (cc (h.0))
non_terminal-none ((x, other t) ∷ m) h = absurd (cc (h.0))

length-status_texts : (m : Dict Status) → length (status_texts m) ≡ length m
length-status_texts [] = refl
length-status_texts ((x, s) ∷ m) = ap suc (length-status_texts m)

status_errors-none :
    (m : Dict Status)
    → AllStatuses is_terminal m
    → status_errors
        (some (Value.object (status_texts m)))
        (as_int (some (Value.number (pos (length m)))))
      ≡ []
unfolding status_errors disagrees listed as_int sorted distinct
status_errors-none m h =
    let same = length-status_texts m in
    let none_left = ap (λ l. listed (sorted (distinct l))) (non_terminal-none m h) in
    ground (arith, same, none_left)

validate-valid :
    (is_iso : String → Bool) (r : WaveExecutionResult) (started_at ended_at : String)
    (planned_parallelism wait_ms task_wait_ms : ℤ)
    → AllStatuses is_terminal r.task_statuses
    → (validate_execution_summary is_iso
          (execution_summary r started_at ended_at planned_parallelism wait_ms task_wait_ms)
        ≡ [])
      ↔ (is_valid is_iso r started_at ended_at planned_parallelism wait_ms task_wait_ms ≡ true)
unfolding validate_execution_summary execution_summary missing_errors text_errors is_text
    time_errors is_bad_time natural_errors is_natural zero_errors is_zero as_int exceed_error
    exceeds is_clean or_zero wait_errors is_valid is_between is_non_negative Dict.get
validate-valid is_iso r started_at ended_at (pos p) (pos w) (pos t) h =
    let fine = status_errors-none r.task_statuses h in
    ((λ e. ground (arith, e, fine)), (λ e. ground (arith, e, fine)))
validate-valid is_iso r started_at ended_at (pos p) (pos w) (negsuc t) h =
    let fine = status_errors-none r.task_statuses h in
    ((λ e. ground (arith, e, fine)), (λ e. ground (arith, e, fine)))
validate-valid is_iso r started_at ended_at (pos p) (negsuc w) (pos t) h =
    let fine = status_errors-none r.task_statuses h in
    ((λ e. ground (arith, e, fine)), (λ e. ground (arith, e, fine)))
validate-valid is_iso r started_at ended_at (pos p) (negsuc w) (negsuc t) h =
    let fine = status_errors-none r.task_statuses h in
    ((λ e. ground (arith, e, fine)), (λ e. ground (arith, e, fine)))
validate-valid is_iso r started_at ended_at (negsuc p) (pos w) (pos t) h =
    let fine = status_errors-none r.task_statuses h in
    ((λ e. ground (arith, e, fine)), (λ e. ground (arith, e, fine)))
validate-valid is_iso r started_at ended_at (negsuc p) (pos w) (negsuc t) h =
    let fine = status_errors-none r.task_statuses h in
    ((λ e. ground (arith, e, fine)), (λ e. ground (arith, e, fine)))
validate-valid is_iso r started_at ended_at (negsuc p) (negsuc w) (pos t) h =
    let fine = status_errors-none r.task_statuses h in
    ((λ e. ground (arith, e, fine)), (λ e. ground (arith, e, fine)))
validate-valid is_iso r started_at ended_at (negsuc p) (negsuc w) (negsuc t) h =
    let fine = status_errors-none r.task_statuses h in
    ((λ e. ground (arith, e, fine)), (λ e. ground (arith, e, fine)))

-- Whatever the run of a wave was: the summary of a result that `execute_wave` returned passes
-- `validate_execution_summary` exactly when the wave id and the times are not blank, the times are ISO
-- timestamps, the planned parallelism is between 1 and the number of tasks and no less than the
-- actual one, neither waiting time is negative, and the cleanup was not required or passed.
pub execution_summary_lem :
    (lower : String → String) (wave_id : String) (ids : List String) (max_parallel : ℕ)
    (timeout_s : Option ℕ) (cleanup : Cleanup) (events : List Event) (expires : Bool) (now : ℕ)
    (r : WaveExecutionResult) (is_iso : String → Bool) (started_at ended_at : String)
    (planned_parallelism wait_ms task_wait_ms : ℤ)
    → execute_wave lower wave_id ids max_parallel timeout_s cleanup events expires now ≡ returned r
    → (validate_execution_summary is_iso
          (execution_summary r started_at ended_at planned_parallelism wait_ms task_wait_ms)
        ≡ [])
      ↔ (is_valid is_iso r started_at ended_at planned_parallelism wait_ms task_wait_ms ≡ true)
execution_summary_lem lower wave_id ids max_parallel timeout_s cleanup events expires now r is_iso
      started_at ended_at planned_parallelism wait_ms task_wait_ms h =
    let closed =
      execute_wave-IsClosed lower wave_id ids max_parallel timeout_s cleanup events expires now r
        h in
    validate-valid is_iso r started_at ended_at planned_parallelism wait_ms task_wait_ms
      closed.ended
