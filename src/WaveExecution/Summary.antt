-- ===== src/WaveExecution/Summary.antt =====
-- `snapshot`, `execution_summary` and `validate_execution_summary` (wave_execution.py). A summary is a
-- mapping from names to values of any kind; `is_iso` is `datetime.fromisoformat` without an error.
pub mod Valid
use cairness.Base.{
  ℕ, zero, suc, ◌+◌, String, Bool, true, false, not, ◌&&◌, ◌||◌, Option, none, some, List, [], ◌∷◌,
  ◌++◌, ◌==◌, if◌then◌else◌, eqb, ltb, leb, codes, join_texts, length, mem, distinct, is_given,
}
use cairness.Base.Dict
use cairness.Base.Dict.{Dict}
use cairness.Base.Sorting.{sorted}
use cairness.Scopes.Parts.{is_space, strip_both, is_empty}
use cairness.WaveExecution.Ledger.{
  Status, pending, running, completed, failed, timed_out, cancelled, other, TaskLedgerEntry,
  WaveLedger, active_task_ids, pending_task_ids,
}
use cairness.WaveExecution.Run.{
  WaveExecutionResult, CleanupStatus, not_required, required, cleanup_passed, cleanup_failed,
  failed_by,
}

pub data ℤ : Type 0 where
  pos : ℕ → ℤ
  -- `negsuc n` is `- (n + 1)`.
  negsuc : ℕ → ℤ

abbrev pub gtb : ℤ → ℤ → Bool
gtb (pos m) (pos n) = ltb n m
gtb (pos m) (negsuc n) = true
gtb (negsuc m) (pos n) = false
gtb (negsuc m) (negsuc n) = ltb m n

abbrev pub equal_ints : ℤ → ℤ → Bool
equal_ints (pos m) (pos n) = eqb m n
equal_ints (negsuc m) (negsuc n) = eqb m n
equal_ints _ _ = false

-- The values that JSON has, but for fractions; `another` is null or a list.
pub data Value : Type 0 where
  text : String → Value
  number : ℤ → Value
  boolean : Bool → Value
  object : Dict String → Value
  another : Value

abbrev pub status_text : Status → String
status_text pending = "pending"
status_text running = "running"
status_text completed = "completed"
status_text failed = "failed"
status_text timed_out = "timed_out"
status_text cancelled = "cancelled"
status_text (other s) = s

abbrev pub cleanup_text : CleanupStatus → String
cleanup_text not_required = "not_required"
cleanup_text required = "required"
cleanup_text cleanup_passed = "passed"
cleanup_text cleanup_failed = "failed"
cleanup_text (failed_by name) = join_texts "failed:" name

abbrev pub status_texts : Dict Status → Dict String
status_texts [] = []
status_texts ((x, s) ∷ m) = (x, status_text s) ∷ status_texts m

pub record Snapshot : Type 0 where
  pub wave_id : String
  pub tasks : Dict (Status × Option String)
  pub active_task_ids : List String
  pub pending_task_ids : List String
  pub actual_parallelism : ℕ

snapshot_tasks : Dict TaskLedgerEntry → Dict (Status × Option String)
snapshot_tasks [] = []
snapshot_tasks ((x, e) ∷ m) = (x, (e.status, e.error)) ∷ snapshot_tasks m

unfoldable pub snapshot : String → WaveLedger → Snapshot
unfolding snapshot_tasks
snapshot wave_id l = record {
  wave_id = wave_id;
  tasks = snapshot_tasks l.entries;
  active_task_ids = cairness.WaveExecution.Ledger.active_task_ids l;
  pending_task_ids = cairness.WaveExecution.Ledger.pending_task_ids l;
  actual_parallelism = l.max_active;
}

-- The times are texts of the result.
unfoldable pub execution_summary :
    WaveExecutionResult
    → (started_at ended_at : String) → (planned_parallelism wait_ms task_wait_ms : ℤ) → Dict Value
execution_summary r started_at ended_at planned_parallelism wait_ms task_wait_ms =
    ("wave_id", text r.wave_id)
    ∷ ("status", text (if r.passed then "passed" else "completed_with_failures"))
    ∷ ("task_count", number (pos (length r.task_statuses)))
    ∷ ("planned_parallelism", number planned_parallelism)
    ∷ ("actual_parallelism", number (pos r.actual_parallelism))
    ∷ ("started_at", text started_at)
    ∷ ("ended_at", text ended_at)
    ∷ ("wait_ms", number wait_ms)
    ∷ ("task_wait_ms", number task_wait_ms)
    ∷ ("cleanup_status", text (cleanup_text r.cleanup_status))
    ∷ ("task_statuses", object (status_texts r.task_statuses))
    ∷ []

abbrev pub when : Bool → String → List String
when true error = error ∷ []
when false error = []

unfoldable pub is_blank : String → Bool
unfolding strip_both is_space is_empty codes
is_blank s = is_empty (strip_both is_space (codes s))

unfoldable pub missing_errors : List String → Dict Value → List String
missing_errors [] summary = []
missing_errors (f ∷ fs) summary =
    when (not (is_given (Dict.get summary f))) (join_texts "missing " f)
    ++ missing_errors fs summary

unfoldable pub is_text : Option Value → Bool
unfolding is_blank
is_text (some (text s)) = not (is_blank s)
is_text _ = false

unfoldable pub text_errors : List String → Dict Value → List String
unfolding is_text
text_errors [] summary = []
text_errors (f ∷ fs) summary =
    when (not (is_text (Dict.get summary f))) (join_texts f " must be a non-empty string")
    ++ text_errors fs summary

unfoldable pub is_bad_time : (String → Bool) → Option Value → Bool
unfolding is_blank
is_bad_time is_iso (some (text s)) = not (is_blank s) && not (is_iso s)
is_bad_time is_iso _ = false

unfoldable pub time_errors : (String → Bool) → List String → Dict Value → List String
unfolding is_bad_time
time_errors is_iso [] summary = []
time_errors is_iso (f ∷ fs) summary =
    when (is_bad_time is_iso (Dict.get summary f)) (join_texts f " must be an ISO-8601 timestamp")
    ++ time_errors is_iso fs summary

-- `isinstance(value, int) and not isinstance(value, bool) and value >= 0`
unfoldable pub is_natural : Option Value → Bool
is_natural (some (number (pos n))) = true
is_natural _ = false

unfoldable pub natural_errors : List String → Dict Value → List String
unfolding is_natural
natural_errors [] summary = []
natural_errors (f ∷ fs) summary =
    when (not (is_natural (Dict.get summary f))) (join_texts f " must be a non-negative integer")
    ++ natural_errors fs summary

-- `isinstance(value, int)`: a bool is an int.
unfoldable pub as_int : Option Value → Option ℤ
as_int (some (number i)) = some i
as_int (some (boolean true)) = some (pos 1)
as_int (some (boolean false)) = some (pos 0)
as_int _ = none

unfoldable pub is_zero : Option ℤ → Bool
is_zero (some i) = equal_ints i (pos 0)
is_zero none = false

unfoldable pub zero_errors : List String → Dict Value → List String
unfolding is_zero as_int
zero_errors [] summary = []
zero_errors (f ∷ fs) summary =
    when (is_zero (as_int (Dict.get summary f)))
      (join_texts f " must be positive for a Wave execution")
    ++ zero_errors fs summary

unfoldable pub exceeds : Option ℤ → Option ℤ → Bool
exceeds (some i) (some j) = gtb i j
exceeds _ _ = false

unfoldable pub exceed_error : (smaller larger : String) → Dict Value → List String
unfolding exceeds as_int
exceed_error smaller larger summary =
    when (exceeds (as_int (Dict.get summary smaller)) (as_int (Dict.get summary larger)))
      (join_texts smaller (join_texts " cannot exceed " larger))

unfoldable pub disagrees : ℕ → Option ℤ → Bool
disagrees n none = false
disagrees n (some i) = not (equal_ints (pos n) i)

-- The statuses that are none of `TERMINAL_TASK_STATES`.
unfoldable pub non_terminal : Dict String → List String
non_terminal [] = []
non_terminal ((x, s) ∷ m) =
    let rest = non_terminal m in
    if mem s ("completed" ∷ "failed" ∷ "timed_out" ∷ "cancelled" ∷ []) then rest else s ∷ rest

-- The texts in quotes, with commas between.
quoted : List String → String
quoted [] = ""
quoted (s ∷ []) = join_texts "'" (join_texts s "'")
quoted (s ∷ t ∷ ss) = join_texts "'" (join_texts s (join_texts "', " (quoted (t ∷ ss))))

unfoldable pub listed : List String → List String
unfolding quoted
listed [] = []
listed (s ∷ ss) =
    join_texts "task_statuses contains non-terminal states: [" (join_texts (quoted (s ∷ ss)) "]")
    ∷ []

unfoldable pub status_errors : Option Value → Option ℤ → List String
unfolding disagrees non_terminal listed
status_errors (some (object m)) count =
    when (disagrees (length m) count) "task_statuses count must match task_count"
    ++ listed (sorted (distinct (non_terminal m)))
status_errors _ count = "task_statuses must be an object" ∷ []

unfoldable pub is_clean : Option Value → Bool
is_clean (some (text s)) = s == "not_required" || s == "passed"
is_clean _ = false

-- `summary.get(field_name, 0)`
unfoldable pub or_zero : Option Value → Option Value
or_zero none = some (number (pos 0))
or_zero (some v) = some v

unfoldable pub wait_errors : List String → Dict Value → List String
unfolding is_natural or_zero
wait_errors [] summary = []
wait_errors (f ∷ fs) summary =
    when (not (is_natural (or_zero (Dict.get summary f))))
      (join_texts f " must be a non-negative integer")
    ++ wait_errors fs summary

abbrev pub counts : List String
counts = "task_count" ∷ "planned_parallelism" ∷ "actual_parallelism" ∷ []

unfoldable pub validate_execution_summary : (is_iso : String → Bool) → Dict Value → List String
unfolding missing_errors text_errors time_errors natural_errors zero_errors exceed_error
    status_errors is_clean wait_errors as_int
validate_execution_summary is_iso summary =
    missing_errors ("wave_id" ∷ "started_at" ∷ "ended_at" ∷ counts) summary
    ++ text_errors ("wave_id" ∷ "started_at" ∷ "ended_at" ∷ []) summary
    ++ time_errors is_iso ("started_at" ∷ "ended_at" ∷ []) summary
    ++ natural_errors counts summary
    ++ zero_errors ("task_count" ∷ "planned_parallelism" ∷ []) summary
    ++ exceed_error "actual_parallelism" "task_count" summary
    ++ exceed_error "planned_parallelism" "task_count" summary
    ++ exceed_error "actual_parallelism" "planned_parallelism" summary
    ++ status_errors (Dict.get summary "task_statuses") (as_int (Dict.get summary "task_count"))
    ++ when (not (is_clean (Dict.get summary "cleanup_status")))
        "cleanup must be complete before a Wave closes"
    ++ wait_errors ("wait_ms" ∷ "task_wait_ms" ∷ []) summary
