-- ===== src/WaveExecution/Ledger.antt =====
-- `TaskLedgerEntry` and `WaveLedger` (wave_execution.py). A method returns the new ledger, or the
-- error that it raises. `now` is the reading of `monotonic()`, in the clock's ticks.
pub mod Invariant
pub mod Terminal
pub mod Entries
pub mod Cleanup
use cairness.Base.{
  ℕ, zero, suc, ◌+◌, ◌-◌, String, Bool, true, false, not, ◌&&◌, ◌||◌, Option, none, some, List, [],
  ◌∷◌, ◌==◌, if◌then◌else◌, eqb, ltb, count, length, max, filter_b,
}
use cairness.Base.Dict
use cairness.Base.Dict.{Dict}

-- `other` is any text that is none of the six.
pub data Status : Type 0 where
  pending running completed failed timed_out cancelled : Status
  other : String → Status

-- `status in TERMINAL_TASK_STATES`
abbrev pub is_terminal : Status → Bool
is_terminal completed = true
is_terminal failed = true
is_terminal timed_out = true
is_terminal cancelled = true
is_terminal _ = false

abbrev pub is_running : Status → Bool
is_running running = true
is_running _ = false

abbrev pub is_pending : Status → Bool
is_pending pending = true
is_pending _ = false

pub record TaskLedgerEntry : Type 0 where
  pub status : Status
  pub started_at : Option ℕ
  pub ended_at : Option ℕ
  pub error : Option String

pub record WaveLedger : Type 0 where
  pub entries : Dict TaskLedgerEntry
  pub active_count : ℕ
  pub max_active : ℕ

pub data Error : Type 0 where
  empty_wave_id : Error
  invalid_task_ids : Error
  unknown_task : String → Error
  cannot_start : String → Status → Error
  not_terminal : String → Status → Error
  cannot_finish : String → Status → Error
  cleanup_not_terminal : Status → Error

pub data Result (A : Type 0) : Type 0 where
  ok : A → Result A
  err : Error → Result A

abbrev pub and_then : {A B : Type 0} → Result A → (A → Result B) → Result B
and_then (ok a) f = f a
and_then (err e) f = err e

abbrev pub fresh_entry : TaskLedgerEntry
fresh_entry = record { status = pending; started_at = none; ended_at = none; error = none }

-- `len(set(ids)) == len(ids)`
unfoldable pub are_unique : List String → Bool
are_unique [] = true
are_unique (x ∷ xs) = eqb (count x xs) 0 && are_unique xs

unfoldable pub fresh_entries : Dict TaskLedgerEntry → List String → Dict TaskLedgerEntry
fresh_entries m [] = m
fresh_entries m (x ∷ xs) = fresh_entries (Dict.put m x fresh_entry) xs

unfoldable pub is_empty : List String → Bool
is_empty [] = true
is_empty (x ∷ xs) = false

-- `WaveLedger(wave_id, task_ids)` with its `__post_init__`
unfoldable pub new_ledger : String → List String → Result WaveLedger
unfolding is_empty
new_ledger wave_id ids =
    if wave_id == ""
    then err empty_wave_id
    else if is_empty ids || not (are_unique ids)
    then err invalid_task_ids
    else ok (record { entries = fresh_entries [] ids; active_count = 0; max_active = 0 })

-- The keys whose entry has a status that passes the test.
unfoldable pub ids_with : (Status → Bool) → Dict TaskLedgerEntry → List String
ids_with test [] = []
ids_with test ((x, e) ∷ m) = let rest = ids_with test m in if test e.status then x ∷ rest else rest

abbrev pub active_task_ids : WaveLedger → List String
active_task_ids l = ids_with is_running l.entries

abbrev pub pending_task_ids : WaveLedger → List String
pending_task_ids l = ids_with is_pending l.entries

unfoldable pub entries_terminal : Dict TaskLedgerEntry → Bool
entries_terminal [] = true
entries_terminal ((x, e) ∷ m) = is_terminal e.status && entries_terminal m

abbrev pub all_terminal : WaveLedger → Bool
all_terminal l = entries_terminal l.entries

-- `start`, once `_entry` has found the entry
start_entry : ℕ → String → TaskLedgerEntry → WaveLedger → Result WaveLedger
start_entry now x e l =
    if is_pending e.status
    then ok (record {
      entries = Dict.put l.entries x (record e { status = running; started_at = some now });
      active_count = l.active_count + 1;
      max_active = max l.max_active (l.active_count + 1);
    })
    else err (cannot_start x e.status)

unfoldable pub start : ℕ → String → WaveLedger → Result WaveLedger
unfolding start_entry
start now x l = elim (Dict.get l.entries x) [
  | none ↦ err (unknown_task x)
  | some e ↦ start_entry now x e l
]

finish_entry :
    ℕ → String → Status → Option String → TaskLedgerEntry → WaveLedger → Result WaveLedger
finish_entry now x status error e l =
    if not (is_terminal status)
    then err (not_terminal x status)
    else if is_running e.status || is_pending e.status
    then ok (record l {
      entries =
          Dict.put l.entries x (record e { status = status; ended_at = some now; error = error });
      active_count = if is_running e.status then l.active_count - 1 else l.active_count;
    })
    else err (cannot_finish x e.status)

unfoldable pub finish : ℕ → String → Status → Option String → WaveLedger → Result WaveLedger
unfolding finish_entry
finish now x status error l = elim (Dict.get l.entries x) [
  | none ↦ err (unknown_task x)
  | some e ↦ finish_entry now x status error e l
]

-- `for task_id in ids: self.finish(task_id, status)`
unfoldable pub finish_all : ℕ → Status → List String → WaveLedger → Result WaveLedger
finish_all now status [] l = ok l
finish_all now status (x ∷ xs) l = and_then (finish now x status none l) (finish_all now status xs)

unfoldable pub cleanup_pending : ℕ → Status → WaveLedger → Result WaveLedger
cleanup_pending now status l =
    if is_terminal status
    then finish_all now status (pending_task_ids l) l
    else err (cleanup_not_terminal status)
