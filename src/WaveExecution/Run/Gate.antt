-- ===== src/WaveExecution/Run/Gate.antt =====
-- The join gate of `execute_wave`, with and without a timeout or a cleanup.
use cairness.Base.{
  ℕ, String, ◌≡◌, ◌↔◌, refl, Bool, true, false, ◌&&◌, Option, none, some, List, [], ◌∷◌, arith, ltb,
  eqb, min, length, Bool-cases, inl, inr, subst,
}
use cairness.Base.Dict.{Dict}
use cairness.WaveExecution.Ledger.{
  Status, pending, running, completed, failed, timed_out, cancelled, other, is_terminal,
  TaskLedgerEntry, WaveLedger, Result, ok, err, entries_terminal, all_terminal, new_ledger,
}
use cairness.WaveExecution.Pool.{Pool, Event, run, submitted}
use cairness.WaveExecution.Run.{
  returned, WaveExecutionResult, CleanupStatus, Cleanup, close, statuses, result_of, join,
  close_and_join, is_drained, expire, execute_wave, stop, has_timeout, all_completed, not_required,
  required,
}

abbrev pub AllStatuses : (Status → Bool) → Dict Status → Type 0
AllStatuses test [] = Unit
AllStatuses test ((x, s) ∷ m) = (test s ≡ true) × AllStatuses test m

abbrev is_completed : Status → Bool
is_completed completed = true
is_completed _ = false

all_completed_iff : (m : Dict Status) → (all_completed m ≡ true) ↔ AllStatuses is_completed m
unfolding all_completed
all_completed_iff [] = ((λ h. tt), (λ h. refl))
all_completed_iff ((x, completed) ∷ m) =
    let (to, from) = all_completed_iff m in ((λ h. (refl, to h)), (λ h. from h.1))
all_completed_iff ((x, pending) ∷ m) = ((λ h. absurd (cc)), (λ h. absurd (cc (h.0))))
all_completed_iff ((x, running) ∷ m) = ((λ h. absurd (cc)), (λ h. absurd (cc (h.0))))
all_completed_iff ((x, failed) ∷ m) = ((λ h. absurd (cc)), (λ h. absurd (cc (h.0))))
all_completed_iff ((x, timed_out) ∷ m) = ((λ h. absurd (cc)), (λ h. absurd (cc (h.0))))
all_completed_iff ((x, cancelled) ∷ m) = ((λ h. absurd (cc)), (λ h. absurd (cc (h.0))))
all_completed_iff ((x, other t) ∷ m) = ((λ h. absurd (cc)), (λ h. absurd (cc (h.0))))

terminal_statuses :
    (m : Dict TaskLedgerEntry) → entries_terminal m ≡ true → AllStatuses is_terminal (statuses m)
unfolding entries_terminal statuses
terminal_statuses [] h = tt
terminal_statuses ((x, e) ∷ m) h = (ground arith, terminal_statuses m (ground arith))

-- What a returned result shows, whatever happened before.
pub record IsClosed (r : WaveExecutionResult) : Type 0 where
  pub ended : AllStatuses is_terminal r.task_statuses
  pub passed_iff : (r.passed ≡ true) ↔ AllStatuses is_completed r.task_statuses

join-IsClosed :
    (wave_id : String) (l : WaveLedger) (c : CleanupStatus) (r : WaveExecutionResult)
    → join wave_id l c ≡ returned r
    → IsClosed r
unfolding join
join-IsClosed wave_id l c r h = elim (Bool-cases (all_terminal l)) [
  | inr unfinished ↦ absurd (ground (arith, h, unfinished))
  | inl t ↦ subst IsClosed {x = result_of wave_id l c} (ground (arith, h, t)) (
      unfold result_of in
      record {
        ended = terminal_statuses l.entries t;
        passed_iff = all_completed_iff (statuses l.entries);
      })
]

close_and_join-IsClosed :
    (wave_id : String) (now : ℕ) (cleanup : Cleanup) (so_far : CleanupStatus) (l : WaveLedger)
    (r : WaveExecutionResult)
    → close_and_join wave_id now cleanup so_far l ≡ returned r
    → IsClosed r
unfolding close_and_join
close_and_join-IsClosed wave_id now cleanup so_far l r h =
    let (l', c) = close now cleanup so_far l in join-IsClosed wave_id l' c r h

stop-IsClosed :
    (wave_id : String) (ids : List String) (now : ℕ) (expires : Bool) (cleanup : Cleanup) (p : Pool)
    (r : WaveExecutionResult)
    → stop wave_id ids now expires cleanup p ≡ returned r
    → IsClosed r
unfolding stop
stop-IsClosed wave_id ids now expires cleanup p r h = elim (Bool-cases (is_drained p)) [
  | inl d ↦
      close_and_join-IsClosed wave_id now cleanup not_required p.ledger r (ground (arith, h, d))
  | inr d ↦ elim (Bool-cases expires) [
    | inr stays ↦ absurd (ground (arith, h, d, stays))
    | inl e ↦ expired d e (expire now ids p) refl
  ]
]
  where
    expired :
        is_drained p ≡ false
        → expires ≡ true
        → (q : Result Pool) → expire now ids p ≡ q
        → IsClosed r
    expired d e (err v) q = absurd (ground (arith, h, d, e, q))
    expired d e (ok p') q =
        close_and_join-IsClosed wave_id now cleanup required p'.ledger r
          (ground (arith, h, d, e, q))

-- Whatever the arguments, the threads' moves, the timeout and the cleanup are: if `execute_wave`
-- returns a result, every status in it is terminal, and `passed` is true exactly when all of them
-- are `completed`.
pub execute_wave-IsClosed :
    (lower : String → String) (wave_id : String) (ids : List String) (max_parallel : ℕ)
    (timeout_s : Option ℕ) (cleanup : Cleanup) (events : List Event) (expires : Bool) (now : ℕ)
    (r : WaveExecutionResult)
    → execute_wave lower wave_id ids max_parallel timeout_s cleanup events expires now ≡ returned r
    → IsClosed r
unfolding execute_wave
execute_wave-IsClosed lower wave_id ids max_parallel timeout_s cleanup events expires now r h =
    elim (Bool-cases (ltb max_parallel 1)) [
      | inl few ↦ absurd (ground (arith, h, few))
      | inr some_workers ↦ elim (Bool-cases (elim timeout_s [ none ↦ false | some t ↦ eqb t 0 ])) [
        | inl no_time ↦ absurd (ground (arith, h, some_workers, no_time))
        | inr fine ↦ made some_workers fine (new_ledger wave_id ids) refl
      ]
    ]
  where
    ran :
        ltb max_parallel 1 ≡ false
        → elim timeout_s [ none ↦ false | some t ↦ eqb t 0 ] ≡ false
        → (l : WaveLedger) → new_ledger wave_id ids ≡ ok l
        → (q : Result Pool) → run lower (min max_parallel (length ids)) events (submitted l ids) ≡ q
        → IsClosed r
    ran s f l m (err v) q = absurd (ground (arith, h, s, f, m, q))
    ran s f l m (ok p) q =
        stop-IsClosed wave_id ids now (expires && has_timeout timeout_s) cleanup p r
          (ground (arith, h, s, f, m, q))

    made :
        ltb max_parallel 1 ≡ false
        → elim timeout_s [ none ↦ false | some t ↦ eqb t 0 ] ≡ false
        → (q : Result WaveLedger) → new_ledger wave_id ids ≡ q
        → IsClosed r
    made s f (err v) q = absurd (ground (arith, h, s, f, q))
    made s f (ok l) q =
        ran s f l q (run lower (min max_parallel (length ids)) events (submitted l ids)) refl
