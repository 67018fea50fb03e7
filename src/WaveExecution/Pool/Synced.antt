-- ===== src/WaveExecution/Pool/Synced.antt =====
-- The ledger and the thread pool agree after every move, and the main thread's `finish` never raises.
use cairness.Base.{
  ℕ, ◌+◌, ◌-◌, ◌≤◌, ◌<◌, String, ◌≡◌, refl, ap, Bool, true, false, ◌||◌, Option, none, some, List,
  [], ◌∷◌, arith, ◌==◌, eq_iff, if◌then◌else◌, length, max, Option-cases, inl, inr, Bool-cases, mem,
  ltb, count, mem→count, discard, count-discard, length-discard-lt,
}
use cairness.Base.Dict
use cairness.Base.Dict.{Dict, get-put, get→count-keys}
use cairness.WaveExecution.Ledger.{
  Status, running, is_terminal, is_running, is_pending, TaskLedgerEntry, WaveLedger, ok, start,
  finish,
}
use cairness.WaveExecution.Ledger.Terminal.{terminal-closed}
use cairness.WaveExecution.Outcome.{
  FutureResult, outcome_status, outcome_error, outcome_status-terminal,
}
use cairness.WaveExecution.Pool.{
  Pool, Event, pick, begin, settle, collect, without_key, step, run, pick_next, begin_work,
}

-- The status of an entry is one of the six.
abbrev is_known : Status → Bool
is_known s = is_pending s || (is_running s || is_terminal s)

-- Pending tasks are the queued and picked ones, running tasks those that work or are done.
pub record IsSynced (width : ℕ) (p : Pool) : Type 0 where
  pub waiting :
      (x : String) (e : TaskLedgerEntry)
      → Dict.get p.ledger.entries x ≡ some e
      → (count x p.queue + count x p.picked ≡ (if is_pending e.status then 1 else 0))
        × (count x p.working + count x (Dict.keys p.done) ≡ (if is_running e.status then 1 else 0))
        × (is_known e.status ≡ true)
  pub absent :
      (x : String)
      → Dict.get p.ledger.entries x ≡ none
      → (count x p.queue + count x p.picked ≡ 0)
        × (count x p.working + count x (Dict.keys p.done) ≡ 0)
  pub fits : length p.picked + length p.working ≤ width

count-without_key :
    (x y : String) (m : Dict FutureResult)
    → count y (Dict.keys (without_key x m)) ≡ (if x == y then 0 else count y (Dict.keys m))
unfolding without_key Dict.keys
count-without_key x y [] = ground arith
count-without_key x y ((z, r) ∷ m) =
    ground (arith, count-without_key x y m, eq_iff x y, eq_iff x z, eq_iff y z)

count-keys-put :
    (x y : String) (r : FutureResult) (m : Dict FutureResult)
    → count y (Dict.keys (Dict.put m x r))
      ≡ (if x == y then max 1 (count y (Dict.keys m)) else count y (Dict.keys m))
unfolding Dict.put Dict.keys
count-keys-put x y r [] = ground (arith, eq_iff x y, eq_iff y x)
count-keys-put x y r ((z, q) ∷ m) =
    ground
      (arith, count-keys-put x y r m, eq_iff x y, eq_iff y x, eq_iff z x, eq_iff z y, eq_iff y z)

pub start_pending :
    (now : ℕ) (x : String) (l : WaveLedger) (e : TaskLedgerEntry)
    → Dict.get l.entries x ≡ some e
    → is_pending e.status ≡ true
    → start now x l
      ≡ ok (record {
        entries = Dict.put l.entries x (record e { status = running; started_at = some now });
        active_count = l.active_count + 1;
        max_active = max l.max_active (l.active_count + 1);
      })
unfolding start
start_pending now x l e found p = rw (found, start) (ground (arith, p))

finish_running :
    (now : ℕ) (x : String) (status : Status) (error : Option String) (l : WaveLedger)
    (e : TaskLedgerEntry)
    → Dict.get l.entries x ≡ some e
    → is_running e.status ≡ true
    → is_terminal status ≡ true
    → finish now x status error l
      ≡ ok (record l {
        entries =
            Dict.put l.entries x (record e { status = status; ended_at = some now; error = error });
        active_count = l.active_count - 1;
      })
unfolding finish
finish_running now x status error l e found r t = rw (found, finish) (ground (arith, r, t))

busy-running :
    (st : Status) (a b : ℕ)
    → a + b ≡ (if is_running st then 1 else 0)
    → 0 < b
    → is_running st ≡ true
busy-running st a b h pos = ground arith

running-not_pending : (st : Status) → is_running st ≡ true → is_pending st ≡ false
running-not_pending st h = ground arith

-- Of a known status that is neither pending nor running.
ended :
    (st : Status)
    → ◌≡◌ {A = ℕ} (if is_pending st then 1 else 0) 0
    → ◌≡◌ {A = ℕ} (if is_running st then 1 else 0) 0
    → is_known st ≡ true
    → is_terminal st ≡ true
ended st p r k = ground arith

module _ (width : ℕ) where
  pick-IsSynced :
      (q : List String) (p : Pool)
      → p.queue ≡ q
      → IsSynced width p
      → IsSynced width (pick_next width q p)
  unfolding pick_next
  pick-IsSynced [] p e s = s
  pick-IsSynced (x ∷ q) p e s = elim (Bool-cases (ltb (length p.picked + length p.working) width)) [
    | inr full ↦ rw full s
    | inl room ↦ rw room (record {
      waiting = λ y d there. ground (arith, s.waiting y d there, ap (count y) e);
      absent = λ y gone. ground (arith, s.absent y gone, ap (count y) e);
      fits = ground arith;
    })
  ]

  begin-IsSynced :
      (now : ℕ) (x : String) (p : Pool)
      → IsSynced width p
      → mem x p.picked ≡ true
      → IsSynced width (begin_work x (start now x p.ledger) p)
  unfolding begin_work
  begin-IsSynced now x p s here = elim (Option-cases (Dict.get p.ledger.entries x)) [
    | inl none_there ↦ absurd (omega (arith, (s.absent x none_there).0, mem→count x p.picked here))
    | inr (e, found) ↦
        let w = s.waiting x e found in
        let present = mem→count x p.picked here in
        let waits : is_pending e.status ≡ true = ground (arith, w.0, present) in
        let e' : TaskLedgerEntry = record e { status = running; started_at = some now } in
        rw (start_pending now x p.ledger e found waits) (record {
          waiting = λ y d there. ground (
            arith,
            s.waiting y d,
            there,
            w,
            waits,
            present,
            get-put p.ledger.entries x e' y,
            count-discard x y p.picked,
            eq_iff x y,
            eq_iff y x,
          );
          absent = λ y gone. ground (
            arith,
            s.absent y,
            gone,
            get-put p.ledger.entries x e' y,
            count-discard x y p.picked,
            eq_iff x y,
            eq_iff y x,
          );
          fits = omega (arith, s.fits, length-discard-lt x p.picked present);
        })
  ]

  settle-IsSynced :
      (x : String) (r : FutureResult) (p : Pool)
      → IsSynced width p
      → mem x p.working ≡ true
      → IsSynced width (record p { working = discard x p.working; done = Dict.put p.done x r })
  settle-IsSynced x r p s here =
      let present = mem→count x p.working here in
      record {
        waiting = λ y d there. ground (
          arith,
          s.waiting y d there,
          present,
          count-discard x y p.working,
          count-keys-put x y r p.done,
          eq_iff x y,
          ap (λ z. count z p.working) {x = x} {y = y},
          ap (λ z. count z (Dict.keys p.done)) {x = x} {y = y},
        );
        absent = λ y gone. ground (
          arith,
          s.absent y gone,
          present,
          count-discard x y p.working,
          count-keys-put x y r p.done,
          eq_iff x y,
          ap (λ z. count z p.working) {x = x} {y = y},
        );
        fits = omega (arith, s.fits, length-discard-lt x p.working present);
      }

  collect-IsSynced :
      (x : String) (p : Pool) (e e' : TaskLedgerEntry) (n : ℕ)
      → IsSynced width p
      → Dict.get p.ledger.entries x ≡ some e
      → 0 < count x (Dict.keys p.done)
      → is_terminal e'.status ≡ true
      → IsSynced width (record p {
        ledger = record p.ledger { entries = Dict.put p.ledger.entries x e'; active_count = n };
        done = without_key x p.done;
      })
  collect-IsSynced x p e e' n s found here t =
      let w = s.waiting x e found in
      let runs = busy-running e.status (count x p.working) (count x (Dict.keys p.done)) w.1 here in
      let idle = running-not_pending e.status runs in
      let closed = terminal-closed e'.status t in
      record {
        waiting = λ y d there. ground (
          arith,
          s.waiting y d,
          there,
          w,
          here,
          runs,
          idle,
          closed,
          t,
          get-put p.ledger.entries x e' y,
          count-without_key x y p.done,
          eq_iff x y,
        );
        absent = λ y gone. ground (
          arith,
          s.absent y,
          gone,
          get-put p.ledger.entries x e' y,
          count-without_key x y p.done,
          eq_iff x y,
        );
        fits = s.fits;
      }

  module _ (lower : String → String) where
    -- Every move is possible or without effect, and keeps ledger and pool in step.
    pub step-IsSynced :
        (v : Event) (p : Pool)
        → IsSynced width p
        → (p' : Pool) × (step lower width v p ≡ ok p') × IsSynced width p'
    unfolding step
    step-IsSynced pick p s = (pick_next width p.queue p, refl, pick-IsSynced p.queue p refl s)
    step-IsSynced (begin now x) p s = elim (Bool-cases (mem x p.picked)) [
      | inl here ↦
          (begin_work x (start now x p.ledger) p, rw (here, step), begin-IsSynced now x p s here)
      | inr gone ↦ (p, rw (gone, step), s)
    ]
    step-IsSynced (settle x r) p s = elim (Bool-cases (mem x p.working)) [
      | inl here ↦ (
        record p { working = discard x p.working; done = Dict.put p.done x r },
        rw (here, step),
        settle-IsSynced x r p s here,
      )
      | inr gone ↦ (p, rw (gone, step), s)
    ]
    step-IsSynced (collect now x) p s = elim (Option-cases (Dict.get p.done x)) [
      | inl gone ↦ (p, rw (gone, step), s)
      | inr (r, there) ↦
          let here = get→count-keys x r p.done there in
          elim (Option-cases (Dict.get p.ledger.entries x)) [
            | inl unknown ↦ absurd (omega (arith, (s.absent x unknown).1, here))
            | inr (e, found) ↦
                let w = s.waiting x e found in
                let runs =
                  busy-running e.status (count x p.working) (count x (Dict.keys p.done)) w.1 here in
                let status = outcome_status lower r in
                let error = outcome_error lower r in
                let e' : TaskLedgerEntry = record e {
                  status = status;
                  ended_at = some now;
                  error = error;
                } in
                let ends = outcome_status-terminal lower r in
                (
                  record p {
                    ledger = record p.ledger {
                      entries = Dict.put p.ledger.entries x e';
                      active_count = p.ledger.active_count - 1;
                    };
                    done = without_key x p.done;
                  },
                  rw (there, step)
                      (rw (finish_running now x status error p.ledger e found runs ends)),
                  collect-IsSynced x p e e' (p.ledger.active_count - 1) s found here ends,
                )
          ]
    ]

    -- Whatever the moves of the threads are, `ledger.finish` never raises in the main thread; the
    -- ledger's statuses stay in step with the futures, and at most `width` workers are busy.
    pub run-IsSynced :
        (vs : List Event) (p : Pool)
        → IsSynced width p
        → (p' : Pool) × (run lower width vs p ≡ ok p') × IsSynced width p'
    unfolding run
    run-IsSynced [] p s = (p, refl, s)
    run-IsSynced (v ∷ vs) p s =
        let (next, moved, s') = step-IsSynced v p s in
        let (end, ran, s'') = run-IsSynced vs next s' in (end, rw (moved, run) ran, s'')

-- With no future left, every task has ended.
pub synced_drained :
    (width : ℕ) (p : Pool)
    → IsSynced width p
    → p.queue ≡ []
    → p.picked ≡ []
    → p.working ≡ []
    → p.done ≡ []
    → (x : String) (e : TaskLedgerEntry) → Dict.get p.ledger.entries x ≡ some e
    → is_terminal e.status ≡ true
unfolding Dict.keys
synced_drained width p s q k w d x e found =
    let at_x = s.waiting x e found in
    ended e.status (omega (arith, ap (count x) q, ap (count x) k, at_x.0))
      (omega (arith, ap (count x) w, ap (λ m. count x (Dict.keys m)) d, at_x.1)) at_x.2
