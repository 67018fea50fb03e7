-- ===== src/WaveExecution/Pool/Overtaking.antt =====
-- A worker takes its next future when `dispatch` has returned, and the main thread lowers
-- `_active_count` only when it collects the result. So `_max_active` can pass the pool's width.
use cairness.Base.{
  ℕ, ◌+◌, ◌≤◌, ◌<◌, String, ◌≡◌, refl, ◌∙◌, true, false, some, List, [], ◌∷◌, arith, eq_iff, length,
  max, mem, count, discard,
}
use cairness.Base.Dict
use cairness.Base.Dict.{Dict, get-put}
use cairness.WaveExecution.Ledger.{running, is_pending, TaskLedgerEntry, WaveLedger, ok, start}
use cairness.WaveExecution.Ledger.Cleanup.{not_again, differs}
use cairness.WaveExecution.Outcome.{FutureResult, value, anything}
use cairness.WaveExecution.Pool.{Pool, Event, pick, begin, settle, step, run}
use cairness.WaveExecution.Pool.Synced.{start_pending}

-- Each task is picked, begun and settled in turn, and none is collected.
unfoldable pub overtake : List String → List Event
overtake [] = []
overtake (x ∷ xs) = pick ∷ begin 0 x ∷ settle x (value anything) ∷ overtake xs

module _ (lower : String → String) (width : ℕ) where
  pub run-step :
      (v : Event) (vs : List Event) (p p' : Pool)
      → step lower width v p ≡ ok p'
      → run lower width (v ∷ vs) p ≡ run lower width vs p'
  unfolding run
  run-step v vs p p' e = rw (e, run) refl

  -- A pool with no future between the queue and the done ones.
  abbrev pub idle : WaveLedger → List String → Dict FutureResult → Pool
  idle l xs done = record { ledger = l; queue = xs; picked = []; working = []; done = done }

  pick_step :
      (x : String) (xs : List String) (l : WaveLedger) (done : Dict FutureResult)
      → 0 < width
      → step lower width pick (idle l (x ∷ xs) done)
        ≡ ok (record { ledger = l; queue = xs; picked = x ∷ []; working = []; done = done })
  unfolding step
  pick_step x xs l done pos = ground arith

  begin_step :
      (x : String) (xs : List String) (l l' : WaveLedger) (done : Dict FutureResult)
      → start 0 x l ≡ ok l'
      → step lower width
          (begin 0 x)
          (record { ledger = l; queue = xs; picked = x ∷ []; working = []; done = done })
        ≡ ok (record { ledger = l'; queue = xs; picked = []; working = x ∷ []; done = done })
  unfolding step discard
  begin_step x xs l l' done e = ground (arith, e, eq_iff x x)

  settle_step :
      (x : String) (r : FutureResult) (xs : List String) (l : WaveLedger) (done : Dict FutureResult)
      → step lower width
          (settle x r)
          (record { ledger = l; queue = xs; picked = []; working = x ∷ []; done = done })
        ≡ ok (idle l xs (Dict.put done x r))
  unfolding step discard
  settle_step x r xs l done = ground (arith, eq_iff x x)

  abbrev pub AllPending : List String → WaveLedger → Type 0
  AllPending xs l =
      (y : String)
      → mem y xs ≡ true
      → (e : TaskLedgerEntry) × (Dict.get l.entries y ≡ some e) × (is_pending e.status ≡ true)

  pub overtake_from :
      (xs : List String) (l : WaveLedger) (done : Dict FutureResult)
      → 0 < width
      → ((y : String) → count y xs ≤ 1)
      → AllPending xs l
      → l.max_active ≡ l.active_count
      → (p : Pool) × (run lower width (overtake xs) (idle l xs done) ≡ ok p)
        × (p.ledger.max_active ≡ l.active_count + length xs)
  unfolding overtake run
  overtake_from [] l done pos u p e = (idle l [] done, refl, omega arith)
  overtake_from (x ∷ xs) l done pos u p e =
      let (d, found, waits) = p x (ground (arith, eq_iff x x)) in
      let d' : TaskLedgerEntry = record d { status = running; started_at = some 0 } in
      let l' : WaveLedger = record {
        entries = Dict.put l.entries x d';
        active_count = l.active_count + 1;
        max_active = max l.max_active (l.active_count + 1);
      } in
      let r = value anything in
      let rest = overtake xs in
      let once : mem x xs ≡ false = not_again x xs (u x) in
      let (q, ran, high) =
        overtake_from xs l' (Dict.put done x r) pos (λ y. omega (arith, u y))
          (λ y m.
            let (c, there, w) = p y (ground (arith, m)) in
            (c, rw (get-put, differs x y xs once m) there, w))
          (omega (arith, e)) in
      (
        q,
        run-step pick (begin 0 x ∷ settle x r ∷ rest) _ _ (pick_step x xs l done pos)
            ∙ run-step (begin 0 x) (settle x r ∷ rest) _ _
                (begin_step x xs l l' done (start_pending 0 x l d found waits))
            ∙ run-step (settle x r) rest _ _ (settle_step x r xs l' done)
            ∙ ran,
        omega (arith, high),
      )
