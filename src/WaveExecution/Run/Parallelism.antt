-- ===== src/WaveExecution/Run/Parallelism.antt =====
-- What `actual_parallelism` measures.
use cairness.Base.{ℕ, ◌≤◌, ◌<◌, String, ◌≡◌, refl, List, [], arith, count, length}
use cairness.WaveExecution.Ledger.{ok, fresh_entry}
use cairness.WaveExecution.Pool.{Pool, run, submitted}
use cairness.WaveExecution.Pool.Overtaking.{overtake, overtake_from}
use cairness.WaveExecution.Run.Fresh.{fresh, get-fresh_entries}

-- For any positive number of workers and any distinct tasks there are moves of the threads, with
-- one task picked at a time, after which `max_active`, which becomes `actual_parallelism`, is the
-- number of tasks.
pub max_active_overtakes :
    (lower : String → String) (width : ℕ) (ids : List String)
    → 0 < width
    → ((x : String) → count x ids ≤ 1)
    → (p : Pool) × (run lower width (overtake ids) (submitted (fresh ids) ids) ≡ ok p)
      × (p.ledger.max_active ≡ length ids)
max_active_overtakes lower width ids pos u =
    let (p, ran, high) =
      overtake_from lower width ids (fresh ids) [] pos u
        (λ y m. (fresh_entry, ground (arith, get-fresh_entries [] ids y, m), refl)) refl in
    (p, ran, omega (arith, high))
