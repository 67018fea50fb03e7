-- ===== src/WaveExecution/Pool/Drained.antt =====
-- The thread pool (wave_execution.py) is never stuck: some moves of the threads end all its tasks.
use cairness.Base.{
  ℕ, zero, suc, ◌+◌, ◌*◌, ◌≤◌, ◌<◌, String, ◌≡◌, refl, sym, ap, ◌∙◌, subst, some, List, [], ◌∷◌,
  ◌++◌, eq_iff, length, mem, discard, count, length-discard-lt, arith, List-cases, ◌⊎◌, inl, inr,
}
use cairness.Base.Dict
use cairness.Base.Dict.{Dict}
use cairness.WaveExecution.Ledger.{Result, ok, err, WaveLedger, start, finish}
use cairness.WaveExecution.Outcome.{
  FutureResult, value, exception, anything, outcome_status, outcome_error,
}
use cairness.WaveExecution.Pool.{
  Pool, Event, pick, begin, settle, collect, without_key, pick_next, begin_work, step, run,
}
use cairness.WaveExecution.Pool.Synced.{IsSynced, step-IsSynced}

-- What is still to be done for all futures.
abbrev pub work : Pool → ℕ
work p = 4 * length p.queue + 3 * length p.picked + 2 * length p.working + length p.done

length-put :
    (m : Dict FutureResult) (x : String) (r : FutureResult)
    → length (Dict.put m x r) ≤ suc (length m)
unfolding Dict.put
length-put [] x r = omega arith
length-put ((y, s) ∷ m) x r = ground (arith, length-put m x r)

length-without_key-le : (x : String) (m : Dict FutureResult) → length (without_key x m) ≤ length m
unfolding without_key
length-without_key-le x [] = omega arith
length-without_key-le x ((y, r) ∷ m) = ground (arith, length-without_key-le x m)

discard_first : (x : String) (xs l : List String) → l ≡ x ∷ xs → length (discard x l) < length l
discard_first x xs l e = length-discard-lt x l (ground (arith, ap (count x) e, eq_iff x x))

without_first :
    (x : String) (r : FutureResult) (m d : Dict FutureResult)
    → d ≡ (x, r) ∷ m
    → length (without_key x d) < length d
unfolding without_key
without_first x r m d e =
    subst (λ l. length (without_key x l) < length l) (sym e)
      (ground (arith, length-without_key-le x m, eq_iff x x))

module _ (lower : String → String) (width : ℕ) where
  -- A move after which less is to be done.
  abbrev Shrinks : Pool → Type 0
  Shrinks p = (v : Event) × ((p' : Pool) → step lower width v p ≡ ok p' → work p' < work p)

  begin_work-less :
      (x : String) (xs : List String) (p : Pool) (r : Result WaveLedger)
      → p.picked ≡ x ∷ xs
      → work (begin_work x r p) < work p
  unfolding begin_work
  begin_work-less x xs p (ok l) e = omega (arith, discard_first x xs p.picked e)
  begin_work-less x xs p (err v) e = omega (
    arith,
    discard_first x xs p.picked e,
    length-put p.done x (exception "WaveExecutionError: task cannot start"),
  )

  shrink_done :
      (x : String) (r : FutureResult) (m : Dict FutureResult) (p : Pool)
      → p.done ≡ (x, r) ∷ m
      → Shrinks p
  unfolding step without_key Dict.get
  shrink_done x r m p e = (
    collect 0 x,
    λ p' h. go p' (finish 0 x (outcome_status lower r) (outcome_error lower r) p.ledger) refl h,
  )
    where
      found : Dict.get p.done x ≡ some r
      found = ap (λ d. Dict.get d x) e ∙ ground (arith, eq_iff x x)

      go :
          (p' : Pool) (q : Result WaveLedger)
          → finish 0 x (outcome_status lower r) (outcome_error lower r) p.ledger ≡ q
          → step lower width (collect 0 x) p ≡ ok p'
          → work p' < work p
      go p' (err v) k h = absurd (ground (arith, h, k, found))
      go p' (ok l) k h =
          subst (λ q. work q < work p) {x = record p { ledger = l; done = without_key x p.done }}
            {y = p'} (ground (arith, h, k, found)) (omega (arith, without_first x r m p.done e))

  shrink_working : (x : String) (xs : List String) (p : Pool) → p.working ≡ x ∷ xs → Shrinks p
  unfolding step
  shrink_working x xs p e = (
    settle x (value anything),
    λ p' h.
        subst (λ q. work q < work p)
          {x = record p {
            working = discard x p.working;
            done = Dict.put p.done x (value anything);
          }}
          {y = p'} (ground (arith, h, ap (mem x) e, eq_iff x x))
          (omega (arith, discard_first x xs p.working e, length-put p.done x (value anything))),
  )

  shrink_picked : (x : String) (xs : List String) (p : Pool) → p.picked ≡ x ∷ xs → Shrinks p
  unfolding step
  shrink_picked x xs p e = (
    begin 0 x,
    λ p' h.
        subst (λ q. work q < work p) {x = begin_work x (start 0 x p.ledger) p} {y = p'}
          (ground (arith, h, ap (mem x) e, eq_iff x x))
          (begin_work-less x xs p (start 0 x p.ledger) e),
  )

  shrink_queue :
      (x : String) (xs : List String) (p : Pool)
      → 0 < width
      → p.picked ≡ []
      → p.working ≡ []
      → p.queue ≡ x ∷ xs
      → Shrinks p
  unfolding step pick_next
  shrink_queue x xs p pos no_picked no_working e = (
    pick,
    λ p' h.
        subst (λ q. work q < work p) {x = record p { queue = xs; picked = x ∷ p.picked }} {y = p'}
          (ground (arith, h, picked)) (omega (arith, ap length e)),
  )
    where
      picked : pick_next width p.queue p ≡ record p { queue = xs; picked = x ∷ p.picked }
      picked =
          ap (λ q. pick_next width q p) e
          ∙ ground (arith, pos, ap length no_picked, ap length no_working)

  shrink : (p : Pool) → 0 < width → (work p ≡ 0) ⊎ Shrinks p
  shrink p pos = elim (List-cases p.done) [
    | inr (r, m, d) ↦ inr (shrink_done r.0 r.1 m p d)
    | inl no_done ↦ elim (List-cases p.working) [
      | inr (x, xs, w) ↦ inr (shrink_working x xs p w)
      | inl no_working ↦ elim (List-cases p.picked) [
        | inr (x, xs, k) ↦ inr (shrink_picked x xs p k)
        | inl no_picked ↦ elim (List-cases p.queue) [
          | inr (x, xs, q) ↦ inr (shrink_queue x xs p pos no_picked no_working q)
          | inl no_queue ↦ inl (
              omega (
                arith,
                ap length no_done,
                ap length no_working,
                ap length no_picked,
                ap length no_queue,
              ))
        ]
      ]
    ]
  ]

  pub run-append :
      (vs ws : List Event) (p p' p'' : Pool)
      → run lower width vs p ≡ ok p'
      → run lower width ws p' ≡ ok p''
      → run lower width (vs ++ ws) p ≡ ok p''
  unfolding run
  run-append [] ws p p' p'' h k =
      subst (λ q. run lower width ws q ≡ ok p'') {x = p'} {y = p} (ground (arith, h)) k
  run-append (v ∷ vs) ws p p' p'' h k =
      go (step lower width v p) refl h (λ q e. run-append vs ws q p' p'' e k)
    where
      go :
          (r : Result Pool)
          → step lower width v p ≡ r
          → run lower width (v ∷ vs) p ≡ ok p'
          → ((q : Pool) → run lower width vs q ≡ ok p' → run lower width (vs ++ ws) q ≡ ok p'')
          → run lower width (v ∷ (vs ++ ws)) p ≡ ok p''
      go (ok q) e h rest = rw (e, run) (rest q (ground (arith, h, e)))
      go (err w) e h rest = absurd (ground (arith, h, e))

  -- Some moves end all tasks of a pool that is in step with its ledger.
  pub drain :
      (n : ℕ) (p : Pool)
      → work p ≤ n
      → 0 < width
      → IsSynced width p
      → (vs : List Event) × (p' : Pool) × (run lower width vs p ≡ ok p') × (work p' ≡ 0)
  unfolding run
  drain zero p few pos s = elim (shrink p pos) [
    | inl none_left ↦ ([], p, refl, none_left)
    | inr (v, less) ↦
        let (p1, moved, s1) = step-IsSynced width lower v p s in
        absurd (omega (arith, less p1 moved, few))
  ]
  drain (suc n) p few pos s = elim (shrink p pos) [
    | inl none_left ↦ ([], p, refl, none_left)
    | inr (v, less) ↦
        let (p1, moved, s1) = step-IsSynced width lower v p s in
        let (vs, p2, ran, none_left) = drain n p1 (omega (arith, less p1 moved, few)) pos s1 in
        (v ∷ vs, p2, rw (moved, run) ran, none_left)
  ]
