-- ===== src/WaveExecution/Pool/Kept.antt =====
-- No move changes the ids of the ledger, nor breaks its counters.
use cairness.Base.{
  ℕ, String, ◌≡◌, refl, ◌∙◌, Option, List, [], ◌∷◌, arith, mem, discard, Bool-cases, Option-cases,
  inl, inr, subst,
}
use cairness.Base.Dict
use cairness.Base.Dict.{Dict, get-put, keys-put_new}
use cairness.WaveExecution.Ledger.{Status, WaveLedger, Result, ok, err, start, finish}
use cairness.WaveExecution.Ledger.Invariant.{IsCounted, start-IsCounted, finish-IsCounted}
use cairness.WaveExecution.Ledger.Entries.{keys-start, keys-finish}
use cairness.WaveExecution.Outcome.{outcome_status, outcome_error}
use cairness.WaveExecution.Pool.{
  Pool, Event, pick, begin, settle, collect, collected, step, run, pick_next, begin_work,
}

ok-injective : {A : Type 0} {a b : A} → ok a ≡ ok b → a ≡ b
ok-injective e = cc

module _ (lower : String → String) (width : ℕ) where
  pub record IsKept (ids : List String) (p : Pool) : Type 0 where
    pub counted : IsCounted p.ledger
    pub keyed : Dict.keys p.ledger.entries ≡ ids

  pick-IsKept : (ids q : List String) (p : Pool) → IsKept ids p → IsKept ids (pick_next width q p)
  unfolding pick_next
  pick-IsKept ids [] p k = k
  pick-IsKept ids (x ∷ q) p k = ground (arith, k)

  begin-IsKept :
      (ids : List String) (now : ℕ) (x : String) (r : Result WaveLedger) (p : Pool)
      → start now x p.ledger ≡ r
      → IsKept ids p
      → IsKept ids (begin_work x r p)
  unfolding begin_work
  begin-IsKept ids now x (ok l) p e k = record {
    counted = start-IsCounted now x p.ledger l k.counted e;
    keyed = keys-start now x p.ledger l e ∙ k.keyed;
  }
  begin-IsKept ids now x (err _) p e k = record { counted = k.counted; keyed = k.keyed }

  collect-IsKept :
      (ids : List String) (now : ℕ) (x : String) (status : Status) (error : Option String)
      (r : Result WaveLedger) (p p' : Pool)
      → finish now x status error p.ledger ≡ r
      → collected x p r ≡ ok p'
      → IsKept ids p
      → IsKept ids p'
  collect-IsKept ids now x status error (ok l) p p' e c k =
      subst (IsKept ids) (ok-injective c) (record {
        counted = finish-IsCounted now x status error p.ledger l k.counted e;
        keyed = keys-finish now x status error p.ledger l e ∙ k.keyed;
      })
  collect-IsKept ids now x status error (err _) p p' e c k = absurd (cc)

  step-IsKept :
      (ids : List String) (v : Event) (p p' : Pool)
      → IsKept ids p
      → step lower width v p ≡ ok p'
      → IsKept ids p'
  unfolding step
  step-IsKept ids pick p p' k h =
      subst (IsKept ids) (ground (arith, h)) (pick-IsKept ids p.queue p k)
  step-IsKept ids (begin now x) p p' k h = elim (Bool-cases (mem x p.picked)) [
    | inl here ↦
        subst (IsKept ids) (ground (arith, h, here))
          (begin-IsKept ids now x (start now x p.ledger) p refl k)
    | inr gone ↦ subst (IsKept ids) (ground (arith, h, gone)) k
  ]
  step-IsKept ids (settle x r) p p' k h = elim (Bool-cases (mem x p.working)) [
    | inl here ↦
        let q = record p { working = discard x p.working; done = Dict.put p.done x r } in
        subst (IsKept ids) {x = q} (ground (arith, h, here))
          (record { counted = k.counted; keyed = k.keyed })
    | inr gone ↦ subst (IsKept ids) (ground (arith, h, gone)) k
  ]
  step-IsKept ids (collect now x) p p' k h = elim (Option-cases (Dict.get p.done x)) [
    | inl gone ↦ subst (IsKept ids) (ground (arith, h, gone)) k
    | inr (r, there) ↦
        collect-IsKept ids now x (outcome_status lower r) (outcome_error lower r)
          (finish now x (outcome_status lower r) (outcome_error lower r) p.ledger) p p' refl
          (ground (arith, h, there)) k
  ]

  pub run-IsKept :
      (ids : List String) (vs : List Event) (p p' : Pool)
      → IsKept ids p
      → run lower width vs p ≡ ok p'
      → IsKept ids p'
  unfolding run
  run-IsKept ids [] p p' k h = subst (IsKept ids) (ground (arith, h)) k
  run-IsKept ids (v ∷ vs) p p' k h = next (step lower width v p) refl (λ q. run-IsKept ids vs q p')
    where
      next :
          (r : Result Pool)
          → step lower width v p ≡ r
          → ((q : Pool) → IsKept ids q → run lower width vs q ≡ ok p' → IsKept ids p')
          → IsKept ids p'
      next (err e) moved later = absurd (ground (arith, h, moved))
      next (ok q) moved later = later q (step-IsKept ids v p q k moved) (ground (arith, h, moved))
