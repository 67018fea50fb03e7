-- ===== src/WaveExecution/Ledger/Invariant.antt =====
-- The counters of a ledger agree with its entries, whatever is called.
use cairness.Base.{
  ℕ, ◌+◌, ◌≤◌, String, ◌≡◌, Bool, Option, some, [], ◌∷◌, arith, ◌==◌, if◌then◌else◌, length,
  Option-cases, inl, inr, Bool-cases, subst,
}
use cairness.Base.Dict
use cairness.Base.Dict.{Dict}
use cairness.WaveExecution.Ledger.{
  Status, running, is_running, TaskLedgerEntry, WaveLedger, ok, start, finish,
}

-- How many entries have a status that passes the test.
unfoldable pub tally : (Status → Bool) → Dict TaskLedgerEntry → ℕ
tally test [] = 0
tally test ((x, e) ∷ m) = (if test e.status then 1 else 0) + tally test m

pub tally-put :
    (test : Status → Bool) (m : Dict TaskLedgerEntry) (x : String) (e e' : TaskLedgerEntry)
    → Dict.get m x ≡ some e
    → tally test (Dict.put m x e') + (if test e.status then 1 else 0)
      ≡ tally test m + (if test e'.status then 1 else 0)
unfolding tally Dict.get Dict.put
tally-put test [] x e e' h = absurd (cc)
tally-put test ((y, d) ∷ m) x e e' h = elim (Bool-cases (y == x)) [
  | inl same ↦
      let d≡e : d ≡ e = ground (arith, h, same) in
      rw same (
        subst
          (λ (z : TaskLedgerEntry).
            (if test e'.status then 1 else 0) + tally test m + (if test z.status then 1 else 0)
            ≡ (if test d.status then 1 else 0) + tally test m + (if test e'.status then 1 else 0))
          d≡e (omega arith))
  | inr other_key ↦
      rw other_key (omega (arith, tally-put test m x e e' (ground (arith, h, other_key))))
]

pub size-put :
    (m : Dict TaskLedgerEntry) (x : String) (e e' : TaskLedgerEntry)
    → Dict.get m x ≡ some e
    → length (Dict.put m x e') ≡ length m
unfolding Dict.get Dict.put
size-put [] x e e' h = absurd (cc)
size-put ((y, d) ∷ m) x e e' h = ground (arith, size-put m x e e')

-- The counters of a ledger: `_active_count` is the number of running entries, and `_max_active`
-- lies between it and the number of entries.
pub record IsCounted (l : WaveLedger) : Type 0 where
  pub active : l.active_count ≡ tally is_running l.entries
  pub high : l.active_count ≤ l.max_active
  pub bounded : l.max_active ≤ length l.entries

tally-le : (test : Status → Bool) (m : Dict TaskLedgerEntry) → tally test m ≤ length m
unfolding tally
tally-le test [] = omega arith
tally-le test ((x, e) ∷ m) = ground (arith, tally-le test m)

pub start-IsCounted :
    (now : ℕ) (x : String) (l l' : WaveLedger) → IsCounted l → start now x l ≡ ok l' → IsCounted l'
unfolding start
start-IsCounted now x l l' c h = elim (Option-cases (Dict.get l.entries x)) [
  | inl e ↦ absurd (ground (arith, h, e))
  | inr (d, e) ↦
      let d' : TaskLedgerEntry = record d { status = running; started_at = some now } in
      ground (
        arith,
        h,
        e,
        tally-put is_running l.entries x d d' e,
        size-put l.entries x d d' e,
        tally-le is_running (Dict.put l.entries x d'),
      )
]

pub finish-IsCounted :
    (now : ℕ) (x : String) (status : Status) (error : Option String) (l l' : WaveLedger)
    → IsCounted l
    → finish now x status error l ≡ ok l'
    → IsCounted l'
unfolding finish
finish-IsCounted now x status error l l' c h = elim (Option-cases (Dict.get l.entries x)) [
  | inl e ↦ absurd (ground (arith, h, e))
  | inr (d, e) ↦
      let d' : TaskLedgerEntry = record d { status = status; ended_at = some now; error = error } in
      ground (arith, h, e, tally-put is_running l.entries x d d' e, size-put l.entries x d d' e)
]
