-- ===== src/WaveExecution/Ledger/Terminal.antt =====
-- Whatever is called on a ledger, its counters stay right and a terminal entry stays as it is.
use cairness.Base.{
  ℕ, String, ◌≡◌, refl, sym, ap, ◌∙◌, true, false, ◌||◌, Option, some, List, [], ◌∷◌, arith, ◌==◌,
  eq_iff, Option-cases, inl, inr, Bool-cases,
}
use cairness.Base.Dict
use cairness.Base.Dict.{Dict, get-put}
use cairness.WaveExecution.Ledger.{
  Status, pending, running, completed, failed, timed_out, cancelled, other, is_terminal, is_running,
  is_pending, TaskLedgerEntry, WaveLedger, Result, ok, err, start, finish,
}
use cairness.WaveExecution.Ledger.Invariant.{IsCounted, start-IsCounted, finish-IsCounted}

-- A call from outside.
pub data Call : Type 0 where
  start_call : ℕ → String → Call
  finish_call : ℕ → String → Status → Option String → Call

-- The ledger after a call: a call that raises has changed nothing.
abbrev or_same : WaveLedger → Result WaveLedger → WaveLedger
or_same l (ok l') = l'
or_same l (err e) = l

unfoldable pub call : Call → WaveLedger → WaveLedger
call (start_call now x) l = or_same l (start now x l)
call (finish_call now x status error) l = or_same l (finish now x status error l)

unfoldable pub calls : List Call → WaveLedger → WaveLedger
calls [] l = l
calls (c ∷ cs) l = calls cs (call c l)

call-IsCounted : (c : Call) (l : WaveLedger) → IsCounted l → IsCounted (call c l)
unfolding call
call-IsCounted (start_call now x) l k = kept (start now x l) refl
  where
    kept : (r : Result WaveLedger) → start now x l ≡ r → IsCounted (or_same l r)
    kept (ok l') e = start-IsCounted now x l l' k e
    kept (err _) e = k
call-IsCounted (finish_call now x status error) l k = kept (finish now x status error l) refl
  where
    kept : (r : Result WaveLedger) → finish now x status error l ≡ r → IsCounted (or_same l r)
    kept (ok l') e = finish-IsCounted now x status error l l' k e
    kept (err _) e = k

-- The entry is there and terminal.
abbrev pub IsTerminalAt : WaveLedger → String → TaskLedgerEntry → Type 0
IsTerminalAt l x e = (Dict.get l.entries x ≡ some e) × (is_terminal e.status ≡ true)

pub terminal-closed :
    (s : Status) → is_terminal s ≡ true → (is_pending s ≡ false) × (is_running s ≡ false)
terminal-closed pending h = absurd (cc)
terminal-closed running h = absurd (cc)
terminal-closed (other t) h = absurd (cc)
terminal-closed completed h = (refl, refl)
terminal-closed failed h = (refl, refl)
terminal-closed timed_out h = (refl, refl)
terminal-closed cancelled h = (refl, refl)

-- The entry at `x` is written only if it is open, so a terminal one at `y` is not that at `x`.
other_entry :
    (m : Dict TaskLedgerEntry) (x y : String) (d e d' : TaskLedgerEntry)
    → Dict.get m x ≡ some d
    → Dict.get m y ≡ some e
    → is_terminal e.status ≡ true
    → (is_running d.status || is_pending d.status) ≡ true
    → Dict.get (Dict.put m x d') y ≡ some e
other_entry m x y d e d' hx hy t o = elim (Bool-cases (x == y)) [
  | inl same ↦
      let d≡e : some d ≡ some e = sym hx ∙ ap (Dict.get m) ((eq_iff x y).0 same) ∙ hy in
      let closed = terminal-closed e.status t in absurd (ground (arith, d≡e, closed, o))
  | inr differ ↦ rw (get-put, differ) hy
]

start-final :
    (now : ℕ) (x y : String) (l l' : WaveLedger) (e : TaskLedgerEntry)
    → IsTerminalAt l y e
    → start now x l ≡ ok l'
    → Dict.get l'.entries y ≡ some e
unfolding start
start-final now x y l l' e t h = elim (Option-cases (Dict.get l.entries x)) [
  | inl none_there ↦ absurd (ground (arith, h, none_there))
  | inr (d, found) ↦
      let d' : TaskLedgerEntry = record d { status = running; started_at = some now } in
      ground (arith, h, found, other_entry l.entries x y d e d' found t.0 t.1)
]

finish-final :
    (now : ℕ) (x y : String) (status : Status) (error : Option String) (l l' : WaveLedger)
    (e : TaskLedgerEntry)
    → IsTerminalAt l y e
    → finish now x status error l ≡ ok l'
    → Dict.get l'.entries y ≡ some e
unfolding finish
finish-final now x y status error l l' e t h = elim (Option-cases (Dict.get l.entries x)) [
  | inl none_there ↦ absurd (ground (arith, h, none_there))
  | inr (d, found) ↦
      let d' : TaskLedgerEntry = record d { status = status; ended_at = some now; error = error } in
      ground (arith, h, found, other_entry l.entries x y d e d' found t.0 t.1)
]

call-final :
    (c : Call) (l : WaveLedger) (y : String) (e : TaskLedgerEntry)
    → IsTerminalAt l y e
    → IsTerminalAt (call c l) y e
unfolding call
call-final (start_call now x) l y e t = kept (start now x l) refl
  where
    kept : (r : Result WaveLedger) → start now x l ≡ r → IsTerminalAt (or_same l r) y e
    kept (ok l') h = (start-final now x y l l' e t h, t.1)
    kept (err _) h = t
call-final (finish_call now x status error) l y e t = kept (finish now x status error l) refl
  where
    kept :
        (r : Result WaveLedger) → finish now x status error l ≡ r → IsTerminalAt (or_same l r) y e
    kept (ok l') h = (finish-final now x y status error l l' e t h, t.1)
    kept (err _) h = t

-- Whatever is called, failing or not, the counters stay right and a terminal entry stays as it is.
pub calls-keep :
    (cs : List Call) (l : WaveLedger)
    → IsCounted l
    → IsCounted (calls cs l)
      × ((y : String) (e : TaskLedgerEntry) → IsTerminalAt l y e → IsTerminalAt (calls cs l) y e)
unfolding calls
calls-keep [] l k = (k, λ y e t. t)
calls-keep (c ∷ cs) l k =
    let rest = calls-keep cs (call c l) (call-IsCounted c l k) in
    (rest.0, λ y e t. rest.1 y e (call-final c l y e t))
