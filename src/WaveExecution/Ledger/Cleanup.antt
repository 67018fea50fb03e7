-- ===== src/WaveExecution/Ledger/Cleanup.antt =====
-- `cleanup_pending` never raises on a terminal status, and leaves nothing pending.
use cairness.Base.{
  ℕ, ◌≤◌, String, ◌≡◌, refl, sym, ap, ◌∙◌, true, false, none, some, List, [], ◌∷◌, arith, ◌==◌,
  eq_iff, if◌then◌else◌, inl, inr, Bool-cases, mem, test_of_eq, count, mem→count,
}
use cairness.Base.Dict
use cairness.Base.Dict.{Dict, get-put}
use cairness.WaveExecution.Ledger.{
  Status, is_terminal, is_pending, TaskLedgerEntry, WaveLedger, ok, finish, finish_all,
  cleanup_pending, pending_task_ids,
}
use cairness.WaveExecution.Ledger.Entries.{
  UniqueKeys, count-ids_with-le, mem-ids_with→get, get→mem-ids_with, not_listed,
}

-- Every id of `xs` has a pending entry.
abbrev ArePending : List String → Dict TaskLedgerEntry → Type 0
ArePending xs m =
    (y : String)
    → mem y xs ≡ true
    → (e : TaskLedgerEntry) × (Dict.get m y ≡ some e) × (is_pending e.status ≡ true)

-- What `finish` does to a pending entry.
finish_pending :
    (now : ℕ) (status : Status) (x : String) (l : WaveLedger) (e : TaskLedgerEntry)
    → is_terminal status ≡ true
    → Dict.get l.entries x ≡ some e
    → is_pending e.status ≡ true
    → finish now x status none l
      ≡ ok (record l {
        entries =
            Dict.put l.entries x (record e { status = status; ended_at = some now; error = none });
      })
unfolding finish
finish_pending now status x l e t found p = rw (found, finish) (ground (arith, t, p))

pub not_again : (x : String) (xs : List String) → count x (x ∷ xs) ≤ 1 → mem x xs ≡ false
not_again x xs h = elim (Bool-cases (mem x xs)) [
  | inl m ↦ absurd (ground (arith, mem→count x xs m, h, eq_iff x x))
  | inr m ↦ m
]

pub differs :
    (x y : String) (xs : List String) → mem x xs ≡ false → mem y xs ≡ true → (x == y) ≡ false
differs x y xs out inside = elim (Bool-cases (x == y)) [
  | inl e ↦ absurd (ground (arith, ap (λ z. mem z xs) ((eq_iff x y).0 e), out, inside))
  | inr e ↦ e
]

finish_all_total :
    (now : ℕ) (status : Status) (xs : List String) (l : WaveLedger)
    → is_terminal status ≡ true
    → ((y : String) → count y xs ≤ 1)
    → ArePending xs l.entries
    → (l' : WaveLedger) × (finish_all now status xs l ≡ ok l')
      × (l'.active_count ≡ l.active_count)
      × ((y : String) → mem y xs ≡ false → Dict.get l'.entries y ≡ Dict.get l.entries y)
      × ((y : String)
          → mem y xs ≡ true
          → (e : TaskLedgerEntry) → Dict.get l.entries y ≡ some e
          → Dict.get l'.entries y
            ≡ some (record e { status = status; ended_at = some now; error = none }))
unfolding finish_all
finish_all_total now status [] l t u p = (l, refl, refl, (λ y m. refl), (λ y m d g. absurd (cc)))
finish_all_total now status (x ∷ xs) l t u p =
    let (e, found, waiting) = p x (ground (arith, eq_iff x x)) in
    let e' : TaskLedgerEntry = record e { status = status; ended_at = some now; error = none } in
    let l1 : WaveLedger = record l { entries = Dict.put l.entries x e' } in
    let once : mem x xs ≡ false = not_again x xs (u x) in
    let (l', done, same, out, inside) =
      finish_all_total now status xs l1 t (λ y. omega (arith, u y))
        (λ y m.
          let (d, there, w) = p y (ground (arith, m)) in
          (d, rw (get-put, differs x y xs once m) there, w)) in
    (
      l',
      rw (finish_pending now status x l e t found waiting) done,
      same,
      (λ y m. ground (arith, out y, get-put l.entries x e' y, eq_iff x y, eq_iff y x, m)),
      (λ y m d g. elim (Bool-cases (mem y xs)) [
        | inl later ↦ inside y later d (rw (get-put, differs x y xs once later) g)
        | inr gone ↦
            let here : x ≡ y = sym ((eq_iff y x).0 (ground (arith, m, gone))) in
            let same_entry : e ≡ d = ground (arith, found, g, ap (Dict.get l.entries) here) in
            let ended : TaskLedgerEntry → TaskLedgerEntry =
              λ z. record z { status = status; ended_at = some now; error = none } in
            out y gone ∙ rw get-put (rw (test_of_eq x y here) (ap (λ z. some (ended z)) same_entry))
      ]),
    )

-- With distinct keys and a terminal status, `cleanup_pending` does not raise; it ends every pending
-- entry at that time with the status and no error, and leaves the other entries as they are.
pub cleanup_pending_lem :
    (now : ℕ) (status : Status) (l : WaveLedger)
    → UniqueKeys l.entries
    → is_terminal status ≡ true
    → (l' : WaveLedger) × (cleanup_pending now status l ≡ ok l')
      × (l'.active_count ≡ l.active_count)
      × ((y : String) (e : TaskLedgerEntry)
          → Dict.get l.entries y ≡ some e
          → Dict.get l'.entries y
            ≡ some (
                if is_pending e.status
                then record e { status = status; ended_at = some now; error = none }
                else e))
unfolding cleanup_pending
cleanup_pending_lem now status l u t =
    let ids = pending_task_ids l in
    let (l', done, same, out, inside) =
      finish_all_total now status ids l t
        (λ y. omega (arith, u y, count-ids_with-le is_pending l.entries y))
        (λ y m. mem-ids_with→get is_pending l.entries y u m) in
    (
      l',
      rw t done,
      same,
      λ y e found. elim (Bool-cases (is_pending e.status)) [
        | inl p ↦ rw p (inside y (get→mem-ids_with is_pending l.entries y e found p) e found)
        | inr p ↦
            let absent : mem y ids ≡ false = not_listed is_pending l.entries y e u found p in
            rw p (out y absent ∙ found)
      ],
    )
