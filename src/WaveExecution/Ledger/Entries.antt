-- ===== src/WaveExecution/Ledger/Entries.antt =====
-- The keys of a ledger, and the ids with a given status.
use cairness.Base.{
  ℕ, ◌≤◌, String, ◌≡◌, sym, Bool, true, false, Option, some, [], ◌∷◌, arith, ◌==◌, eq_iff,
  Option-cases, inl, inr, Bool-cases, subst, mem, count, mem→count,
}
use cairness.Base.Dict
use cairness.Base.Dict.{Dict, get-put}
use cairness.WaveExecution.Ledger.{
  Status, running, TaskLedgerEntry, WaveLedger, ok, start, finish, ids_with,
}

abbrev pub UniqueKeys : Dict TaskLedgerEntry → Type 0
UniqueKeys m = (y : String) → count y (Dict.keys m) ≤ 1

pub count-ids_with-le :
    (test : Status → Bool) (m : Dict TaskLedgerEntry) (x : String)
    → count x (ids_with test m) ≤ count x (Dict.keys m)
unfolding ids_with Dict.keys
count-ids_with-le test [] x = omega arith
count-ids_with-le test ((y, e) ∷ m) x = ground (arith, count-ids_with-le test m x)

pub mem-ids_with→get :
    (test : Status → Bool) (m : Dict TaskLedgerEntry) (x : String)
    → UniqueKeys m
    → mem x (ids_with test m) ≡ true
    → (e : TaskLedgerEntry) × (Dict.get m x ≡ some e) × (test e.status ≡ true)
unfolding ids_with Dict.keys Dict.get
mem-ids_with→get test [] x u h = absurd (cc)
mem-ids_with→get test ((y, d) ∷ m) x u h = elim (Bool-cases (y == x)) [
  | inl same ↦
      let few = u x in
      let listed = count-ids_with-le test m x in
      (
        d,
        rw same,
        elim (Bool-cases (test d.status)) [
          | inl t ↦ t
          | inr f ↦ absurd (
              ground (
                arith,
                few,
                listed,
                h,
                f,
                same,
                eq_iff x y,
                eq_iff y x,
                mem→count x (ids_with test m),
              ))
        ],
      )
  | inr differ ↦
      let (e, found, t) =
        mem-ids_with→get test m x (λ z. omega (arith, u z))
          (ground (arith, h, differ, eq_iff x y, eq_iff y x)) in
      (e, rw differ found, t)
]

pub get→mem-ids_with :
    (test : Status → Bool) (m : Dict TaskLedgerEntry) (x : String) (e : TaskLedgerEntry)
    → Dict.get m x ≡ some e
    → test e.status ≡ true
    → mem x (ids_with test m) ≡ true
unfolding ids_with Dict.get
get→mem-ids_with test [] x e h t = absurd (cc)
get→mem-ids_with test ((y, d) ∷ m) x e h t = elim (Bool-cases (y == x)) [
  | inl same ↦
      let d≡e : d ≡ e = ground (arith, h, same) in
      let td : test d.status ≡ true =
        subst (λ (z : TaskLedgerEntry). test z.status ≡ true) (sym d≡e) t in
      rw td (ground (arith, same, eq_iff x y, eq_iff y x))
  | inr differ ↦ ground (arith, get→mem-ids_with test m x e, h, differ)
]

pub keys-put_old :
    (m : Dict TaskLedgerEntry) (x : String) (e e' : TaskLedgerEntry)
    → Dict.get m x ≡ some e
    → Dict.keys (Dict.put m x e') ≡ Dict.keys m
unfolding Dict.get Dict.put Dict.keys
keys-put_old [] x e e' h = absurd (cc)
keys-put_old ((y, d) ∷ m) x e e' h = ground (arith, keys-put_old m x e e', eq_iff y x)

pub keys-start :
    (now : ℕ) (x : String) (l l' : WaveLedger)
    → start now x l ≡ ok l'
    → Dict.keys l'.entries ≡ Dict.keys l.entries
unfolding start
keys-start now x l l' h = elim (Option-cases (Dict.get l.entries x)) [
  | inl none_there ↦ absurd (ground (arith, h, none_there))
  | inr (d, found) ↦
      let d' : TaskLedgerEntry = record d { status = running; started_at = some now } in
      ground (arith, h, found, keys-put_old l.entries x d d' found)
]

pub keys-finish :
    (now : ℕ) (x : String) (status : Status) (error : Option String) (l l' : WaveLedger)
    → finish now x status error l ≡ ok l'
    → Dict.keys l'.entries ≡ Dict.keys l.entries
unfolding finish
keys-finish now x status error l l' h = elim (Option-cases (Dict.get l.entries x)) [
  | inl none_there ↦ absurd (ground (arith, h, none_there))
  | inr (d, found) ↦
      let d' : TaskLedgerEntry = record d { status = status; ended_at = some now; error = error } in
      ground (arith, h, found, keys-put_old l.entries x d d' found)
]

pub not_listed :
    (test : Status → Bool) (m : Dict TaskLedgerEntry) (x : String) (e : TaskLedgerEntry)
    → UniqueKeys m
    → Dict.get m x ≡ some e
    → test e.status ≡ false
    → mem x (ids_with test m) ≡ false
not_listed test m x e u found f = elim (Bool-cases (mem x (ids_with test m))) [
  | inl listed ↦
      let (d, there, t) = mem-ids_with→get test m x u listed in
      let d≡e : d ≡ e = ground (arith, found, there) in
      let te : test e.status ≡ true = subst (λ (z : TaskLedgerEntry). test z.status ≡ true) d≡e t in
      absurd (ground (arith, te, f))
  | inr absent ↦ absent
]
