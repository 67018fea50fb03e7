-- ===== src/WaveExecution/Run/Fresh.antt =====
-- A ledger as `WaveLedger(...)` makes it, and the pool with all its tasks submitted.
use cairness.Base.{
  ℕ, ◌+◌, ◌≤◌, String, ◌≡◌, ◌≢◌, refl, sym, ap, ◌∙◌, true, false, some, List, [], ◌∷◌, ◌++◌,
  append_assoc, append-nil, arith, ◌==◌, eq_iff, if◌then◌else◌, mem, count, Bool-cases, inl, inr,
  mem→count, not_mem→count, count-append, test_of_ne,
}
use cairness.Base.Dict
use cairness.Base.Dict.{Dict, get-put, keys-put_new}
use cairness.WaveExecution.Ledger.{
  is_running, TaskLedgerEntry, WaveLedger, ok, new_ledger, fresh_entry, fresh_entries, are_unique,
  is_empty,
}
use cairness.WaveExecution.Ledger.Invariant.{IsCounted, tally}
use cairness.WaveExecution.Pool.{submitted}
use cairness.WaveExecution.Pool.Synced.{IsSynced}

-- ids that `are_unique` accepts
pub are_unique→count : (xs : List String) → are_unique xs ≡ true → (x : String) → count x xs ≤ 1
unfolding are_unique
are_unique→count [] h x = omega arith
are_unique→count (y ∷ ys) h x = elim (Bool-cases (x == y)) [
  | inl e ↦ ground (arith, h, ap (λ z. count z ys) ((eq_iff x y).0 e))
  | inr e ↦ ground (arith, h, are_unique→count ys (ground arith) x)
]

count→are_unique : (xs : List String) → ((x : String) → count x xs ≤ 1) → are_unique xs ≡ true
unfolding are_unique
count→are_unique [] h = refl
count→are_unique (y ∷ ys) h =
    ground (arith, h y, eq_iff y y, count→are_unique ys (λ x. omega (arith, h x)))

pub get-fresh_entries :
    (m : Dict TaskLedgerEntry) (xs : List String) (y : String)
    → Dict.get (fresh_entries m xs) y ≡ (if mem y xs then some fresh_entry else Dict.get m y)
unfolding fresh_entries
get-fresh_entries m [] y = refl
get-fresh_entries m (x ∷ xs) y =
    get-fresh_entries (Dict.put m x fresh_entry) xs y
    ∙ ground (arith, get-put m x fresh_entry y, eq_iff x y, eq_iff y x)

keys-fresh_from :
    (m : Dict TaskLedgerEntry) (xs : List String)
    → ((x : String) → count x (Dict.keys m) + count x xs ≤ 1)
    → Dict.keys (fresh_entries m xs) ≡ Dict.keys m ++ xs
unfolding fresh_entries
keys-fresh_from m [] u = sym (append-nil (Dict.keys m))
keys-fresh_from m (x ∷ xs) u =
    let fresh : mem x (Dict.keys m) ≡ false = elim (Bool-cases (mem x (Dict.keys m))) [
      | inl old ↦ absurd (ground (arith, mem→count x (Dict.keys m) old, u x, eq_iff x x))
      | inr new ↦ new
    ] in
    let added = keys-put_new m x fresh_entry fresh in
    keys-fresh_from (Dict.put m x fresh_entry) xs
      (λ y. ground (arith, u y, ap (count y) added, count-append y (Dict.keys m) (x ∷ [])))
    ∙ (rw added (rw append_assoc))

pub keys-fresh_entries :
    (xs : List String) → ((x : String) → count x xs ≤ 1) → Dict.keys (fresh_entries [] xs) ≡ xs
unfolding Dict.keys
keys-fresh_entries xs u = keys-fresh_from [] xs (λ x. omega (arith, u x))

tally-put_fresh :
    (m : Dict TaskLedgerEntry) (x : String)
    → tally is_running (Dict.put m x fresh_entry) ≤ tally is_running m
unfolding tally Dict.put
tally-put_fresh [] x = omega arith
tally-put_fresh ((y, e) ∷ m) x = ground (arith, tally-put_fresh m x)

tally-fresh_entries :
    (m : Dict TaskLedgerEntry) (xs : List String)
    → tally is_running (fresh_entries m xs) ≤ tally is_running m
unfolding fresh_entries
tally-fresh_entries m [] = omega arith
tally-fresh_entries m (x ∷ xs) =
    omega (arith, tally-fresh_entries (Dict.put m x fresh_entry) xs, tally-put_fresh m x)

abbrev pub fresh : List String → WaveLedger
fresh ids = record { entries = fresh_entries [] ids; active_count = 0; max_active = 0 }

pub fresh-IsCounted : (ids : List String) → IsCounted (fresh ids)
unfolding tally
fresh-IsCounted ids = record {
  active = omega (arith, tally-fresh_entries [] ids);
  high = omega arith;
  bounded = omega arith;
}

pub submitted-IsSynced :
    (width : ℕ) (ids : List String)
    → ((x : String) → count x ids ≤ 1)
    → IsSynced width (submitted (fresh ids) ids)
unfolding Dict.keys Dict.get
submitted-IsSynced width ids u = record {
  waiting = λ x e there. ground (arith, get-fresh_entries [] ids x, there, u x, mem→count x ids);
  absent = λ x gone. ground (arith, get-fresh_entries [] ids x, gone, not_mem→count x ids);
  fits = omega arith;
}

-- Distinct ids and a name make a ledger.
pub new_ledger-ok :
    (wave_id : String) (ids : List String)
    → wave_id ≢ ""
    → ids ≢ []
    → ((x : String) → count x ids ≤ 1)
    → new_ledger wave_id ids ≡ ok (fresh ids)
unfolding new_ledger is_empty
new_ledger-ok wave_id [] named some_ids u = absurd (some_ids refl)
new_ledger-ok wave_id (x ∷ xs) named some_ids u =
    ground (arith, test_of_ne wave_id "" named, count→are_unique (x ∷ xs) u)
