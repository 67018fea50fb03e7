-- ===== src/Deps/Readiness.antt =====
-- `check_dependencies` (deps.py).
mod Tests
use cairness.Base.{
  ℕ, ◌+◌, ◌<◌, String, ◌≡◌, ◌↔◌, refl, ap, sym, subst, Bool, true, false, ◌||◌, Option, none, some,
  List, [], ◌∷◌, ◌++◌, ◌==◌, if◌then◌else◌, arith, count, mem, Option-cases, Bool-cases, inl, inr,
  eq_iff, count-append, count→mem, mem→count,
}
use cairness.Base.Dict
use cairness.Base.Dict.{Dict}
use cairness.Deps.Change.{ChangeInfo}

-- What the loop fills.
pub record Waiting : Type 0 where
  pub unsatisfied : List String
  pub blocked : List String
  pub not_done : List String

pub record Readiness : Type 0 where
  pub change_id : String
  pub status : String
  pub depends_on : List String
  pub ready : Bool
  pub waiting : Waiting

abbrev pub is_finished : String → Bool
is_finished status = (status == "review") || (status == "done")

-- The body of `for dependency in change.depends_on`, on what the later ones fill.
unfoldable file_dependency : Dict ChangeInfo → String → Waiting → Waiting
file_dependency changes dep w = elim (Dict.get changes dep) [
  | none ↦ record w { unsatisfied = dep ∷ w.unsatisfied }
  | some d ↦
      if is_finished d.status
      then w
      else if d.status == "apply"
      then record w { blocked = dep ∷ w.blocked }
      else record w { not_done = dep ∷ w.not_done }
]

unfoldable pub file_dependencies : Dict ChangeInfo → List String → Waiting
unfolding file_dependency
file_dependencies changes [] = record { unsatisfied = []; blocked = []; not_done = [] }
file_dependencies changes (dep ∷ deps) =
    file_dependency changes dep (file_dependencies changes deps)

abbrev is_nil : List String → Bool
is_nil [] = true
is_nil (x ∷ xs) = false

-- Nothing for the report with status `unknown`.
unfoldable pub check_dependencies : String → Dict ChangeInfo → Option Readiness
check_dependencies change_id changes = elim (Dict.get changes change_id) [
  | none ↦ none
  | some change ↦
      let w = file_dependencies changes change.depends_on in
      some (record {
        change_id = change_id;
        status = change.status;
        depends_on = change.depends_on;
        ready = is_nil (w.unsatisfied ++ w.blocked ++ w.not_done);
        waiting = w;
      })
]

-- A dependency that is there and whose status is review or done.
abbrev pub IsSatisfied : Dict ChangeInfo → String → Type 0
IsSatisfied changes dep =
    (d : ChangeInfo) × (Dict.get changes dep ≡ some d) × (is_finished d.status ≡ true)

abbrev pub waiting_for : Waiting → List String
waiting_for w = w.unsatisfied ++ w.blocked ++ w.not_done

-- A dependency that is not satisfied.
abbrev pub waits : Dict ChangeInfo → String → Bool
waits changes dep = elim (Dict.get changes dep) [
  | none ↦ true
  | some d ↦ if is_finished d.status then false else true
]

count-waiting_for :
    (x : String) (w : Waiting)
    → count x (waiting_for w) ≡ count x w.unsatisfied + count x w.blocked + count x w.not_done
count-waiting_for x w = omega (
  arith,
  count-append x (w.unsatisfied ++ w.blocked) w.not_done,
  count-append x w.unsatisfied w.blocked,
)

count-file_dependency :
    (x : String) (changes : Dict ChangeInfo) (dep : String) (w : Waiting)
    → count x (waiting_for (file_dependency changes dep w))
      ≡ (if x == dep then (if waits changes dep then 1 else 0) else 0) + count x (waiting_for w)
unfolding file_dependency
count-file_dependency x changes dep w = elim (Option-cases (Dict.get changes dep)) [
  | inl gone ↦ ground (
    arith,
    gone,
    count-waiting_for x w,
    count-waiting_for x (record w { unsatisfied = dep ∷ w.unsatisfied }),
  )
  | inr (d, found) ↦ ground (
    arith,
    found,
    count-waiting_for x w,
    count-waiting_for x (record w { blocked = dep ∷ w.blocked }),
    count-waiting_for x (record w { not_done = dep ∷ w.not_done }),
  )
]

-- The three lists together hold what is not satisfied, as often as it was declared.
count-file_dependencies :
    (x : String) (changes : Dict ChangeInfo) (deps : List String)
    → count x (waiting_for (file_dependencies changes deps))
      ≡ (if waits changes x then count x deps else 0)
unfolding file_dependencies
count-file_dependencies x changes [] = ground arith
count-file_dependencies x changes (dep ∷ deps) = elim (Bool-cases (x == dep)) [
  | inr e ↦ ground (
    arith,
    e,
    count-file_dependency x changes dep (file_dependencies changes deps),
    count-file_dependencies x changes deps,
  )
  | inl e ↦ ground (
    arith,
    e,
    ap (waits changes) ((eq_iff x dep).0 e),
    count-file_dependency x changes dep (file_dependencies changes deps),
    count-file_dependencies x changes deps,
  )
]

IsSatisfied-waits :
    (changes : Dict ChangeInfo) (dep : String) → IsSatisfied changes dep → waits changes dep ≡ false
IsSatisfied-waits changes dep (d, found, finished) = ground (arith, found, finished)

waits-IsSatisfied :
    (changes : Dict ChangeInfo) (dep : String) → waits changes dep ≡ false → IsSatisfied changes dep
waits-IsSatisfied changes dep h = elim (Option-cases (Dict.get changes dep)) [
  | inl gone ↦ absurd (ground (arith, h, gone))
  | inr (d, found) ↦ (d, found, ground (arith, h, found))
]

-- The report is ready exactly when each declared dependency is a known change in review or done, and
-- its three lists hold exactly the other ones, as often as they are declared.
abbrev pub TellsReadiness : Dict ChangeInfo → Readiness → Type 0
TellsReadiness changes r =
    ((r.ready ≡ true) ↔ ((dep : String) → mem dep r.depends_on ≡ true → IsSatisfied changes dep))
    × ((x : String)
        → count x (waiting_for r.waiting) ≡ (if waits changes x then count x r.depends_on else 0))

nil-IsSatisfied :
    (changes : Dict ChangeInfo) (deps waiting : List String)
    → ((x : String) → count x waiting ≡ (if waits changes x then count x deps else 0))
    → is_nil waiting ≡ true
    → (dep : String) → mem dep deps ≡ true
    → IsSatisfied changes dep
nil-IsSatisfied changes deps (y ∷ ys) h n dep there = absurd (cc)
nil-IsSatisfied changes deps [] h n dep there =
    waits-IsSatisfied changes dep (ground (arith, h dep, mem→count dep deps there))

IsSatisfied-nil :
    (changes : Dict ChangeInfo) (deps waiting : List String)
    → ((x : String) → count x waiting ≡ (if waits changes x then count x deps else 0))
    → ((dep : String) → mem dep deps ≡ true → IsSatisfied changes dep)
    → is_nil waiting ≡ true
IsSatisfied-nil changes deps [] h all = refl
IsSatisfied-nil changes deps (y ∷ ys) h all =
    let declared : 0 < count y deps = ground (arith, h y, eq_iff y y) in
    absurd (
      ground
        (arith, h y, eq_iff y y, IsSatisfied-waits changes y (all y (count→mem y deps declared))))

-- A report on a known change is ready exactly when each declared dependency is a known change in
-- review or done, and its three lists hold exactly the other ones, as often as they are declared.
pub check_dependencies_lem :
    (change_id : String) (changes : Dict ChangeInfo) (r : Readiness)
    → check_dependencies change_id changes ≡ some r
    → TellsReadiness changes r
unfolding check_dependencies
check_dependencies_lem change_id changes r h = elim (Option-cases (Dict.get changes change_id)) [
  | inl gone ↦ absurd (ground (arith, h, gone))
  | inr (change, found) ↦
      let w = file_dependencies changes change.depends_on in
      let filed = λ (x : String). count-file_dependencies x changes change.depends_on in
      subst (TellsReadiness changes)
        {x = record {
          change_id = change_id;
          status = change.status;
          depends_on = change.depends_on;
          ready = is_nil (waiting_for w);
          waiting = w;
        }}
        {y = r} (ground (arith, h, found))
        (
          (
            nil-IsSatisfied changes change.depends_on (waiting_for w) filed,
            IsSatisfied-nil changes change.depends_on (waiting_for w) filed,
          ),
          filed,
        )
]
