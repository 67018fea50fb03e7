-- ===== src/Deps/Conflicts.antt =====
-- `detect_file_conflicts` (deps.py). `scopes_overlap` and `overlapping_scope_label` compare two
-- declared scopes.
pub mod Exact
mod Tests
use cairness.Base.{
  ℕ, String, Bool, true, false, not, ◌&&◌, ◌||◌, Option, none, some, List, [], ◌∷◌, ◌++◌, ◌==◌,
  if◌then◌else◌, mem,
}
use cairness.Base.Dict
use cairness.Base.Dict.{Dict}
use cairness.Base.Sorting.{sorted}
use cairness.Scopes.Match.{scopes_overlap, overlapping_scope_label}
use cairness.Deps.Change.{ChangeInfo}

pub data Severity : Type 0 where
  warning conflict : Severity

-- The recommendation follows from the severity.
pub record Conflict : Type 0 where
  pub change_a : String
  pub change_b : String
  pub overlapping_files : List String
  pub severity : Severity

unfoldable pub is_done : ChangeInfo → Bool
is_done c = c.status == "done"

-- `[change for change in changes.values() if change.status != "done"]`
unfoldable pub unfinished : Dict ChangeInfo → List ChangeInfo
unfolding is_done
unfinished [] = []
unfinished ((id, c) ∷ changes) =
    let rest = unfinished changes in if is_done c then rest else c ∷ rest

-- Those with another id than the target.
unfoldable pub others : String → List ChangeInfo → List ChangeInfo
others target [] = []
others target (c ∷ cs) =
    let rest = others target cs in if c.change_id == target then rest else c ∷ rest

-- A set as a list with no text twice.
add_label : String → List String → List String
add_label x xs = if mem x xs then xs else x ∷ xs

unfoldable pub severity_of : ChangeInfo → ChangeInfo → Severity
severity_of a b =
    if a.parallel_safe
      && b.parallel_safe
      && (mem b.change_id a.depends_on || mem a.change_id b.depends_on)
    then warning
    else conflict

-- `if not overlap: continue`
unfoldable pub conflict_of : ChangeInfo → ChangeInfo → List String → Option Conflict
conflict_of a b [] = none
conflict_of a b (x ∷ overlap) = some (record {
  change_a = a.change_id;
  change_b = b.change_id;
  overlapping_files = sorted (x ∷ overlap);
  severity = severity_of a b;
})

-- A conflict, if there is one, before the rest.
abbrev pub before_rest : Option Conflict → List Conflict → List Conflict
before_rest none rest = rest
before_rest (some k) rest = k ∷ rest

-- The labels for one file of the first change, added to those of the later ones.
unfoldable pub labels_of : String → List String → List String → List String
unfolding add_label
labels_of left [] so_far = so_far
labels_of left (right ∷ rights) so_far =
    let rest = labels_of left rights so_far in
    if scopes_overlap left right then add_label (overlapping_scope_label left right) rest else rest

unfoldable pub overlap : List String → List String → List String
overlap [] rights = []
overlap (left ∷ lefts) rights = labels_of left rights (overlap lefts rights)

-- With no files on one side there is no overlap either.
unfoldable pub compare_changes : ChangeInfo → ChangeInfo → Option Conflict
compare_changes a b = conflict_of a b (overlap a.files b.files)

unfoldable pub conflicts_with : ChangeInfo → List ChangeInfo → List Conflict
conflicts_with a [] = []
conflicts_with a (b ∷ bs) = before_rest (compare_changes a b) (conflicts_with a bs)

-- Each change with those after it.
unfoldable pub all_conflicts : List ChangeInfo → List Conflict
all_conflicts [] = []
all_conflicts (a ∷ cs) = conflicts_with a cs ++ all_conflicts cs

unfoldable pub detect_file_conflicts : Dict ChangeInfo → Option String → List Conflict
detect_file_conflicts changes none = all_conflicts (unfinished changes)
detect_file_conflicts changes (some target) =
    if target == "" then all_conflicts (unfinished changes) else elim (Dict.get changes target) [
      | none ↦ []
      | some c ↦ if is_done c then [] else conflicts_with c (others target (unfinished changes))
    ]
