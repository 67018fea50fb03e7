-- ===== src/Deps/Orphans.antt =====
-- `detect_orphans` (deps.py) on the changed paths that Git reports. `path_matches_scope` is the
-- matching of a path against a declared scope, and `global_scopes` are `GLOBAL_GOVERNANCE_SCOPES`.
pub mod Exact
mod Tests
use cairness.Base.{
  ℕ, String, Bool, true, false, not, ◌&&◌, ◌||◌, Option, none, some, List, [], ◌∷◌, ◌++◌, ◌==◌,
  if◌then◌else◌, mem, length, ltb,
}
use cairness.Base.Dict
use cairness.Base.Dict.{Dict}
use cairness.Base.Sorting.{sorted}
use cairness.Scopes.Match.{path_matches_scope}
use cairness.Deps.Change.{ChangeInfo, change_governance_files, events_path}

-- What the loop over the paths fills.
pub record Buckets : Type 0 where
  pub orphan_files : List String
  pub matched_files : List String
  pub governance_files : List String
  pub intentional_files : List String
  pub matched_by_change : Dict (List String)
  pub ambiguous_files : Dict (List String)

pub record OrphanReport : Type 0 where
  pub total_git_files : ℕ
  pub buckets : Buckets
  pub eligible_changes : List String
  pub intentional_scopes : List String
  pub has_orphans : Bool
  pub total_changes : ℕ
  pub changes_with_files : ℕ
  pub no_declared_source : Bool

abbrev pub no_files : Buckets
no_files = record {
  orphan_files = [];
  matched_files = [];
  governance_files = [];
  intentional_files = [];
  matched_by_change = [];
  ambiguous_files = [];
}

-- The first change, in order, whose directory has the file.
unfoldable pub governance_owner : Dict ChangeInfo → String → Option String
governance_owner [] file = none
governance_owner ((id, c) ∷ changes) file =
    let rest = governance_owner changes file in
    if mem file (change_governance_files c) then some id else rest

-- `matched_by_change[id].append(file)` on a `defaultdict(list)`
unfoldable pub append_to : String → String → Dict (List String) → Dict (List String)
append_to file id m = elim (Dict.get m id) [
  | none ↦ Dict.put m id (file ∷ [])
  | some fs ↦ Dict.put m id (fs ++ file ∷ [])
]

append_to_all : String → List String → Dict (List String) → Dict (List String)
append_to_all file [] m = m
append_to_all file (id ∷ ids) m = append_to_all file ids (append_to file id m)

-- A change that is not done, or whose events are among the changed paths.
unfoldable pub eligible : List String → Dict ChangeInfo → Dict ChangeInfo
eligible git_files [] = []
eligible git_files ((id, c) ∷ changes) =
    let rest = eligible git_files changes in
    if not (c.status == "done") || mem (events_path id) git_files then (id, c) ∷ rest else rest

-- `if change.files`
unfoldable pub declared : Dict ChangeInfo → Dict (List String)
declared [] = []
declared ((id, c) ∷ changes) =
    let rest = declared changes in elim c.files [ [] ↦ rest | f ∷ fs ↦ (id, f ∷ fs) ∷ rest ]

unfoldable pub is_empty : {A : Type 0} → List A → Bool
is_empty [] = true
is_empty (x ∷ xs) = false

module _ (global_scopes : List String) where
  -- `file_matches_declared`
  unfoldable pub matches_any : String → List String → Bool
  matches_any file [] = false
  matches_any file (scope ∷ scopes) = path_matches_scope file scope || matches_any file scopes

  unfoldable pub owners_of : String → Dict (List String) → List String
  owners_of file [] = []
  owners_of file ((id, scopes) ∷ m) =
      let rest = owners_of file m in if matches_any file scopes then id ∷ rest else rest

  -- The paths that no change's directory and no global scope has.
  unfoldable pub place_declared : List String → String → List String → Buckets → Buckets
  unfolding append_to_all
  place_declared scopes file (id ∷ ids) b = record b {
    matched_files = b.matched_files ++ file ∷ [];
    matched_by_change = append_to_all file (id ∷ ids) b.matched_by_change;
    ambiguous_files =
        if ltb 1 (length (id ∷ ids))
        then Dict.put b.ambiguous_files file (id ∷ ids)
        else b.ambiguous_files;
  }
  place_declared scopes file [] b =
      if matches_any file scopes
      then record b { intentional_files = b.intentional_files ++ file ∷ [] }
      else record b { orphan_files = b.orphan_files ++ file ∷ [] }

  -- The body of `for git_file in git_files`.
  unfoldable pub place :
      Dict ChangeInfo → Dict (List String) → List String → String → Buckets → Buckets
  place changes all_declared scopes file b = elim (governance_owner changes file) [
    | some id ↦ record b {
      matched_files = b.matched_files ++ file ∷ [];
      governance_files = b.governance_files ++ file ∷ [];
      matched_by_change = append_to file id b.matched_by_change;
    }
    | none ↦
        if matches_any file global_scopes
        then record b {
          matched_files = b.matched_files ++ file ∷ [];
          governance_files = b.governance_files ++ file ∷ [];
        }
        else place_declared scopes file (owners_of file all_declared) b
  ]

  unfoldable pub place_all :
      Dict ChangeInfo → Dict (List String) → List String → List String → Buckets → Buckets
  place_all changes all_declared scopes [] b = b
  place_all changes all_declared scopes (file ∷ files) b =
      place_all changes all_declared scopes files (place changes all_declared scopes file b)

  -- The report with the buckets as they are filled.
  unfoldable pub report :
      Dict ChangeInfo → List String → List String → Bool → Buckets → OrphanReport
  unfolding is_empty
  report changes scopes git_files no_source b = record {
    total_git_files = length git_files;
    buckets = b;
    eligible_changes = if no_source then [] else sorted (Dict.keys (eligible git_files changes));
    intentional_scopes = if no_source then [] else sorted scopes;
    has_orphans = not (is_empty b.orphan_files);
    total_changes = length changes;
    changes_with_files = if no_source then 0 else length (declared (eligible git_files changes));
    no_declared_source = no_source;
  }

  unfoldable pub detect_orphans : Dict ChangeInfo → List String → List String → OrphanReport
  unfolding is_empty
  detect_orphans changes scopes git_files =
      if is_empty git_files
      then report changes scopes git_files false no_files
      else if is_empty changes && is_empty scopes
      then report changes scopes git_files true no_files
      else report changes scopes git_files false
          (place_all changes (declared (eligible git_files changes)) scopes git_files no_files)
