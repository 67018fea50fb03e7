-- ===== src/Deps/Orphans/Tests.antt =====
-- The theorem about `detect_orphans` at one change and three changed paths.
use cairness.Base.{String, ◌≡◌, refl, true, false, ◌&&◌, some, List, [], ◌∷◌}
use cairness.Base.Dict.{Dict}
use cairness.Deps.Change.{ChangeInfo}
use cairness.Deps.Orphans.{is_empty, detect_orphans}
use cairness.Deps.Orphans.Exact.{IsSorted, detect_orphans-IsSorted}

abbrev changes : Dict ChangeInfo
changes =
    (
      "login",
      record {
        change_id = "login";
        status = "apply";
        depends_on = [];
        parallel_safe = true;
        branch = "login";
        files = "login*.py" ∷ [];
        dir_path = some "login";
      },
    )
    ∷ []

abbrev git_files : List String
git_files = "login*.py" ∷ "other.py" ∷ "README.md" ∷ []

abbrev scopes : List String
scopes = "README.md" ∷ []

has_source : (is_empty changes && is_empty scopes) ≡ false
unfolding is_empty
has_source = refl

detect_orphans-IsSorted_example :
    IsSorted [] changes scopes git_files (detect_orphans [] changes scopes git_files)
detect_orphans-IsSorted_example = detect_orphans-IsSorted [] changes scopes git_files has_source
