-- ===== src/Deps/Conflicts/Tests.antt =====
-- The theorem about `detect_file_conflicts` at two changes of one file.
use cairness.Base.{String, ◌≡◌, true, none, List, [], ◌∷◌}
use cairness.Base.Dict.{Dict}
use cairness.Deps.Change.{ChangeInfo}
use cairness.Deps.Conflicts.{Conflict, unfinished, detect_file_conflicts}
use cairness.Deps.Conflicts.Exact.{In, Before, clashes, IsConflict, detect_file_conflicts-exact}

abbrev change : String → List String → ChangeInfo
change id deps = record {
  change_id = id;
  status = "apply";
  depends_on = deps;
  parallel_safe = true;
  branch = id;
  files = "app.py" ∷ [];
  dir_path = none;
}

abbrev changes : Dict ChangeInfo
changes = ("login", change "login" []) ∷ ("logout", change "logout" ("login" ∷ [])) ∷ []

detect_file_conflicts-exact_example :
    ((k : Conflict)
      → In k (detect_file_conflicts changes none)
      → (a : ChangeInfo) × (b : ChangeInfo) × Before a b (unfinished changes) × IsConflict a b k)
    × ((a b : ChangeInfo)
        → Before a b (unfinished changes)
        → clashes a.files b.files ≡ true
        → (k : Conflict) × In k (detect_file_conflicts changes none) × IsConflict a b k)
detect_file_conflicts-exact_example = detect_file_conflicts-exact changes
