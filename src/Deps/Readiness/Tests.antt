-- ===== src/Deps/Readiness/Tests.antt =====
-- The theorem about `check_dependencies` on three changes.
use cairness.Base.{String, ◌≡◌, refl, true, false, some, List, [], ◌∷◌}
use cairness.Base.Dict.{Dict, get}
use cairness.Deps.Change.{ChangeInfo}
use cairness.Deps.Readiness.{
  Readiness, check_dependencies, file_dependencies, file_dependency, TellsReadiness,
  check_dependencies_lem,
}

abbrev change : String → String → List String → ChangeInfo
change id status deps = record {
  change_id = id;
  status = status;
  depends_on = deps;
  parallel_safe = true;
  branch = id;
  files = [];
  dir_path = some id;
}

abbrev changes : Dict ChangeInfo
changes =
    ("login", change "login" "done" [])
    ∷ ("tokens", change "tokens" "apply" [])
    ∷ ("logout", change "logout" "propose" ("login" ∷ "tokens" ∷ "roles" ∷ []))
    ∷ []

abbrev logout : Readiness
logout = record {
  change_id = "logout";
  status = "propose";
  depends_on = "login" ∷ "tokens" ∷ "roles" ∷ [];
  ready = false;
  waiting = record { unsatisfied = "roles" ∷ []; blocked = "tokens" ∷ []; not_done = [] };
}

check_logout : check_dependencies "logout" changes ≡ some logout
unfolding check_dependencies file_dependencies file_dependency get
check_logout = refl

check_dependencies_lem_example : TellsReadiness changes logout
check_dependencies_lem_example = check_dependencies_lem "logout" changes logout check_logout
