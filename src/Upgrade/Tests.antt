-- ===== src/Upgrade/Tests.antt =====
-- The theorems about an upgrade at a small framework with a hook of the user's.
use cairness.Base.{
  String, ◌≡◌, refl, codes, starts_with, true, false, Option, none, some, List, [], ◌∷◌,
}
use cairness.Base.Dict
use cairness.Upgrade.Files.{Tree}
use cairness.Upgrade.Replace.{Dirs, complete, is_below, has_below, replace_framework_dir}
use cairness.Upgrade.Outcome.{IsExpected, replace_framework_dir-IsExpected}
use cairness.Upgrade.Sync.{Operation, Project, Effects}
use cairness.Upgrade.Apart.{are_apart, are_no_dirs}

abbrev installed : Tree
installed =
    ("VERSION", "1.0")
    ∷ ("hooks/mine.sh", "echo mine")
    ∷ ("runtime/readsets/cc-help.yaml", "old")
    ∷ ("settings.local.json", "mine")
    ∷ ("adapter/CODEX.md", "guide")
    ∷ []

abbrev release : Tree
release = ("VERSION", "1.1") ∷ ("rules/style.md", "rules") ∷ ("adapter/CODEX.md", "new guide") ∷ []

abbrev dirs : Dirs
dirs = record { dst = some installed; backup = none; merge_report = none }

apart : are_apart release installed ≡ true
unfolding are_apart are_no_dirs has_below is_below starts_with codes Dict.keys
apart = refl

replace_framework_dir-IsExpected_example :
    IsExpected ".codex" release false
      ("fixtures" ∷ [])
      dirs
      complete
      (replace_framework_dir ".codex" release false ("fixtures" ∷ []) dirs complete)
replace_framework_dir-IsExpected_example =
    replace_framework_dir-IsExpected ".codex" release false ("fixtures" ∷ []) dirs complete apart

abbrev project : Project
project = record {
  dirs = dirs;
  assets = ("CODEX.md", "guide") ∷ [];
  metadata = some "codex";
  report = none;
  hook = some (record { content = "exit 0"; mode = 493 });
  hook_backup = none;
  hook_cairness_backup = none;
}

abbrev operations : List Operation
operations = record { source = "adapter/CODEX.md"; target = "CODEX.md" } ∷ []

abbrev new_guide : String → Option String
new_guide target = some "new guide"

-- The hook is written, and the publication raises.
abbrev half_done : Effects
half_done = record {
  dst = some release;
  at_target = new_guide;
  metadata = none;
  report = some "partial";
  hook = some (record { content = "cc-verify"; mode = 493 });
  hook_backup = some (record { content = "exit 0"; mode = 493 });
  hook_cairness_backup = none;
  has_raised = true;
}
