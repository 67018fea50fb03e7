-- ===== src/Deps/Change.antt =====
-- `ChangeInfo` and the files that belong to a change's directory (deps.py).
use Prim.Native.String.{◌++◌}
use cairness.Base.{String, Bool, Option, none, some, List, [], ◌∷◌, map}

-- `dir_path` is the directory below `.cairness/changes`, if it lies there.
pub record ChangeInfo : Type 0 where
  pub change_id : String
  pub status : String
  pub depends_on : List String
  pub parallel_safe : Bool
  pub branch : String
  pub files : List String
  pub dir_path : Option String

abbrev governance_filenames : List String
governance_filenames =
    "events.jsonl" ∷ "log.md" ∷ "review.md" ∷ "spec.md" ∷ "tasks.md" ∷ "test-spec.md"
    ∷ "wave-plan.json" ∷ []

unfoldable pub change_governance_files : ChangeInfo → List String
change_governance_files change = elim change.dir_path [
  | none ↦ []
  | some dir ↦ map (λ name. ".cairness/changes/" ++ dir ++ "/" ++ name) governance_filenames
]

-- `.cairness/changes/{change_id}/events.jsonl`
unfoldable pub events_path : String → String
events_path change_id = ".cairness/changes/" ++ change_id ++ "/events.jsonl"
