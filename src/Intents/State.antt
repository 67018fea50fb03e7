-- ===== src/Intents/State.antt =====
-- `_state` (intent_router.py): what the persisted changes say. The directories, the findings of the
-- reviews and the installed versions are read from files and given here.
use cairness.Base.{
  ℕ, ◌+◌, String, Bool, Option, none, some, List, [], ◌∷◌, ◌==◌, if◌then◌else◌, is_given,
}
use cairness.Base.Dict
use cairness.Base.Dict.{Dict}
use cairness.Base.Sorting.{sorted}

pub record Discovered : Type 0 where
  pub status : String
  -- The statuses of the findings of its review, if that can be read.
  pub findings : Option (List String)

pub record State : Type 0 where
  pub framework_installed : Bool
  pub framework_prefix : String
  pub active_changes : List String
  pub change_statuses : Dict String
  pub open_findings : Dict ℕ
  pub resumable_changes : List String
  pub has_context : Bool

-- The ids with the status, in the order of the dict.
unfoldable pub with_status : String → Dict String → List String
with_status status [] = []
with_status status ((id, s) ∷ m) =
    let rest = with_status status m in if s == status then id ∷ rest else rest

statuses_of : Dict Discovered → List String → Dict String
statuses_of discovered [] = []
statuses_of discovered (id ∷ ids) =
    let rest = statuses_of discovered ids in
    elim (Dict.get discovered id) [ none ↦ rest | some c ↦ (id, c.status) ∷ rest ]

count_open : List String → ℕ
count_open [] = 0
count_open (s ∷ ss) = (if s == "open" then 1 else 0) + count_open ss

open_of : Dict Discovered → Dict ℕ
unfolding count_open
open_of [] = []
open_of ((id, c) ∷ m) =
    let rest = open_of m in elim c.findings [ none ↦ rest | some fs ↦ (id, count_open fs) ∷ rest ]

-- The names of directories that are not hidden.
active_of : (is_hidden : String → Bool) → List String → List String
active_of is_hidden [] = []
active_of is_hidden (d ∷ ds) =
    let rest = active_of is_hidden ds in if is_hidden d then rest else d ∷ rest

-- `next(..., None)` over the prefixes that may hold the framework
first_installed : (has_version : String → Bool) → List String → Option String
first_installed has_version [] = none
first_installed has_version (p ∷ ps) =
    let rest = first_installed has_version ps in if has_version p then some p else rest

candidates : Option String → List String
candidates none = ".codex" ∷ ".claude" ∷ []
candidates (some prefix) = prefix ∷ ".codex" ∷ ".claude" ∷ []

text_of : Option String → String
text_of none = ""
text_of (some s) = s

unfoldable pub state_of :
    (discovered : Dict Discovered) (directories : List String)
    (is_hidden has_version : String → Bool) (framework_prefix : Option String) (has_context : Bool)
    → State
unfolding with_status statuses_of open_of active_of first_installed candidates text_of
state_of discovered directories is_hidden has_version framework_prefix has_context =
    let statuses = statuses_of discovered (sorted (Dict.keys discovered)) in
    let framework_root = first_installed has_version (candidates framework_prefix) in
    record {
      framework_installed = is_given framework_root;
      framework_prefix = text_of framework_root;
      active_changes = sorted (active_of is_hidden directories);
      change_statuses = statuses;
      open_findings = open_of discovered;
      resumable_changes = sorted (with_status "apply" statuses);
      has_context = has_context;
    }

unfoldable pub ids_with_status : State → String → List String
unfolding with_status
ids_with_status state status = sorted (with_status status state.change_statuses)

-- `state["open_findings"].get(change_id, 0)`
unfoldable pub open_count : State → String → ℕ
open_count state id = elim (Dict.get state.open_findings id) [ none ↦ 0 | some n ↦ n ]
