-- ===== src/Upgrade/Sync/Atomic.antt =====
-- An update that raises leaves the project as it was (`sync_project` of `cairn-core/cc-cairn.py`).
use cairness.Base.{
  ◌≡◌, String, Bool, true, false, ◌||◌, none, List, [], ◌∷◌, ◌==◌, if◌then◌else◌, is_given,
}
use cairness.Base.Dict
use cairness.Base.Dict.{Dict}
use cairness.Upgrade.Files.{Tree}
use cairness.Upgrade.Replace.{Copying, complete, broken}
use cairness.Upgrade.Sync.{Operation, Project, was_there, SyncResult, rejected, raised, updated}

-- Whether a path is a target of the operations.
unfoldable pub is_target : List Operation → String → Bool
is_target [] x = false
is_target (op ∷ ops) x = op.target == x || is_target ops x

-- What the check before the update has found out about the operations.
AreChecked : (previous assets : Tree) → Dict Bool → List Operation → Type 0
AreChecked previous assets existed [] = Unit
AreChecked previous assets existed (op ∷ ops) =
    ((if was_there existed op.target then Dict.get previous op.source else none)
      ≡ Dict.get assets op.target)
    × AreChecked previous assets existed ops

-- The presence that the check has noted for each target.
NotesPresence : (assets : Tree) → Dict Bool → List Operation → Type 0
NotesPresence assets existed ops =
    (x : String) → is_target ops x ≡ true → was_there existed x ≡ is_given (Dict.get assets x)

-- The two projects agree on what an update writes, but for the backup and the merge report.
pub IsSame : Project → Project → Type 0
IsSame p q =
    (p.dirs.dst ≡ q.dirs.dst)
    × ((x : String) → Dict.get p.assets x ≡ Dict.get q.assets x)
    × (p.metadata ≡ q.metadata)
    × (p.report ≡ q.report)
    × (p.hook ≡ q.hook)
    × (p.hook_backup ≡ q.hook_backup)
    × (p.hook_cairness_backup ≡ q.hook_cairness_backup)

-- No exception but those of `copytree` and of the renaming, which are undone.
abbrev pub is_undone : Copying → Bool
is_undone complete = true
is_undone broken = true
is_undone _ = false

-- What the result says of the project before.
pub IsAtomic : Copying → Project → SyncResult → Type 0
IsAtomic copying project rejected = Unit
IsAtomic copying project (raised p) = IsSame p project
IsAtomic copying project (updated p) = copying ≡ complete
