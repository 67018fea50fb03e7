-- ===== src/Upgrade/Sync.antt =====
-- The update of a project as one transaction: `sync_project`, `_preflight_project_assets`,
-- `_restore_project_assets` and the file snapshots of `cairn-core/cc-cairn.py`.
pub mod Atomic
use cairness.Base.{
  ℕ, String, Bool, true, false, not, ◌&&◌, ◌||◌, Option, none, some, List, [], ◌∷◌, ◌==◌,
  if◌then◌else◌, is_given,
}
use cairness.Base.Dict
use cairness.Base.Dict.{Dict}
use cairness.Upgrade.Files.{Tree, tree_of, same_bytes}
use cairness.Upgrade.Replace.{
  Dirs, Copying, Replacing, refused, failed, done, replace_framework_dir,
  restore_failed_adapter_swap,
}

-- An operation of the adapter on the project root: an asset of the framework and where it goes. The
-- signature of a file or directory stands for it.
pub record Operation : Type 0 where
  pub source : String
  pub target : String

-- Bytes and mode of a file.
pub record FileState : Type 0 where
  pub content : String
  pub mode : ℕ

pub record Project : Type 0 where
  pub dirs : Dirs
  pub assets : Tree
  -- `.cairness/install.yaml` and the upgrade report
  pub metadata : Option String
  pub report : Option String
  -- The pre-commit hook and its two backups
  pub hook : Option FileState
  pub hook_backup : Option FileState
  pub hook_cairness_backup : Option FileState

-- `path.unlink(missing_ok=True)`
unfoldable pub remove : Tree → String → Tree
remove [] k = []
remove ((j, v) ∷ m) k = let rest = remove m k in if j == k then rest else (j, v) ∷ rest

-- What `_remove_asset_no_follow` and a copy leave at a path.
unfoldable pub set_asset : Tree → String → Option String → Tree
unfolding remove
set_asset m k none = remove m k
set_asset m k (some v) = Dict.put (remove m k) k v

add_presence : String → Bool → Option (Dict Bool) → Option (Dict Bool)
add_presence target present none = none
add_presence target present (some existed) = some ((target, present) ∷ existed)

-- Nothing for an asset that is foreign or was modified.
unfoldable pub preflight_project_assets :
    (previous assets : Tree) → List Operation → Option (Dict Bool)
unfolding same_bytes add_presence
preflight_project_assets previous assets [] = some []
preflight_project_assets previous assets (op ∷ ops) =
    let rest = preflight_project_assets previous assets ops in
    let present = is_given (Dict.get assets op.target) in
    if present && not (same_bytes (Dict.get assets op.target) (Dict.get previous op.source))
    then none
    else add_presence op.target present rest

-- `existed.get(target, False)`
unfoldable pub was_there : Dict Bool → String → Bool
was_there existed target = elim (Dict.get existed target) [ none ↦ false | some b ↦ b ]

unfoldable pub restore_project_assets :
    (previous : Tree) → Dict Bool → List Operation → (assets : Tree) → Tree
unfolding set_asset was_there
restore_project_assets previous existed [] assets = assets
restore_project_assets previous existed (op ∷ ops) assets =
    restore_project_assets previous existed ops (
      set_asset assets op.target
        (if was_there existed op.target then Dict.get previous op.source else none))

-- `_restore_file_snapshot` and `_restore_file_state_snapshot`: the file is written or removed.
unfoldable pub restore_snapshot : {A : Type 0} → (snapshot file : Option A) → Option A
restore_snapshot none file = none
restore_snapshot (some bytes) file = some bytes

-- What the adapter's operations, the hooks and the publication have left when they are through or
-- one of them raises.
pub record Effects : Type 0 where
  pub dst : Option Tree
  pub at_target : String → Option String
  pub metadata : Option String
  pub report : Option String
  pub hook : Option FileState
  pub hook_backup : Option FileState
  pub hook_cairness_backup : Option FileState
  pub has_raised : Bool

unfoldable pub write_assets : (String → Option String) → List Operation → Tree → Tree
unfolding set_asset
write_assets at_target [] assets = assets
write_assets at_target (op ∷ ops) assets =
    write_assets at_target ops (set_asset assets op.target (at_target op.target))

pub data SyncResult : Type 0 where
  -- Nothing was written.
  rejected : SyncResult
  -- An exception is passed on.
  raised : Project → SyncResult
  updated : Project → SyncResult

-- After the swap, with the effects of what comes next.
unfoldable pub affected : List Operation → Effects → Dirs → Project → Project
unfolding write_assets
affected ops effects dirs project = record {
  dirs = record dirs { dst = effects.dst };
  assets = write_assets effects.at_target ops project.assets;
  metadata = effects.metadata;
  report = effects.report;
  hook = effects.hook;
  hook_backup = effects.hook_backup;
  hook_cairness_backup = effects.hook_cairness_backup;
}

-- The `except` branch: `before` has the snapshots.
unfoldable pub roll_back :
    List Operation → (existed : Dict Bool) (has_backup : Bool) (before after : Project) → Project
unfolding restore_project_assets restore_snapshot restore_failed_adapter_swap
roll_back ops existed has_backup before after =
    let dirs = restore_failed_adapter_swap has_backup after.dirs in
    record {
      dirs = dirs;
      assets = restore_project_assets (tree_of dirs.dst) existed ops after.assets;
      metadata = restore_snapshot before.metadata after.metadata;
      report = restore_snapshot before.report after.report;
      hook = restore_snapshot before.hook after.hook;
      hook_backup = restore_snapshot before.hook_backup after.hook_backup;
      hook_cairness_backup =
          restore_snapshot before.hook_cairness_backup after.hook_cairness_backup;
    }

unfoldable pub after_swap :
    List Operation → (existed : Dict Bool) → Effects → Project → Replacing → SyncResult
unfolding affected roll_back
after_swap ops existed effects project (refused reason) = rejected
after_swap ops existed effects project (failed dirs) = raised (record project { dirs = dirs })
after_swap ops existed effects project (done dirs has_backup removed) =
    let after = affected ops effects dirs project in
    if effects.has_raised
    then raised (roll_back ops existed has_backup project after)
    else updated after

unfoldable pub checked_sync :
    (name : String) (src : Tree) (roots : List String)
    → List Operation
    → Copying
    → Effects
    → Project
    → (existed : Option (Dict Bool)) → SyncResult
unfolding replace_framework_dir after_swap
checked_sync name src roots ops copying effects project none = rejected
checked_sync name src roots ops copying effects project (some existed) =
    after_swap ops existed effects project
      (replace_framework_dir name src false roots project.dirs copying)

-- `sync_project`, when the installed commit is not the released one.
unfoldable pub sync_project :
    (name : String) (src : Tree) (roots : List String)
    → List Operation
    → Copying
    → Effects
    → Project
    → SyncResult
unfolding preflight_project_assets checked_sync
sync_project name src roots ops copying effects project =
    checked_sync name src roots ops copying effects project
      (preflight_project_assets (tree_of project.dirs.dst) project.assets ops)
