-- ===== src/Upgrade/Replace.antt =====
-- `_replace_framework_dir` and `_restore_failed_adapter_swap` of `cairn-core/cc-cairn.py`, on the
-- framework directory, its backup and the merge report beside it.
use cairness.Base.{
  ℕ, starts_with, codes, join_texts, base_name, take, String, Bool, true, false, not, ◌&&◌, ◌||◌,
  Option, none, some, List, [], ◌∷◌, ◌==◌, if◌then◌else◌, is_given,
}
use cairness.Base.Dict
use cairness.Base.Dict.{Dict}
use cairness.Base.Sorting.{sorted}
use cairness.Upgrade.Files.{
  Tree, is_preserved, is_shipped, is_excluded_relative, in_source, is_framework_owned,
  modified_framework_files,
}

-- `dst`, `<dst>.bak` and the list in `<dst>.merge-report.json`.
pub record Dirs : Type 0 where
  pub dst : Option Tree
  pub backup : Option Tree
  pub merge_report : Option (List String)

-- How the swap goes: `mkdtemp` raises; `copytree` or `rename` raises; once the copy is in place, the
-- files after the first `n` of the backup are not handled since something raises, which leaves the
-- merge report as it is given; or the system raises nothing.
pub data Copying : Type 0 where
  no_temp broken complete : Copying
  interrupted : (n : ℕ) (left : Option (List String)) → Copying

-- `copytree` with `_copy_ignore`
unfoldable pub copy_tree : (roots : List String) → Tree → Tree
unfolding is_shipped is_excluded_relative
copy_tree roots [] = []
copy_tree roots ((rel, bytes) ∷ src) =
    let rest = copy_tree roots src in
    if is_shipped rel && not (is_excluded_relative roots rel) then (rel, bytes) ∷ rest else rest

pub data Fate : Type 0 where
  dropped carried replaced : Fate

unfoldable pub fate_of : (excluded preserved in_src owned : Bool) → Fate
fate_of excluded preserved in_src owned =
    if excluded
    then dropped
    else if preserved || not in_src
    then (if not in_src && owned then dropped else carried)
    else replaced

-- What becomes of a file of the backup.
unfoldable pub fate : (src : Tree) (roots : List String) → String → Fate
unfolding fate_of in_source is_framework_owned is_excluded_relative
fate src roots rel =
    fate_of (is_excluded_relative roots rel) (is_preserved rel) (in_source src roots rel)
      (is_framework_owned rel)

unfoldable pub is_below : (dir rel : String) → Bool
unfolding starts_with codes
is_below dir rel = starts_with (codes (join_texts dir "/")) (codes rel)

-- The path is a directory: a file is below it.
unfoldable pub has_below : (dir : String) → Tree → Bool
unfolding is_below
has_below dir [] = false
has_below dir ((rel, bytes) ∷ tree) = is_below dir rel || has_below dir tree

-- A directory of the path is a file.
unfoldable pub is_beneath_file : (rel : String) → Tree → Bool
unfolding is_below
is_beneath_file rel [] = false
is_beneath_file rel ((file, bytes) ∷ tree) = is_below file rel || is_beneath_file rel tree

-- The tree after the copies, or as it is left when one of them raises.
pub data Carrying : Type 0 where
  finished stuck : Tree → Carrying

-- `copy2` puts a file into a directory of its target's name.
unfoldable pub copy_into : (rel bytes : String) (to : Tree) → Carrying
unfolding has_below base_name
copy_into rel bytes to =
    let inner = join_texts rel (join_texts "/" (base_name rel)) in
    if has_below inner to then stuck to else finished (Dict.put to inner bytes)

-- `target.parent.mkdir(parents=True, exist_ok=True)` and `copy2`
unfoldable pub put_file : (rel bytes : String) (to : Tree) → Carrying
unfolding is_beneath_file has_below copy_into
put_file rel bytes to =
    if is_beneath_file rel to
    then stuck to
    else if has_below rel to
    then copy_into rel bytes to
    else finished (Dict.put to rel bytes)

unfoldable pub put_some : (bytes : Option String) (rel : String) (to : Tree) → Carrying
unfolding put_file
put_some none rel to = finished to
put_some (some bytes) rel to = put_file rel bytes to

-- `shutil.copy2(backup / rel, dst / rel)`
unfoldable pub copy_file : (from : Tree) (rel : String) (to : Tree) → Carrying
unfolding put_some
copy_file from rel to = put_some (Dict.get from rel) rel to

unfoldable pub handle_file : Fate → (old : Tree) (rel : String) (fresh : Tree) → Carrying
unfolding copy_file
handle_file carried old rel fresh = copy_file old rel fresh
handle_file dropped old rel fresh = finished fresh
handle_file replaced old rel fresh = finished fresh

abbrev pub then_carry : Carrying → (Tree → Carrying) → Carrying
then_carry (finished fresh) k = k fresh
then_carry (stuck fresh) k = stuck fresh

-- The loop over the files of the backup.
unfoldable pub carry_forward :
    (src : Tree) (roots : List String) (old : Tree) (rels : List String) (fresh : Tree) → Carrying
unfolding handle_file fate
carry_forward src roots old [] fresh = finished fresh
carry_forward src roots old (rel ∷ rels) fresh =
    then_carry (handle_file (fate src roots rel) old rel fresh) (carry_forward src roots old rels)

abbrev pub tree_after : Carrying → Tree
tree_after (finished fresh) = fresh
tree_after (stuck fresh) = fresh

unfoldable pub is_dropped : Fate → Bool
is_dropped dropped = true
is_dropped _ = false

-- The files that are listed as removed by the upgrade.
unfoldable pub dropped_files : (src : Tree) (roots : List String) (rels : List String) → List String
unfolding fate is_dropped
dropped_files src roots [] = []
dropped_files src roots (rel ∷ rels) =
    let rest = dropped_files src roots rels in
    if is_dropped (fate src roots rel) then rel ∷ rest else rest

pub data Replacing : Type 0 where
  -- `UpgradeSafetyError`
  refused : (reason : String) → Replacing
  -- Another exception; the directories are as they are left.
  failed : Dirs → Replacing
  -- Whether there is a backup, and what was listed as removed.
  done : Dirs → (has_backup : Bool) (removed : List String) → Replacing

-- `(dst / "VERSION").is_file()`
unfoldable pub has_version : Tree → Bool
has_version tree = is_given (Dict.get tree "VERSION")

-- Nothing is written if nothing was modified.
report_modified : List String → Option (List String) → Option (List String)
report_modified [] before = before
report_modified (rel ∷ rels) before = some (rel ∷ rels)

-- The merge report and the result. The carry-forward stands after the `try`.
unfoldable pub after_carry :
    (src : Tree) (roots : List String) (merge_report : Option (List String)) (old : Tree)
    → Carrying
    → Replacing
unfolding dropped_files modified_framework_files report_modified
after_carry src roots merge_report old (stuck fresh) =
    failed (record { dst = some fresh; backup = some old; merge_report = merge_report })
after_carry src roots merge_report old (finished fresh) =
    done
      (record {
        dst = some fresh;
        backup = some old;
        merge_report = report_modified (modified_framework_files old src roots) merge_report;
      })
      true (dropped_files src roots (sorted (Dict.keys old)))

-- The old tree is in the backup.
unfoldable pub swap_over :
    (src : Tree) (roots : List String) (merge_report : Option (List String)) (old : Tree)
    → Copying
    → Replacing
unfolding copy_tree carry_forward after_carry
-- `mkdtemp` stands before the `try`.
swap_over src roots merge_report old no_temp =
    failed (record { dst = none; backup = some old; merge_report = merge_report })
swap_over src roots merge_report old broken =
    failed (record { dst = some old; backup = none; merge_report = merge_report })
swap_over src roots merge_report old (interrupted n left) =
    let rels = take n (sorted (Dict.keys old)) in
    failed (record {
      dst = some (tree_after (carry_forward src roots old rels (copy_tree roots src)));
      backup = some old;
      merge_report = left;
    })
swap_over src roots merge_report old complete =
    after_carry src roots merge_report old
      (carry_forward src roots old (sorted (Dict.keys old)) (copy_tree roots src))

-- There is nothing at `dst`; a backup of an earlier upgrade stays.
unfoldable pub install : (src : Tree) (roots : List String) → Dirs → Copying → Replacing
unfolding copy_tree
install src roots dirs no_temp = failed dirs
install src roots dirs broken = failed dirs
install src roots dirs _ = done (record dirs { dst = some (copy_tree roots src) }) false []

-- `force`, or a Cairness install
unfoldable pub is_accepted : (force : Bool) → Tree → Bool
unfolding has_version
is_accepted force old = force || has_version old

unfoldable pub replace_at :
    (src : Tree) (force : Bool) (roots : List String)
    → Dirs
    → Copying
    → (dst : Option Tree) → Replacing
unfolding swap_over install is_accepted
replace_at src force roots dirs copying none = install src roots dirs copying
replace_at src force roots dirs copying (some old) =
    if is_accepted force old
    then swap_over src roots dirs.merge_report old copying
    else refused "foreign directory"

unfoldable pub replace_framework_dir :
    (name : String) (src : Tree) (force : Bool) (roots : List String) → Dirs → Copying → Replacing
unfolding replace_at
replace_framework_dir name src force roots dirs copying =
    if name == ".cairness"
    then refused "project state"
    else replace_at src force roots dirs copying dirs.dst

-- The framework directory is removed, and the backup is put in its place.
unfoldable pub restore_failed_adapter_swap : (has_backup : Bool) → Dirs → Dirs
restore_failed_adapter_swap false dirs = record dirs { dst = none }
restore_failed_adapter_swap true dirs = record dirs { dst = dirs.backup; backup = none }
