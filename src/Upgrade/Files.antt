-- ===== src/Upgrade/Files.antt =====
-- The files of an upgrade and what becomes of each: `_is_framework_owned`, `_is_excluded_relative`,
-- `_modified_framework_files` and `_upgrade_file_changes` of `cairn-core/cc-cairn.py`.
use cairness.Base.{
  ℕ, String, Bool, false, not, ◌&&◌, ◌||◌, Option, none, some, List, [], ◌∷◌, ◌==◌, if◌then◌else◌,
  eqb, mem, filter_b, codes, equal_codes, starts_with, join_texts, is_given,
}
use cairness.Base.Dict
use cairness.Base.Dict.{Dict}
use cairness.Base.Sorting.{sorted}
use cairness.Scopes.Parts.{split_slashes, any_part}

-- The regular files below a directory, by their relative paths, with their bytes.
abbrev pub Tree : Type 0
Tree = Dict String

abbrev pub tree_of : Option Tree → Tree
tree_of none = []
tree_of (some tree) = tree

-- `PRESERVE_ON_UPGRADE`
abbrev pub is_preserved : String → Bool
is_preserved rel = mem rel ("settings.local.json" ∷ "harness.config.yaml" ∷ [])

-- `UPGRADE_META_FILES`
abbrev pub is_meta : String → Bool
is_meta rel = mem rel ("VERSION" ∷ "CHANGELOG.md" ∷ "UPGRADE.md" ∷ [])

abbrev framework_owned_dirs : List String
framework_owned_dirs =
    "runtime" ∷ "schemas" ∷ "templates" ∷ "rules" ∷ "references" ∷ "docs" ∷ "evals" ∷ "fixtures"
    ∷ "workflows" ∷ []

-- `rel.split("/", 1)[0]`
unfoldable pub top_of : List ℕ → List ℕ
top_of [] = []
top_of (c ∷ cs) = let rest = top_of cs in if eqb c b'/' then [] else c ∷ rest

unfoldable pub any_dir : List ℕ → List String → Bool
unfolding equal_codes codes
any_dir top [] = false
any_dir top (d ∷ ds) = equal_codes top (codes d) || any_dir top ds

unfoldable pub is_framework_owned : String → Bool
unfolding top_of any_dir codes
is_framework_owned rel = any_dir (top_of (codes rel)) framework_owned_dirs

unfoldable pub is_excluded_relative : (roots : List String) → String → Bool
unfolding starts_with codes
is_excluded_relative [] rel = false
is_excluded_relative (root ∷ roots) rel =
    (rel == root || starts_with (codes (join_texts root "/")) (codes rel))
    || is_excluded_relative roots rel

ends_with : List ℕ → List ℕ → Bool
unfolding equal_codes
ends_with ending [] = equal_codes ending []
ends_with ending (c ∷ cs) = equal_codes ending (c ∷ cs) || ends_with ending cs

ignored_part : List ℕ → Bool
unfolding ends_with equal_codes codes
ignored_part part =
    equal_codes part (codes "__pycache__")
    || ends_with (codes ".pyc") part
    || equal_codes part (codes "node_modules")
    || equal_codes part (codes "settings.local.json")

-- `SHIP_IGNORE`: a file is left out with each directory that is.
unfoldable pub is_shipped : String → Bool
unfolding any_part split_slashes ignored_part codes
is_shipped rel = not (any_part ignored_part (split_slashes (codes rel)))

-- `read_bytes() == read_bytes()`, of files that are there
unfoldable pub same_bytes : Option String → Option String → Bool
same_bytes (some b) (some c) = b == c
same_bytes _ _ = false

-- Files of both trees with other bytes, by the paths of the old one.
unfoldable pub modified_of : (old src : Tree) (roots rels : List String) → List String
unfolding same_bytes is_excluded_relative
modified_of old src roots [] = []
modified_of old src roots (rel ∷ rels) =
    let rest = modified_of old src roots rels in
    if is_preserved rel
      || is_meta rel
      || not (is_given (Dict.get src rel))
      || is_excluded_relative roots rel
    then rest
    else if same_bytes (Dict.get old rel) (Dict.get src rel)
    then rest
    else rel ∷ rest

unfoldable pub modified_framework_files : (old src : Tree) (roots : List String) → List String
unfolding modified_of
modified_framework_files old src roots = modified_of old src roots (sorted (Dict.keys old))

pub record Changes : Type 0 where
  pub overwritten_modified_files : List String
  pub dropped_stale_files : List String
  pub preserved_files : List String

-- `src_files`: what the source has outside the excluded roots
unfoldable pub in_source : (src : Tree) (roots : List String) → String → Bool
unfolding is_excluded_relative
in_source src roots rel = is_given (Dict.get src rel) && not (is_excluded_relative roots rel)

unfoldable pub is_stale : (src : Tree) (roots : List String) → String → Bool
unfolding in_source is_framework_owned
is_stale src roots rel =
    is_excluded_relative roots rel || (not (in_source src roots rel) && is_framework_owned rel)

unfoldable pub is_kept : (src : Tree) (roots : List String) → String → Bool
unfolding in_source is_framework_owned
is_kept src roots rel =
    is_preserved rel
    || (not (is_excluded_relative roots rel)
        && not (in_source src roots rel)
        && not (is_framework_owned rel))

-- Nothing changes where there is no framework yet.
unfoldable pub upgrade_file_changes :
    (src : Tree) (dst : Option Tree) (roots : List String) → Changes
unfolding modified_framework_files is_stale is_kept
upgrade_file_changes src none roots = record {
  overwritten_modified_files = [];
  dropped_stale_files = [];
  preserved_files = [];
}
upgrade_file_changes src (some old) roots = record {
  overwritten_modified_files = modified_framework_files old src roots;
  dropped_stale_files = sorted (filter_b (is_stale src roots) (Dict.keys old));
  preserved_files = sorted (filter_b (is_kept src roots) (Dict.keys old));
}
