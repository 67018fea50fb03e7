-- ===== src/Scopes/Tests.antt =====
-- The theorems about scopes at a glob and a recursive scope.
use cairness.Base.{
  ℕ, ◌≡◌, ◌↔◌, ◌⊎◌, refl, true, false, some, List, [], ◌∷◌, codes, equal_codes, has_code,
  starts_with,
}
use cairness.Scopes.Parts.{
  declared_path_parts, join_slashes, strip_both, strip_left, strip_right, stripped_parts,
  is_rejected, raw_parts, segments, split_slashes, drop_dots, ends_with_slash, is_empty, any_part,
  is_relative, add_code, is_space, is_concrete_scope, is_recursive, is_glob, recursive_prefix,
  before_recursive, if_concrete, add_part,
}
use cairness.Scopes.Parts.Plain.{all_plain, is_plain_part, none_of, is_special}
use cairness.Scopes.Parts.Rejoin.{declared_path_parts-join_slashes}
use cairness.Scopes.Match.{
  match_path_parts, scopes_overlap, some_overlap, parts_overlap, equal_parts, prefixes_overlap,
}
use cairness.Scopes.Match.Relation.{PathMatches, match_path_parts-PathMatches}
use cairness.Scopes.Match.Prefix.{IsWithin}
use cairness.Scopes.Match.Contain.{scopes_overlap-IsWithin}

-- `src/*/deps.py`
abbrev glob_scope : List (List ℕ)
glob_scope = codes "src" ∷ codes "*" ∷ codes "deps.py" ∷ []

-- `src/**`
abbrev tree_scope : List (List ℕ)
tree_scope = codes "src" ∷ codes "**" ∷ []

abbrev deps_path : List (List ℕ)
deps_path = codes "src" ∷ codes "core" ∷ codes "deps.py" ∷ []

match_path_parts-PathMatches_example :
    (match_path_parts glob_scope deps_path ≡ true) ↔ PathMatches glob_scope deps_path
match_path_parts-PathMatches_example = match_path_parts-PathMatches glob_scope deps_path

path_plain : all_plain deps_path ≡ true
unfolding all_plain is_plain_part none_of is_special is_space is_relative equal_codes codes
path_plain = refl

declared_path_parts-join_slashes_example :
    declared_path_parts (join_slashes deps_path) false ≡ some deps_path
declared_path_parts-join_slashes_example =
    declared_path_parts-join_slashes (codes "src") (codes "core" ∷ codes "deps.py" ∷ []) path_plain

glob_plain : all_plain glob_scope ≡ true
unfolding all_plain is_plain_part none_of is_special is_space is_relative equal_codes codes
glob_plain = refl

tree_plain : all_plain tree_scope ≡ true
unfolding all_plain is_plain_part none_of is_special is_space is_relative equal_codes codes
tree_plain = refl

glob_parts : declared_path_parts (codes "./src/*/deps.py") false ≡ some glob_scope
unfolding declared_path_parts strip_both strip_left strip_right stripped_parts is_rejected raw_parts
    segments split_slashes drop_dots ends_with_slash is_empty any_part is_relative add_code is_space
    equal_codes has_code starts_with codes
glob_parts = refl

-- A directory is the recursive scope below it.
tree_parts : declared_path_parts (codes "src/") false ≡ some tree_scope
unfolding declared_path_parts strip_both strip_left strip_right stripped_parts is_rejected raw_parts
    segments split_slashes drop_dots ends_with_slash is_empty any_part is_relative add_code is_space
    equal_codes has_code starts_with codes
tree_parts = refl

overlap : scopes_overlap "./src/*/deps.py" "src/" ≡ true
unfolding scopes_overlap some_overlap parts_overlap equal_parts prefixes_overlap is_concrete_scope
    is_recursive is_glob recursive_prefix before_recursive if_concrete add_part declared_path_parts
    strip_both strip_left strip_right stripped_parts is_rejected raw_parts segments split_slashes
    drop_dots ends_with_slash is_empty any_part is_relative add_code is_space equal_codes has_code
    starts_with codes
overlap = refl

scopes_overlap-IsWithin_example : IsWithin glob_scope tree_scope ⊎ IsWithin tree_scope glob_scope
scopes_overlap-IsWithin_example =
    scopes_overlap-IsWithin "./src/*/deps.py" "src/" glob_scope tree_scope glob_parts tree_parts
      glob_plain tree_plain overlap
