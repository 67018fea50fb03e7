-- ===== src/Scopes/Match.antt =====
-- `_match_path_parts`, `path_matches_scope`, `scopes_overlap` and `overlapping_scope_label` of
-- `cairn-core/scripts/change_docs.py`.
pub mod Relation
pub mod Prefix
pub mod Contain
use cairness.Base.{
  ℕ, zero, suc, ◌+◌, ◌≡◌, ◌≤◌, refl, Bool, true, false, not, ◌&&◌, ◌||◌, Option, none, some, List,
  [], ◌∷◌, ◌++◌, eqb, leb, if◌then◌else◌, arith, String, codes, join_texts, equal_codes, length,
  take, min, is_given, ◌==◌,
}
use cairness.Scopes.Glob.{any_suffix, fnmatchcase}
use cairness.Scopes.Parts.{
  declared_path_parts, is_recursive, is_concrete_scope, recursive_prefix, join_slashes,
}

unfoldable pub match_path_parts : (scope path : List (List ℕ)) → Bool
unfolding any_suffix is_recursive fnmatchcase
match_path_parts [] [] = true
match_path_parts [] (p ∷ ps) = false
match_path_parts (s ∷ scope) path =
    let here = match_path_parts scope in
    if is_recursive s
    then any_suffix here path
    else elim path [ [] ↦ false | p ∷ ps ↦ fnmatchcase p s && here ps ]

unfoldable pub parts_match : Option (List (List ℕ)) → Option (List (List ℕ)) → Bool
unfolding match_path_parts
parts_match none scope = false
parts_match (some path) none = false
parts_match (some path) (some scope) = match_path_parts scope path

unfoldable pub matches_scope : (path scope : List ℕ) → Bool
unfolding parts_match declared_path_parts
matches_scope path scope =
    parts_match (declared_path_parts path false) (declared_path_parts scope false)

unfoldable pub path_matches_scope : (path scope : String) → Bool
unfolding matches_scope
path_matches_scope path scope = matches_scope (codes path) (codes scope)

unfoldable pub equal_parts : List (List ℕ) → List (List ℕ) → Bool
unfolding equal_codes
equal_parts [] [] = true
equal_parts (p ∷ ps) (q ∷ qs) = equal_codes p q && equal_parts ps qs
equal_parts _ _ = false

-- The end of `scopes_overlap`: two scopes that both have a wildcard.
unfoldable pub prefixes_overlap :
    (first second : List (List ℕ)) (first_prefix second_prefix : Option (List (List ℕ))) → Bool
unfolding equal_parts
prefixes_overlap first second (some p) (some q) =
    let shorter = min (length p) (length q) in equal_parts (take shorter p) (take shorter q)
prefixes_overlap first second (some p) none = equal_parts (take (length p) second) p
prefixes_overlap first second none (some q) = equal_parts (take (length q) first) q
prefixes_overlap first second none none = false

unfoldable pub parts_overlap :
    (first second : List ℕ) (first_parts second_parts : List (List ℕ)) → Bool
unfolding equal_parts is_concrete_scope matches_scope join_slashes prefixes_overlap recursive_prefix
parts_overlap first second first_parts second_parts =
    if equal_parts first_parts second_parts
    then true
    else if is_concrete_scope first_parts
    then matches_scope (join_slashes first_parts) second
    else if is_concrete_scope second_parts
    then matches_scope (join_slashes second_parts) first
    else prefixes_overlap first_parts second_parts (recursive_prefix first_parts)
        (recursive_prefix second_parts)

unfoldable pub some_overlap :
    (first second : List ℕ) → Option (List (List ℕ)) → Option (List (List ℕ)) → Bool
unfolding parts_overlap
some_overlap first second none o = false
some_overlap first second (some p) none = false
some_overlap first second (some p) (some q) = parts_overlap first second p q

unfoldable pub scopes_overlap : (first second : String) → Bool
unfolding some_overlap declared_path_parts
scopes_overlap first second =
    some_overlap (codes first) (codes second) (declared_path_parts (codes first) false)
      (declared_path_parts (codes second) false)

abbrev pub both_label : (first second : String) → String
both_label first second = join_texts first (join_texts " <-> " second)

prefix_label : (first second : String) (p q : Option (List (List ℕ))) → String
prefix_label first second none q = if first == second then first else both_label first second
prefix_label first second (some p) none = if first == second then first else both_label first second
prefix_label first second (some p) (some q) = if leb (length q) (length p) then first else second

parts_label : (first second : String) (p q : Option (List (List ℕ))) → String
unfolding is_concrete_scope path_matches_scope recursive_prefix prefix_label
parts_label first second none q = both_label first second
parts_label first second (some p) none = both_label first second
parts_label first second (some p) (some q) =
    if is_concrete_scope p && path_matches_scope first second
    then first
    else if is_concrete_scope q && path_matches_scope second first
    then second
    else prefix_label first second (recursive_prefix p) (recursive_prefix q)

unfoldable pub overlapping_scope_label : (first second : String) → String
unfolding parts_label declared_path_parts
overlapping_scope_label first second =
    parts_label first second (declared_path_parts (codes first) false)
      (declared_path_parts (codes second) false)
