-- ===== src/Scopes/Match/Contain.antt =====
-- What an overlap of two scopes means for the paths they match (`scopes_overlap` of
-- `cairn-core/scripts/change_docs.py`).
use cairness.Base.{
  ℕ, ◌≡◌, ◌⊎◌, refl, sym, ap, ◌∙◌, subst, true, false, Option, some, List, [], ◌∷◌, arith, String,
  codes, Bool-cases, inl, inr,
}
use cairness.Scopes.Parts.{
  declared_path_parts, is_concrete_scope, join_slashes, strip_both, strip_left, strip_right,
  stripped_parts, is_rejected, is_empty,
}
use cairness.Scopes.Parts.Plain.{all_plain}
use cairness.Scopes.Parts.Rejoin.{declared_path_parts-join_slashes}
use cairness.Scopes.Match.{
  match_path_parts, parts_match, matches_scope, equal_parts, parts_overlap, some_overlap,
  scopes_overlap,
}
use cairness.Scopes.Match.Prefix.{
  equal_parts→≡, concrete-path, IsWithin, IsWithin-refl, prefixes_overlap-IsWithin,
}

no_parts :
    (o : Option (List (List ℕ)))
    → parts_match (declared_path_parts (join_slashes []) false) o ≡ false
unfolding parts_match declared_path_parts join_slashes strip_both strip_left strip_right
    stripped_parts is_rejected is_empty
no_parts o = refl

rejoined :
    (a : List (List ℕ)) (o : Option (List (List ℕ)))
    → all_plain a ≡ true
    → parts_match (declared_path_parts (join_slashes a) false) o ≡ true
    → parts_match (some a) o ≡ true
rejoined [] o h m = absurd (ground (arith, m, no_parts o))
rejoined (part ∷ parts) o h m =
    ap (λ u. parts_match u o) (sym (declared_path_parts-join_slashes part parts h)) ∙ m

concrete-IsWithin :
    (a b : List (List ℕ)) → is_concrete_scope a ≡ true → match_path_parts b a ≡ true → IsWithin a b
unfolding IsWithin
concrete-IsWithin a b c m path h = ap (match_path_parts b) (concrete-path a path c h) ∙ m

parts_overlap-IsWithin :
    (first second : List ℕ) (a b : List (List ℕ))
    → declared_path_parts first false ≡ some a
    → declared_path_parts second false ≡ some b
    → all_plain a ≡ true
    → all_plain b ≡ true
    → parts_overlap first second a b ≡ true
    → IsWithin a b ⊎ IsWithin b a
unfolding parts_overlap matches_scope parts_match
parts_overlap-IsWithin first second a b i j u v h = elim (Bool-cases (equal_parts a b)) [
  | inl e ↦ inl (subst (λ ps. IsWithin a ps) (equal_parts→≡ a b e) (IsWithin-refl a))
  | inr e ↦ elim (Bool-cases (is_concrete_scope a)) [
    | inl c ↦ inl (
        concrete-IsWithin a b c (
          rejoined a (some b) u (
            ap (parts_match (declared_path_parts (join_slashes a) false)) (sym j)
            ∙ ground (arith, e, c, h))))
    | inr c ↦ elim (Bool-cases (is_concrete_scope b)) [
      | inl d ↦ inr (
          concrete-IsWithin b a d (
            rejoined b (some a) v (
              ap (parts_match (declared_path_parts (join_slashes b) false)) (sym i)
              ∙ ground (arith, e, c, d, h))))
      | inr d ↦ prefixes_overlap-IsWithin a b (ground (arith, e, c, d, h))
    ]
  ]
]

-- Of two scopes that `scopes_overlap` reports, whose segments are free of spaces, backticks,
-- slashes, backslashes and NUL and none of them empty, `.` or `..`, one lies within the other:
-- each path that matches its segments also matches the segments of the other.
pub scopes_overlap-IsWithin :
    (first second : String) (a b : List (List ℕ))
    → declared_path_parts (codes first) false ≡ some a
    → declared_path_parts (codes second) false ≡ some b
    → all_plain a ≡ true
    → all_plain b ≡ true
    → scopes_overlap first second ≡ true
    → IsWithin a b ⊎ IsWithin b a
unfolding scopes_overlap some_overlap
scopes_overlap-IsWithin first second a b i j u v h =
    parts_overlap-IsWithin (codes first) (codes second) a b i j u v (ground (arith, i, j, h))
