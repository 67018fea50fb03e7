-- ===== src/Scopes/Match/Relation.antt =====
-- `_match_path_parts` (`cairn-core/scripts/change_docs.py`) and a relation that describes it.
use cairness.Base.{
  ℕ, ◌≡◌, ◌↔◌, refl, true, false, ◌&&◌, List, [], ◌∷◌, arith, Bool-cases, sym, ◌∙◌, ◌≢◌, inl, inr,
}
use cairness.Scopes.Glob.{
  any_suffix, fnmatchcase, whole-any_suffix, Matches, compile, fnmatchcase-Matches,
}
use cairness.Scopes.Parts.{is_recursive}
use cairness.Scopes.Match.{match_path_parts}

-- A path matches if its segments are dealt out to those of the scope in order: one segment that
-- the pattern takes apart to an ordinary one, any number to `...` and `**`.
pub data PathMatches : List (List ℕ) → List (List ℕ) → Type 0 where
  end : PathMatches [] []
  segment :
      {s p : List ℕ} {scope path : List (List ℕ)}
      → is_recursive s ≡ false
      → Matches (compile 0 s) p
      → PathMatches scope path
      → PathMatches (s ∷ scope) (p ∷ path)
  stop :
      {s : List ℕ} {scope path : List (List ℕ)}
      → is_recursive s ≡ true
      → PathMatches scope path
      → PathMatches (s ∷ scope) path
  deeper :
      {s p : List ℕ} {scope path : List (List ℕ)}
      → is_recursive s ≡ true
      → PathMatches (s ∷ scope) path
      → PathMatches (s ∷ scope) (p ∷ path)

recursive-suffix :
    (s : List ℕ) (scope path : List (List ℕ))
    → is_recursive s ≡ true
    → match_path_parts (s ∷ scope) path ≡ any_suffix (match_path_parts scope) path
unfolding match_path_parts
recursive-suffix s scope path r = ground (arith, r)

ordinary-segment :
    (s p : List ℕ) (scope path : List (List ℕ))
    → is_recursive s ≡ false
    → match_path_parts (s ∷ scope) (p ∷ path) ≡ (fnmatchcase p s && match_path_parts scope path)
unfolding match_path_parts
ordinary-segment s p scope path r = ground (arith, r)

ordinary-end :
    (s : List ℕ) (scope : List (List ℕ))
    → is_recursive s ≡ false
    → match_path_parts (s ∷ scope) [] ≡ false
unfolding match_path_parts
ordinary-end s scope r = ground (arith, r)

suffix→PathMatches :
    (s : List ℕ) (scope : List (List ℕ))
    → is_recursive s ≡ true
    → ((path : List (List ℕ)) → match_path_parts scope path ≡ true → PathMatches scope path)
    → (path : List (List ℕ)) → any_suffix (match_path_parts scope) path ≡ true
    → PathMatches (s ∷ scope) path
unfolding any_suffix
suffix→PathMatches s scope r sound [] h = stop r (sound [] h)
suffix→PathMatches s scope r sound (p ∷ path) h =
    elim (Bool-cases (match_path_parts scope (p ∷ path))) [
      | inl e ↦ stop r (sound (p ∷ path) e)
      | inr e ↦ deeper r (suffix→PathMatches s scope r sound path (ground (arith, e, h)))
    ]

empty_match : match_path_parts [] [] ≡ true
unfolding match_path_parts
empty_match = refl

empty_scope : (p : List ℕ) (path : List (List ℕ)) → match_path_parts [] (p ∷ path) ≢ true
unfolding match_path_parts
empty_scope p path h = absurd (cc)

ordinary→PathMatches :
    (s : List ℕ) (scope : List (List ℕ))
    → is_recursive s ≡ false
    → ((path : List (List ℕ)) → match_path_parts scope path ≡ true → PathMatches scope path)
    → (path : List (List ℕ)) → match_path_parts (s ∷ scope) path ≡ true
    → PathMatches (s ∷ scope) path
ordinary→PathMatches s scope r sound [] h = absurd (ground (arith, ordinary-end s scope r, h))
ordinary→PathMatches s scope r sound (p ∷ path) h =
    let both = sym (ordinary-segment s p scope path r) ∙ h in
    segment r ((fnmatchcase-Matches p s).0 (ground (arith, both)))
      (sound path (ground (arith, both)))

match→PathMatches :
    (scope path : List (List ℕ)) → match_path_parts scope path ≡ true → PathMatches scope path
match→PathMatches [] [] h = end
match→PathMatches [] (p ∷ path) h = absurd (empty_scope p path h)
match→PathMatches (s ∷ scope) path h = elim (Bool-cases (is_recursive s)) [
  | inl r ↦
      suffix→PathMatches s scope r (match→PathMatches scope) path
        (sym (recursive-suffix s scope path r) ∙ h)
  | inr r ↦ ordinary→PathMatches s scope r (match→PathMatches scope) path h
]

PathMatches→match :
    {scope path : List (List ℕ)} → PathMatches scope path → match_path_parts scope path ≡ true
unfolding any_suffix
PathMatches→match end = empty_match
PathMatches→match (segment {s} {p} {scope} {path} r e m) =
    ordinary-segment s p scope path r
    ∙ ground (arith, (fnmatchcase-Matches p s).1 e, PathMatches→match m)
PathMatches→match (stop {s} {scope} {path} r m) =
    recursive-suffix s scope path r
    ∙ whole-any_suffix (match_path_parts scope) path (PathMatches→match m)
PathMatches→match (deeper {s} {p} {scope} {path} r m) =
    recursive-suffix s scope (p ∷ path) r
    ∙ ground (arith, sym (recursive-suffix s scope path r) ∙ PathMatches→match m)

-- `_match_path_parts` answers yes exactly for the paths whose segments can be dealt out in order to
-- the segments of the scope: any number of them to each `...` or `**`, and to each other segment one
-- that is cut into parts which the items of its pattern accept one by one.
pub match_path_parts-PathMatches :
    (scope path : List (List ℕ)) → (match_path_parts scope path ≡ true) ↔ PathMatches scope path
match_path_parts-PathMatches scope path = (match→PathMatches scope path, PathMatches→match)
