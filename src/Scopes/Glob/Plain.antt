-- ===== src/Scopes/Glob/Plain.antt =====
-- A pattern without `*`, `?` and `[` (`fnmatch.fnmatchcase`).
use cairness.Base.{ℕ, ◌≡◌, refl, ap, false, List, [], ◌∷◌, eqb, arith, has_code, equal_codes}
use cairness.Scopes.Glob.{one, literal, accepts, compile, match_items, fnmatchcase}

compile-plain :
    (c : ℕ) (cs : List ℕ)
    → eqb b'*' c ≡ false
    → eqb b'?' c ≡ false
    → eqb b'[' c ≡ false
    → compile 0 (c ∷ cs) ≡ one (literal c) ∷ compile 0 cs
unfolding compile
compile-plain c cs star_not mark_not bracket_not = ground arith

literal-equal_codes :
    (c : ℕ) (cs name : List ℕ)
    → compile 0 (c ∷ cs) ≡ one (literal c) ∷ compile 0 cs
    → ((ds : List ℕ) → fnmatchcase ds cs ≡ equal_codes ds cs)
    → fnmatchcase name (c ∷ cs) ≡ equal_codes name (c ∷ cs)
unfolding fnmatchcase match_items equal_codes accepts
literal-equal_codes c cs [] first rest = ap (λ items. match_items items []) first
literal-equal_codes c cs (d ∷ ds) first rest =
    ground (arith, ap (λ items. match_items items (d ∷ ds)) first, rest ds)

-- A name matches a plain pattern if it is the pattern.
pub plain-equal_codes :
    (pattern name : List ℕ)
    → has_code b'*' pattern ≡ false
    → has_code b'?' pattern ≡ false
    → has_code b'[' pattern ≡ false
    → fnmatchcase name pattern ≡ equal_codes name pattern
unfolding fnmatchcase match_items equal_codes has_code accepts compile
plain-equal_codes [] [] h i j = refl
plain-equal_codes [] (d ∷ ds) h i j = refl
plain-equal_codes (c ∷ cs) name h i j =
    let first = compile-plain c cs (ground (arith, h)) (ground (arith, i)) (ground (arith, j)) in
    let rest = λ (ds : List ℕ).
      plain-equal_codes cs ds (ground (arith, h)) (ground (arith, i)) (ground (arith, j)) in
    literal-equal_codes c cs name first rest
