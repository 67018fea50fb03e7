-- ===== src/Scopes/Match/Prefix.antt =====
-- Scopes of concrete segments and scopes with a concrete prefix (`scopes_overlap` of
-- `cairn-core/scripts/change_docs.py`).
use cairness.Base.{
  ℕ, ◌≡◌, ◌⊎◌, refl, sym, ap, ◌∙◌, subst, true, false, ◌&&◌, Option, none, some, List, [], ◌∷◌,
  ◌++◌, arith, Bool-cases, inl, inr, equal_codes, equal_codes→≡, equal_codes_refl, length, take,
  min, drop, take-append-drop, Option-cases, zero, suc, ◌≤◌, leb,
}
use cairness.Scopes.Glob.{any_suffix, fnmatchcase}
use cairness.Scopes.Glob.Plain.{plain-equal_codes}
use cairness.Scopes.Parts.{
  any_part, add_part, before_recursive, if_concrete, is_glob, is_recursive, is_concrete_scope,
  recursive_prefix,
}
use cairness.Scopes.Match.{match_path_parts, equal_parts, prefixes_overlap}

pub equal_parts→≡ : (ps qs : List (List ℕ)) → equal_parts ps qs ≡ true → ps ≡ qs
unfolding equal_parts
equal_parts→≡ [] [] h = refl
equal_parts→≡ [] (q ∷ qs) h = absurd (cc)
equal_parts→≡ (p ∷ ps) [] h = absurd (cc)
equal_parts→≡ (p ∷ ps) (q ∷ qs) h =
    let head = equal_codes→≡ p q (ground (arith, h)) in
    let tail = equal_parts→≡ ps qs (ground (arith, h)) in cc (head, tail)

concrete-head :
    (s : List ℕ) (scope : List (List ℕ))
    → is_concrete_scope (s ∷ scope) ≡ true
    → (is_recursive s ≡ false) × (is_glob s ≡ false) × (is_concrete_scope scope ≡ true)
unfolding is_concrete_scope any_part
concrete-head s scope h = (ground (arith, h), ground (arith, h), ground (arith, h))

plain-part : (s p : List ℕ) → is_glob s ≡ false → fnmatchcase p s ≡ equal_codes p s
unfolding is_glob
plain-part s p h = plain-equal_codes s p (ground (arith, h)) (ground (arith, h)) (ground (arith, h))

-- A path in a scope that starts with concrete segments starts with them.
prefix-path :
    (prefix rest path : List (List ℕ))
    → is_concrete_scope prefix ≡ true
    → match_path_parts (prefix ++ rest) path ≡ true
    → equal_parts (take (length prefix) path) prefix ≡ true
unfolding equal_parts match_path_parts
prefix-path [] rest path c h = refl
prefix-path (s ∷ prefix) rest [] c h = absurd (ground (arith, h, concrete-head s prefix c))
prefix-path (s ∷ prefix) rest (p ∷ path) c h =
    let parts = concrete-head s prefix c in
    let here : fnmatchcase p s && match_path_parts (prefix ++ rest) path ≡ true =
      ground (arith, h, parts.0) in
    let tail = prefix-path prefix rest path (parts.2) (ground (arith, here)) in
    ground (arith, here, tail, plain-part s p (parts.1))

pub concrete-path :
    (scope path : List (List ℕ))
    → is_concrete_scope scope ≡ true
    → match_path_parts scope path ≡ true
    → path ≡ scope
unfolding match_path_parts
concrete-path [] [] c h = refl
concrete-path [] (p ∷ path) c h = absurd (cc)
concrete-path (s ∷ scope) [] c h = absurd (ground (arith, h, concrete-head s scope c))
concrete-path (s ∷ scope) (p ∷ path) c h =
    let parts = concrete-head s scope c in
    let here : fnmatchcase p s && match_path_parts scope path ≡ true = ground (arith, h, parts.0) in
    let tail = concrete-path scope path (parts.2) (ground (arith, here)) in
    let head = equal_codes→≡ p s (ground (arith, here, plain-part s p (parts.1))) in cc (head, tail)

any_path :
    (r : List ℕ) (path : List (List ℕ))
    → is_recursive r ≡ true
    → match_path_parts (r ∷ []) path ≡ true
unfolding match_path_parts any_suffix
any_path r [] h = ground (arith, h)
any_path r (p ∷ path) h = ground (arith, h, any_path r path h)

-- A path that starts with the concrete segments of a recursive scope is in the scope.
path-prefix :
    (prefix : List (List ℕ)) (r : List ℕ) (path : List (List ℕ))
    → is_concrete_scope prefix ≡ true
    → is_recursive r ≡ true
    → equal_parts (take (length prefix) path) prefix ≡ true
    → match_path_parts (prefix ++ (r ∷ [])) path ≡ true
unfolding equal_parts match_path_parts
path-prefix [] r path c h e = any_path r path h
path-prefix (s ∷ prefix) r [] c h e = absurd (cc)
path-prefix (s ∷ prefix) r (p ∷ path) c h e =
    let parts = concrete-head s prefix c in
    let tail = path-prefix prefix r path (parts.2) h (ground (arith, e)) in
    ground (arith, e, parts.0, tail, plain-part s p (parts.1))

longer-append :
    (s : List ℕ) (scope prefix : List (List ℕ))
    → ((ps : List (List ℕ))
        → before_recursive scope ≡ some ps
        → (r : List ℕ) × (is_recursive r ≡ true) × (scope ≡ ps ++ (r ∷ [])))
    → (before_recursive scope ≡ none) ⊎ ((ps : List (List ℕ)) × (before_recursive scope ≡ some ps))
    → add_part s (before_recursive scope) ≡ some prefix
    → (r : List ℕ) × (is_recursive r ≡ true) × (s ∷ scope ≡ prefix ++ (r ∷ []))
unfolding add_part
longer-append s scope prefix rest (inl e) h = absurd (ground (arith, ap (add_part s) e, h))
longer-append s scope prefix rest (inr (ps, e)) h =
    let (r, rec, whole) = rest ps e in
    (
      r,
      rec,
      subst (λ qs. s ∷ scope ≡ qs ++ (r ∷ [])) {x = s ∷ ps} {y = prefix}
          (ground (arith, ap (add_part s) e, h)) (ap (λ qs. s ∷ qs) whole),
    )

before_recursive-append :
    (scope prefix : List (List ℕ))
    → before_recursive scope ≡ some prefix
    → (r : List ℕ) × (is_recursive r ≡ true) × (scope ≡ prefix ++ (r ∷ []))
unfolding before_recursive
before_recursive-append [] prefix h = absurd (cc)
before_recursive-append (s ∷ []) prefix h = elim (Bool-cases (is_recursive s)) [
  | inl r ↦ (
    s,
    r,
    subst (λ ps. s ∷ [] ≡ ps ++ (s ∷ [])) {x = []} {y = prefix} (ground (arith, r, h)) refl,
  )
  | inr r ↦ absurd (ground (arith, r, h))
]
before_recursive-append (s ∷ t ∷ scope) prefix h =
    longer-append s (t ∷ scope) prefix (before_recursive-append (t ∷ scope))
      (Option-cases (before_recursive (t ∷ scope))) h

-- What `recursive_prefix` has found out.
IsRecursiveScope : List (List ℕ) → List (List ℕ) → Type 0
IsRecursiveScope prefix scope =
    (is_concrete_scope prefix ≡ true)
    × ((r : List ℕ) × (is_recursive r ≡ true) × (scope ≡ prefix ++ (r ∷ [])))

recursive_prefix-IsRecursiveScope :
    (scope prefix : List (List ℕ))
    → recursive_prefix scope ≡ some prefix
    → IsRecursiveScope prefix scope
unfolding IsRecursiveScope recursive_prefix if_concrete
recursive_prefix-IsRecursiveScope scope prefix h = elim (Option-cases (before_recursive scope)) [
  | inl e ↦ absurd (ground (arith, ap if_concrete e, h))
  | inr (ps, e) ↦ elim (Bool-cases (is_concrete_scope ps)) [
    | inl c ↦
        subst (λ qs. IsRecursiveScope qs scope) {x = ps} {y = prefix}
          (ground (arith, ap if_concrete e, h, c)) (c, before_recursive-append scope ps e)
    | inr c ↦ absurd (ground (arith, ap if_concrete e, h, c))
  ]
]

-- Every path in the first scope is in the second.
unfoldable pub IsWithin : List (List ℕ) → List (List ℕ) → Type 0
IsWithin inner outer =
    (path : List (List ℕ)) → match_path_parts inner path ≡ true → match_path_parts outer path ≡ true

pub IsWithin-refl : (ps : List (List ℕ)) → IsWithin ps ps
unfolding IsWithin
IsWithin-refl ps path h = h

prefix-IsWithin :
    (inner outer prefix : List (List ℕ))
    → IsRecursiveScope prefix outer
    → equal_parts (take (length prefix) inner) prefix ≡ true
    → IsWithin inner outer
unfolding IsRecursiveScope IsWithin
prefix-IsWithin inner outer prefix (c, (r, rec, e)) h path m =
    let start = equal_parts→≡ (take (length prefix) inner) prefix h in
    let whole : prefix ++ drop (length prefix) inner ≡ inner =
      ap (λ ps. ps ++ drop (length prefix) inner) (sym start)
      ∙ take-append-drop (length prefix) inner in
    let in_prefix =
      prefix-path prefix (drop (length prefix) inner) path c
        (ap (λ ps. match_path_parts ps path) whole ∙ m) in
    ap (λ ps. match_path_parts ps path) e ∙ path-prefix prefix r path c rec in_prefix

equal_parts_refl : (ps : List (List ℕ)) → equal_parts ps ps ≡ true
unfolding equal_parts
equal_parts_refl [] = refl
equal_parts_refl (p ∷ ps) = ground (arith, equal_codes_refl p, equal_parts_refl ps)

take-append : (n : ℕ) (xs ys : List (List ℕ)) → n ≤ length xs → take n (xs ++ ys) ≡ take n xs
take-append zero xs ys h = refl
take-append (suc n) [] ys h = absurd (omega arith)
take-append (suc n) (x ∷ xs) ys h = ap (λ zs. x ∷ zs) (take-append n xs ys (omega (arith, h)))

take-all : (n : ℕ) (xs : List (List ℕ)) → length xs ≤ n → take n xs ≡ xs
take-all zero [] h = refl
take-all zero (x ∷ xs) h = absurd (omega arith)
take-all (suc n) [] h = refl
take-all (suc n) (x ∷ xs) h = ap (λ zs. x ∷ zs) (take-all n xs (omega (arith, h)))

-- The recursive scope with the longer prefix lies within the other.
longer-IsWithin :
    (inner outer p q : List (List ℕ))
    → IsRecursiveScope p outer
    → IsRecursiveScope q inner
    → length p ≤ length q
    → take (length p) q ≡ p
    → IsWithin inner outer
unfolding IsRecursiveScope
longer-IsWithin inner outer p q scope (_, (r, _, e)) short same =
    let start = ap (take (length p)) e ∙ take-append (length p) q (r ∷ []) short ∙ same in
    prefix-IsWithin inner outer p scope (ap (λ ps. equal_parts ps p) start ∙ equal_parts_refl p)

prefixes-IsWithin :
    (a b p q : List (List ℕ))
    → IsRecursiveScope p a
    → IsRecursiveScope q b
    → take (min (length p) (length q)) p ≡ take (min (length p) (length q)) q
    → IsWithin a b ⊎ IsWithin b a
prefixes-IsWithin a b p q left right h = elim (Bool-cases (leb (length p) (length q))) [
  | inl le ↦ inr (
      longer-IsWithin b a p q left right (ground (arith, le)) (
        ap (λ n. take n q) (ground (arith, le))
        ∙ sym h
        ∙ take-all (min (length p) (length q)) p (ground (arith, le))))
  | inr gt ↦ inl (
      longer-IsWithin a b q p right left (ground (arith, gt)) (
        ap (λ n. take n p) (ground (arith, gt))
        ∙ h
        ∙ take-all (min (length p) (length q)) q (ground (arith, gt))))
]

pub prefixes_overlap-IsWithin :
    (a b : List (List ℕ))
    → prefixes_overlap a b (recursive_prefix a) (recursive_prefix b) ≡ true
    → IsWithin a b ⊎ IsWithin b a
unfolding prefixes_overlap
prefixes_overlap-IsWithin a b h =
    by_prefix (recursive_prefix a) (recursive_prefix b) (recursive_prefix-IsRecursiveScope a)
      (recursive_prefix-IsRecursiveScope b) h
  where
    by_prefix :
        (o u : Option (List (List ℕ)))
        → ((p : List (List ℕ)) → o ≡ some p → IsRecursiveScope p a)
        → ((q : List (List ℕ)) → u ≡ some q → IsRecursiveScope q b)
        → prefixes_overlap a b o u ≡ true
        → IsWithin a b ⊎ IsWithin b a
    by_prefix none none left right e = absurd (ground (arith, e))
    by_prefix none (some q) left right e = inl (prefix-IsWithin a b q (right q refl) e)
    by_prefix (some p) none left right e = inr (prefix-IsWithin b a p (left p refl) e)
    by_prefix (some p) (some q) left right e =
        prefixes-IsWithin a b p q (left p refl) (right q refl) (
          equal_parts→≡ (take (min (length p) (length q)) p) (take (min (length p) (length q)) q) e)
