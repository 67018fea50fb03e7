-- ===== src/TestPolicy/Select/Covered.antt =====
-- What `select_tests` (test_policy.py) owes to a changed path.
use cairness.Base.{
  ℕ, codes, starts_with, String, Bool, ◌≡◌, ◌⊎◌, refl, ap, ◌∙◌, subst, true, false, List, [], ◌∷◌,
  ◌++◌, eq_iff, if◌then◌else◌, mem, mem-append, mem-filter_b, filter_b, arith, Bool-cases, inl, inr,
}
use cairness.Base.Sorting.{sorted, mem-sorted}
use cairness.TestPolicy.Stem.{is_related, is_documentation}
use cairness.TestPolicy.Select.{
  Rule, Policy, Verdict, changed_test, global_path, documentation, unmatched, routed, related,
  matches_any, rules_for, expand, by_name, by_rules, verdict,
}

-- The changed path has its tests among `tests`. A documentation page has none.
abbrev pub Covers : List String → Verdict → String → Type 0
Covers tests changed_test path = mem path tests ≡ true
Covers tests (routed ts) path = (t : String) → mem t ts ≡ true → mem t tests ≡ true
Covers tests (related ts) path = (t : String) → mem t ts ≡ true → mem t tests ≡ true
Covers tests documentation path = Unit
Covers tests global_path path = ⊥
Covers tests unmatched path = ⊥

-- The rule is one of the list.
abbrev pub HasRule : Rule → List Rule → Type 0
HasRule r [] = ⊥
HasRule r (q ∷ rs) = (r ≡ q) ⊎ HasRule r rs

-- No rule of the list has the path among its sources.
abbrev pub HasNoRule : String → List Rule → Type 0
HasNoRule path [] = Unit
HasNoRule path (r ∷ rs) = (matches_any r.sources path ≡ false) × HasNoRule path rs

starts_with-split : (p s : List ℕ) → starts_with p s ≡ true → (rest : List ℕ) × (s ≡ p ++ rest)
unfolding starts_with
starts_with-split [] s h = (s, refl)
starts_with-split (c ∷ p) [] h = absurd (cc)
starts_with-split (c ∷ p) (d ∷ s) h =
    let (rest, e) = starts_with-split p s (ground (arith, h)) in (rest, ground (arith, h, e))

module _ (policy : Policy) (discovered : List String) where
  -- What becomes of a changed path, by the policy: a test is selected itself; no other path is
  -- global; of a path that rules have, all discovered tests of those rules are selected; of one that
  -- none has, all discovered tests of its name; and one that has no such test is below
  -- `cairn-core/docs/`.
  pub record IsCovered (tests : List String) (path : String) : Type 0 where
    pub itself : mem path discovered ≡ true → mem path tests ≡ true
    pub not_global : mem path discovered ≡ false → matches_any policy.global_paths path ≡ false
    pub by_rule :
        (r : Rule) (t : String)
        → mem path discovered ≡ false
        → HasRule r policy.routing_rules
        → matches_any r.sources path ≡ true
        → matches_any r.tests t ≡ true
        → mem t discovered ≡ true
        → mem t tests ≡ true
    pub named :
        (t : String)
        → mem path discovered ≡ false
        → HasNoRule path policy.routing_rules
        → mem t discovered ≡ true
        → is_related path t ≡ true
        → mem t tests ≡ true
    pub documented :
        mem path discovered ≡ false
        → HasNoRule path policy.routing_rules
        → ((t : String) → mem t discovered ≡ true → is_related path t ≡ false)
        → (below : List ℕ) × (codes path ≡ codes "cairn-core/docs/" ++ below)

  mem-expand :
      (path : String) (r : Rule) (t : String) (rs : List Rule)
      → HasRule r rs
      → matches_any r.sources path ≡ true
      → matches_any r.tests t ≡ true
      → mem t discovered ≡ true
      → mem t (expand discovered (rules_for path rs)) ≡ true
  unfolding rules_for expand
  mem-expand path r t [] i h k m = absurd i
  mem-expand path r t (q ∷ rs) (inl e) h k m =
      let h' = subst (λ x. matches_any x.sources path ≡ true) e h in
      let k' = subst (λ x. matches_any x.tests t ≡ true) e k in
      rw h' (
        ground (
          arith,
          mem-append t (filter_b (matches_any q.tests) (sorted discovered))
              (expand discovered (rules_for path rs)),
          mem-filter_b (matches_any q.tests) t (sorted discovered),
          mem-sorted t discovered,
          k',
          m,
        ))
  mem-expand path r t (q ∷ rs) (inr i) h k m =
      let later = mem-expand path r t rs i h k m in
      elim (Bool-cases (matches_any q.sources path)) [
        | inl e ↦ rw e (
            ground (
              arith,
              mem-append t (filter_b (matches_any q.tests) (sorted discovered))
                  (expand discovered (rules_for path rs)),
              later,
            ))
        | inr e ↦ rw e later
      ]

  no_rules : (path : String) (rs : List Rule) → HasNoRule path rs → rules_for path rs ≡ []
  unfolding rules_for
  no_rules path [] h = refl
  no_rules path (r ∷ rs) h = ground (arith, h.0, no_rules path rs h.1)

  Covers-by_rules :
      (tests : List String) (path : String) (r : Rule) (t : String) (rs : List Rule)
      → Covers tests (by_rules discovered path rs) path
      → mem t (expand discovered rs) ≡ true
      → mem t tests ≡ true
  unfolding by_rules expand
  Covers-by_rules tests path r t [] c m = absurd (cc)
  Covers-by_rules tests path r t (q ∷ rs) c m = c t m

  Covers-by_name :
      (tests : List String) (path : String)
      → Covers tests (by_name discovered path) path
      → ((t : String) → mem t discovered ≡ true → is_related path t ≡ true → mem t tests ≡ true)
        × (((t : String) → mem t discovered ≡ true → is_related path t ≡ false)
            → is_documentation path ≡ true)
  unfolding by_name
  Covers-by_name tests path c = go (filter_b (is_related path) discovered) refl c
    where
      go :
          (l : List String)
          → filter_b (is_related path) discovered ≡ l
          → Covers tests
              (elim l [
                | t ∷ ts ↦ related (t ∷ ts)
                | [] ↦ if is_documentation path then documentation else unmatched
              ])
              path
          → ((t : String) → mem t discovered ≡ true → is_related path t ≡ true → mem t tests ≡ true)
            × (((t : String) → mem t discovered ≡ true → is_related path t ≡ false)
                → is_documentation path ≡ true)
      go [] e c = (
        (λ t m k.
            absurd
              (ground (arith, mem-filter_b (is_related path) t discovered, ap (mem t) e, m, k))),
        (λ none. elim (Bool-cases (is_documentation path)) [
          | inl d ↦ d
          | inr d ↦
              absurd (subst (λ b. Covers tests (if b then documentation else unmatched) path) d c)
        ]),
      )
      go (t ∷ ts) e c = (
        (λ x m k.
            c x (ground (arith, mem-filter_b (is_related path) x discovered, ap (mem x) e, m, k))),
        (λ none.
            let there : mem t (filter_b (is_related path) discovered) ≡ true =
              ap (mem t) e ∙ ground (arith, eq_iff t t) in
            absurd (ground (arith, none t, mem-filter_b (is_related path) t discovered, there))),
      )

  abbrev if_global : Bool → String → Verdict
  if_global b path =
      if b then global_path else by_rules discovered path (rules_for path policy.routing_rules)

  abbrev if_test : Bool → String → Verdict
  if_test b path = if b then changed_test else if_global (matches_any policy.global_paths path) path

  pub Covers-IsCovered :
      (tests : List String) (path : String)
      → Covers tests (verdict policy discovered path) path
      → IsCovered tests path
  unfolding verdict is_documentation by_name by_rules
  Covers-IsCovered tests path c = elim (Bool-cases (mem path discovered)) [
    | inl here ↦ record {
      itself = λ _. subst (λ b. Covers tests (if_test b path) path) here c;
      not_global = λ m. absurd (ground (arith, m, here));
      by_rule = λ r t m. absurd (ground (arith, m, here));
      named = λ t m. absurd (ground (arith, m, here));
      documented = λ m. absurd (ground (arith, m, here));
    }
    | inr gone ↦
        let c1 = subst (λ b. Covers tests (if_test b path) path) gone c in
        elim (Bool-cases (matches_any policy.global_paths path)) [
          | inl global ↦ absurd (subst (λ b. Covers tests (if_global b path) path) global c1)
          | inr local ↦
              let c2 = subst (λ b. Covers tests (if_global b path) path) local c1 in
              let by_its_name : HasNoRule path policy.routing_rules
                  → Covers tests (by_name discovered path) path =
                λ n.
                  subst (λ l. Covers tests (by_rules discovered path l) path)
                    (no_rules path policy.routing_rules n) c2 in
              record {
                itself = λ m. absurd (ground (arith, m, gone));
                not_global = λ _. local;
                by_rule = λ r t _ i h k m.
                    Covers-by_rules tests path r t (rules_for path policy.routing_rules) c2
                      (mem-expand path r t policy.routing_rules i h k m);
                named = λ t _ n m k. (Covers-by_name tests path (by_its_name n)).0 t m k;
                documented = λ _ n none.
                    starts_with-split (codes "cairn-core/docs/") (codes path)
                      ((Covers-by_name tests path (by_its_name n)).1 none);
              }
        ]
  ]
