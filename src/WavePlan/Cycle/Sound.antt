-- ===== src/WavePlan/Cycle/Sound.antt =====
-- `_detect_cycle` ends within its fuel, and what it finds is a cycle.
use cairness.Base.{
  ℕ, zero, suc, ◌+◌, ◌≤◌, ◌<◌, String, ◌≡◌, ◌≢◌, refl, sym, ap, ◌∙◌, true, some, List, [], ◌∷◌,
  ◌++◌, arith, eq_iff, mem, Option-cases, inl, inr, subst, length, mem-append,
}
use cairness.Base.Dict
use cairness.Base.Dict.{Dict, get-put}
use cairness.WavePlan.Task.{TaskNode}
use cairness.WavePlan.Cycle.{
  Color, white, gray, black, Search, Visit, found, clean, starved, and_then, pop, deps_of,
  visit_dep, visit_deps, enter, leave, dfs, visit_root, visit_roots, all_white, search_cycle,
  detect_cycle,
}
use cairness.WavePlan.Cycle.Chains.{
  Edge, Chain, IsCycle, Chain-snoc, from_index-IsCycle, pop-append,
}

-- The keys that are still white.
whites : Dict Color → ℕ
whites [] = 0
whites ((x, c) ∷ m) = elim c [ white ↦ suc (whites m) | _ ↦ whites m ]

whites-put_gray :
    (m : Dict Color) (x : String)
    → Dict.get m x ≡ some white
    → suc (whites (Dict.put m x gray)) ≡ whites m
unfolding whites Dict.get Dict.put
whites-put_gray [] x h = absurd (cc)
whites-put_gray ((y, c) ∷ m) x h = ground (arith, whites-put_gray m x)

whites-put_black : (m : Dict Color) (x : String) → whites (Dict.put m x black) ≤ whites m
unfolding whites Dict.put
whites-put_black [] x = omega arith
whites-put_black ((y, c) ∷ m) x = ground (arith, whites-put_black m x)

whites-put_white : (m : Dict Color) (x : String) → whites (Dict.put m x white) ≤ suc (whites m)
unfolding whites Dict.put
whites-put_white [] x = omega arith
whites-put_white ((y, c) ∷ m) x = ground (arith, whites-put_white m x)

module _ (by_id : Dict TaskNode) where
  -- What is gray is on the stack.
  abbrev Grays : Search → Type 0
  Grays s = (y : String) → Dict.get s.color y ≡ some gray → mem y s.stack ≡ true

  abbrev Meets : Search → Visit → Type 0
  Meets s (found c) = IsCycle by_id c
  Meets s (clean s') = (s'.stack ≡ s.stack) × Grays s' × (whites s'.color ≤ whites s.color)
  Meets s starved = ⊥

  and_then-Meets :
      (s : Search) (v : Visit) (k : Search → Visit)
      → Meets s v
      → ((s' : Search)
          → s'.stack ≡ s.stack
          → Grays s'
          → whites s'.color ≤ whites s.color
          → Meets s (k s'))
      → Meets s (and_then v k)
  and_then-Meets s (found c) k m h = m
  and_then-Meets s (clean s') k m h = h s' m.0 m.1 m.2
  and_then-Meets s starved k m h = m

  Meets-from :
      (s s' : Search) (v : Visit)
      → s'.stack ≡ s.stack
      → whites s'.color ≤ whites s.color
      → Meets s' v
      → Meets s v
  Meets-from s s' (found c) e w m = m
  Meets-from s s' (clean t) e w m = (m.0 ∙ e, m.1, omega (arith, m.2))
  Meets-from s s' starved e w m = m

  -- A visit of a white task that depends on nothing but what the stack's top depends on.
  abbrev Contract : ℕ → (String → Search → Visit) → Type 0
  Contract bound go =
      (x : String) (s : Search)
      → Dict.get s.color x ≡ some white
      → Chain by_id (s.stack ++ x ∷ [])
      → Grays s
      → whites s.color < bound
      → Meets s (go x s)

  visit_dep-Meets :
      (bound : ℕ) (go : String → Search → Visit)
      → Contract bound go
      → (dep : String) (s : Search) → Chain by_id (s.stack ++ dep ∷ [])
      → Grays s
      → whites s.color < bound
      → Meets s (visit_dep go by_id dep s)
  unfolding visit_dep
  visit_dep-Meets bound go h dep s c g w = elim (Option-cases (Dict.get by_id dep)) [
    | inl e ↦ rw (e, visit_dep) (refl, g, omega arith)
    | inr (t, e) ↦
        rw (e, visit_dep)
          (elim (Option-cases (Dict.get s.color dep)) [
            | inl e' ↦ rw e' (refl, g, omega arith)
            | inr (white, e') ↦ rw e' (h dep s e' c g w)
            | inr (gray, e') ↦ rw e' (from_index-IsCycle by_id dep s.stack c (g dep e'))
            | inr (black, e') ↦ rw e' (refl, g, omega arith)
          ])
  ]

  visit_deps-Meets :
      (bound : ℕ) (go : String → Search → Visit)
      → Contract bound go
      → (below : List String) (x : String) (deps : List String) (s : Search)
      → ((d : String) → mem d deps ≡ true → Edge by_id x d)
      → s.stack ≡ below ++ x ∷ []
      → Chain by_id (below ++ x ∷ [])
      → Grays s
      → whites s.color < bound
      → Meets s (visit_deps go by_id deps s)
  unfolding visit_deps
  visit_deps-Meets bound go h below x [] s edges e c g w = (refl, g, omega arith)
  visit_deps-Meets bound go h below x (dep ∷ deps) s edges e c g w =
      let edge : Edge by_id x dep = edges dep (ground (arith, eq_iff dep dep)) in
      let longer = Chain-snoc by_id below x dep c edge in
      and_then-Meets s (visit_dep go by_id dep s) (visit_deps go by_id deps)
        (visit_dep-Meets bound go h dep s (subst (λ l. Chain by_id (l ++ dep ∷ [])) (sym e) longer)
          g w)
        (λ s' same g' w'. Meets-from s s' (visit_deps go by_id deps s') same w' (
          visit_deps-Meets bound go h below x deps s' (λ d m. edges d (ground arith)) (same ∙ e) c
            g' (omega arith)))

  -- From the body of `dfs` to its end.
  leave-Meets :
      (x : String) (s : Search) (v : Visit)
      → whites (enter x s).color ≤ whites s.color
      → Meets (enter x s) v
      → Meets s (and_then v (λ s'. clean (leave x s')))
  unfolding enter leave
  leave-Meets x s (found c) w m = m
  leave-Meets x s starved w m = m
  leave-Meets x s (clean t) w m = (
    ap pop m.0 ∙ pop-append s.stack x,
    (λ y e. rw (ap pop m.0 ∙ pop-append s.stack x) (
        ground (
          arith,
          m.1 y,
          get-put t.color x black y,
          ap (mem y) m.0,
          mem-append y s.stack (x ∷ []),
          eq_iff x y,
          eq_iff y x,
        ))),
    omega (arith, m.2, whites-put_black t.color x),
  )

  dfs-Meets : (fuel : ℕ) → Contract fuel (dfs by_id fuel)
  unfolding dfs enter leave
  dfs-Meets zero x s new c g w = absurd (omega arith)
  dfs-Meets (suc fuel) x s new c g w =
      let gone = whites-put_gray s.color x new in
      let deps = deps_of by_id x in
      let inside : Meets (enter x s) (visit_deps (dfs by_id fuel) by_id deps (enter x s)) =
        visit_deps-Meets fuel (dfs by_id fuel) (dfs-Meets fuel) s.stack x deps (enter x s)
          (λ d m. m) refl c
          (λ y e. ground (
            arith,
            g y,
            get-put s.color x gray y,
            mem-append y s.stack (x ∷ []),
            eq_iff x y,
            eq_iff y x,
          ))
          (omega (arith, gone)) in
      leave-Meets x s (visit_deps (dfs by_id fuel) by_id deps (enter x s)) (omega (arith, gone))
        inside

  visit_root-Meets :
      (fuel : ℕ) (x : String) (s : Search)
      → s.stack ≡ []
      → Grays s
      → whites s.color < fuel
      → Meets s (visit_root by_id fuel x s)
  unfolding visit_root
  visit_root-Meets fuel x s e g w = elim (Option-cases (Dict.get s.color x)) [
    | inl e' ↦ rw (e', visit_root) (refl, g, omega arith)
    | inr (white, e') ↦ rw (e', visit_root) (dfs-Meets fuel x s e' (rw e tt) g w)
    | inr (gray, e') ↦ rw (e', visit_root) (refl, g, omega arith)
    | inr (black, e') ↦ rw (e', visit_root) (refl, g, omega arith)
  ]

  visit_roots-Meets :
      (fuel : ℕ) (ts : List TaskNode) (s : Search)
      → s.stack ≡ []
      → Grays s
      → whites s.color < fuel
      → Meets s (visit_roots by_id fuel ts s)
  unfolding visit_roots
  visit_roots-Meets fuel [] s e g w = (refl, g, omega arith)
  visit_roots-Meets fuel (t ∷ ts) s e g w =
      and_then-Meets s (visit_root by_id fuel t.id s) (visit_roots by_id fuel ts)
        (visit_root-Meets fuel t.id s e g w)
        (λ s' same g' w'.
          Meets-from s s' (visit_roots by_id fuel ts s') same w'
            (visit_roots-Meets fuel ts s' (same ∙ e) g' (omega arith)))

  all_white-Grays :
      (m : Dict Color) (ts : List TaskNode)
      → ((y : String) → Dict.get m y ≢ some gray)
      → (y : String) → Dict.get (all_white m ts) y ≢ some gray
  unfolding all_white
  all_white-Grays m [] h y = h y
  all_white-Grays m (t ∷ ts) h y =
      all_white-Grays (Dict.put m t.id white) ts (λ z. ground (arith, h z, get-put m t.id white z))
        y

whites-all_white :
    (m : Dict Color) (ts : List TaskNode) → whites (all_white m ts) ≤ whites m + length ts
unfolding all_white
whites-all_white m [] = omega arith
whites-all_white m (t ∷ ts) =
    omega (arith, whites-all_white (Dict.put m t.id white) ts, whites-put_white m t.id)

module _ (tasks : List TaskNode) (by_id : Dict TaskNode) where
  abbrev first : Search
  first = record { color = all_white [] tasks; stack = [] }

  search_cycle-Meets : Meets by_id first (search_cycle tasks by_id)
  unfolding search_cycle whites Dict.get
  search_cycle-Meets =
      visit_roots-Meets by_id (suc (length tasks)) tasks first refl
        (λ y e. absurd (all_white-Grays by_id [] tasks (λ z k. cc) y e))
        (omega (arith, whites-all_white [] tasks))

  -- For any tasks and any dict of tasks the depth-first search never runs out of fuel.
  pub search_cycle-ne-starved : search_cycle tasks by_id ≢ starved
  search_cycle-ne-starved e = subst (Meets by_id first) e search_cycle-Meets

  -- A cycle that is reported is one.
  pub detect_cycle-IsCycle :
      (x : String) (xs : List String) → detect_cycle tasks by_id ≡ x ∷ xs → IsCycle by_id (x ∷ xs)
  unfolding detect_cycle
  detect_cycle-IsCycle x xs h = reported (search_cycle tasks by_id) search_cycle-Meets h
    where
      reported :
          (v : Visit)
          → Meets by_id first v
          → (elim v [ found c ↦ c | _ ↦ [] ]) ≡ x ∷ xs
          → IsCycle by_id (x ∷ xs)
      reported (found c) m e = subst (IsCycle by_id) e m
      reported (clean s) m e = absurd (cc)
      reported starved m e = absurd m
