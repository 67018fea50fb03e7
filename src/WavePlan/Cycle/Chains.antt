-- ===== src/WavePlan/Cycle/Chains.antt =====
-- Paths of dependencies, as the stack of `_detect_cycle` holds them.
use cairness.Base.{
  ℕ, ◌<◌, String, ◌≡◌, refl, sym, ap, true, List, [], ◌∷◌, ◌++◌, arith, ◌==◌, eq_iff, mem,
  Bool-cases, inl, inr, subst,
}
use cairness.Base.Dict.{Dict}
use cairness.WavePlan.Task.{TaskNode}
use cairness.WavePlan.Cycle.{deps_of, from_index, pop}

pub pop-append : (xs : List String) (x : String) → pop (xs ++ x ∷ []) ≡ xs
unfolding pop
pop-append [] x = refl
pop-append (y ∷ []) x = refl
pop-append (y ∷ z ∷ xs) x = ap (λ l. y ∷ l) (pop-append (z ∷ xs) x)

module _ (by_id : Dict TaskNode) where
  -- `x` depends on `y`.
  abbrev pub Edge : String → String → Type 0
  Edge x y = mem y (deps_of by_id x) ≡ true

  -- Each item depends on the next.
  abbrev pub Chain : List String → Type 0
  Chain [] = Unit
  Chain (x ∷ []) = Unit
  Chain (x ∷ y ∷ ys) = Edge x y × Chain (y ∷ ys)

  -- A path of dependencies from a task back to itself.
  pub record IsCycle (c : List String) : Type 0 where
    pub start : String
    pub between : List String
    pub closed : c ≡ start ∷ between ++ start ∷ []
    pub chained : Chain c

  pub Chain-snoc :
      (xs : List String) (x y : String)
      → Chain (xs ++ x ∷ [])
      → Edge x y
      → Chain ((xs ++ x ∷ []) ++ y ∷ [])
  Chain-snoc [] x y c e = (e, tt)
  Chain-snoc (a ∷ []) x y c e = (c.0, (e, tt))
  Chain-snoc (a ∷ b ∷ xs) x y c e = (c.0, Chain-snoc (b ∷ xs) x y c.1 e)

  Chain-tail : (x : String) (xs : List String) → Chain (x ∷ xs) → Chain xs
  Chain-tail x [] c = tt
  Chain-tail x (y ∷ ys) c = c.1

  pub from_index-IsCycle :
      (x : String) (xs : List String)
      → Chain (xs ++ x ∷ [])
      → mem x xs ≡ true
      → IsCycle (from_index x xs ++ x ∷ [])
  unfolding from_index
  from_index-IsCycle x [] c h = absurd (cc)
  from_index-IsCycle x (y ∷ ys) c h = elim (Bool-cases (x == y)) [
    | inl e ↦ rw e (record {
      start = x;
      between = ys;
      closed = ap (λ z. z ∷ ys ++ x ∷ []) (sym ((eq_iff x y).0 e));
      chained = c;
    })
    | inr e ↦ rw e (from_index-IsCycle x ys (Chain-tail y (ys ++ x ∷ []) c) (ground arith))
  ]

  Chain-falls :
      (rank : String → ℕ)
      → ((x y : String) → Edge x y → rank y < rank x)
      → (x : String) (mid : List String) (y : String) → Chain (x ∷ mid ++ y ∷ [])
      → rank y < rank x
  Chain-falls rank falls x [] y c = falls x y c.0
  Chain-falls rank falls x (z ∷ mid) y c =
      omega (arith, falls x z c.0, Chain-falls rank falls z mid y c.1)

  -- Where a number falls along dependencies there is no cycle.
  pub not-IsCycle :
      (rank : String → ℕ)
      → ((x y : String) → Edge x y → rank y < rank x)
      → (c : List String) → ¬ IsCycle c
  not-IsCycle rank falls c k = absurd (
      omega
        (arith, Chain-falls rank falls k.start k.between k.start (subst Chain k.closed k.chained)))
