-- ===== src/Scopes/Glob.antt =====
-- `fnmatch.fnmatchcase` of Python's library, on code points: `*`, `?`, `[seq]` and `[!seq]`.
pub mod Plain
use cairness.Base.{
  ℕ, zero, suc, ◌+◌, ◌≡◌, ◌↔◌, ◌⊎◌, refl, sym, ap, subst, Bool, true, false, not, ◌&&◌, ◌||◌,
  Option, none, some, List, [], ◌∷◌, map, length, eqb, leb, if◌then◌else◌, arith, Bool-cases, inl,
  inr,
}

pub data Test : Type 0 where
  literal : ℕ → Test
  any_one : Test
  -- `negated`, and the ranges
  class : (negated : Bool) → List (ℕ × ℕ) → Test

pub data Item : Type 0 where
  star : Item
  one : Test → Item

in_ranges : ℕ → List (ℕ × ℕ) → Bool
in_ranges c [] = false
in_ranges c ((lo, hi) ∷ rs) = (leb lo c && leb c hi) || in_ranges c rs

unfoldable pub accepts : Test → ℕ → Bool
unfolding in_ranges
accepts (literal d) c = eqb d c
accepts any_one c = true
accepts (class negated rs) c = if negated then not (in_ranges c rs) else in_ranges c rs

-- Up to the closing bracket.
up_to_bracket : List ℕ → Option (List ℕ)
up_to_bracket [] = none
up_to_bracket (c ∷ cs) =
    let rest = up_to_bracket cs in
    if eqb c b']' then some [] else elim rest [ none ↦ none | some ds ↦ some (c ∷ ds) ]

after : ℕ → Option (List ℕ) → Option (List ℕ)
after c none = none
after c (some ds) = some (c ∷ ds)

-- What stands between the brackets. A `]` that comes first, or first after `!`, is a member.
bracketed_tail : List ℕ → Option (List ℕ)
unfolding up_to_bracket after
bracketed_tail [] = none
bracketed_tail (c ∷ cs) = if eqb c b']' then after c (up_to_bracket cs) else up_to_bracket (c ∷ cs)

bracketed : List ℕ → Option (List ℕ)
unfolding bracketed_tail after
bracketed [] = none
bracketed (c ∷ cs) = if eqb c b'!' then after c (bracketed_tail cs) else bracketed_tail (c ∷ cs)

-- `a-z` is a range if something follows the dash; the rest are single members.
ranges : List ℕ → List (ℕ × ℕ)
ranges (a ∷ b ∷ c ∷ cs) =
    let range = (a, c) ∷ ranges cs in
    let single = (a, a) ∷ ranges (b ∷ c ∷ cs) in if eqb b b'-' then range else single
ranges (a ∷ b ∷ []) = (a, a) ∷ (b, b) ∷ []
ranges (a ∷ []) = (a, a) ∷ []
ranges [] = []

class_of : List ℕ → Item
unfolding ranges
class_of [] = one (class false [])
class_of (c ∷ cs) =
    if eqb c b'!' then one (class true (ranges cs)) else one (class false (ranges (c ∷ cs)))

-- `skip` characters have been read already, as part of a class.
unfoldable pub compile : (skip : ℕ) → List ℕ → List Item
unfolding bracketed class_of
compile skip [] = []
compile (suc skip) (c ∷ cs) = compile skip cs
compile zero (c ∷ cs) =
    if eqb c b'*'
    then star ∷ compile 0 cs
    else if eqb c b'?'
    then one any_one ∷ compile 0 cs
    else if eqb c b'['
    then elim (bracketed cs) [
      | none ↦ one (literal c) ∷ compile 0 cs
      | some members ↦ class_of members ∷ compile (length members + 1) cs
    ]
    else one (literal c) ∷ compile 0 cs

-- Some suffix of the list passes.
unfoldable pub any_suffix {ℓ} : {A : Type ℓ} → (List A → Bool) → List A → Bool
any_suffix f [] = f []
any_suffix f (x ∷ xs) = f (x ∷ xs) || any_suffix f xs

unfoldable pub match_items : List Item → List ℕ → Bool
match_items [] [] = true
match_items [] (c ∷ cs) = false
match_items (star ∷ items) cs = any_suffix (match_items items) cs
match_items (one t ∷ items) [] = false
match_items (one t ∷ items) (c ∷ cs) = accepts t c && match_items items cs

unfoldable pub fnmatchcase : List ℕ → List ℕ → Bool
fnmatchcase name pattern = match_items (compile 0 pattern) name

-- A text matches items if it is cut into parts, one for each item.
pub data Matches : List Item → List ℕ → Type 0 where
  end : Matches [] []
  single :
      {t : Test} {c : ℕ} {items : List Item} {cs : List ℕ}
      → accepts t c ≡ true
      → Matches items cs
      → Matches (one t ∷ items) (c ∷ cs)
  stop : {items : List Item} {cs : List ℕ} → Matches items cs → Matches (star ∷ items) cs
  grow :
      {c : ℕ} {items : List Item} {cs : List ℕ}
      → Matches (star ∷ items) cs
      → Matches (star ∷ items) (c ∷ cs)

suffix→Matches :
    (items : List Item) (sound : (es : List ℕ) → match_items items es ≡ true → Matches items es)
    (ds : List ℕ)
    → any_suffix (match_items items) ds ≡ true
    → Matches (star ∷ items) ds
unfolding any_suffix
suffix→Matches items sound [] h = stop (sound [] h)
suffix→Matches items sound (d ∷ ds) h = elim (Bool-cases (match_items items (d ∷ ds))) [
  | inl e ↦ stop (sound (d ∷ ds) e)
  | inr e ↦ grow (suffix→Matches items sound ds (ground (arith, e, h)))
]

match_items→Matches :
    (items : List Item) (cs : List ℕ) → match_items items cs ≡ true → Matches items cs
unfolding match_items
match_items→Matches [] [] h = end
match_items→Matches [] (c ∷ cs) h = absurd (cc)
match_items→Matches (star ∷ items) cs h = suffix→Matches items (match_items→Matches items) cs h
match_items→Matches (one t ∷ items) [] h = absurd (cc)
match_items→Matches (one t ∷ items) (c ∷ cs) h =
    single (ground arith) (match_items→Matches items cs (ground arith))

pub whole-any_suffix {ℓ} :
    {A : Type ℓ} (f : List A → Bool) (xs : List A) → f xs ≡ true → any_suffix f xs ≡ true
unfolding any_suffix
whole-any_suffix f [] h = h
whole-any_suffix f (x ∷ xs) h = ground (arith, h)

Matches→match_items :
    {items : List Item} {cs : List ℕ} → Matches items cs → match_items items cs ≡ true
unfolding match_items any_suffix
Matches→match_items end = refl
Matches→match_items (single h m) = ground (arith, h, Matches→match_items m)
Matches→match_items (stop {items} {cs} m) =
    whole-any_suffix (match_items items) cs (Matches→match_items m)
Matches→match_items (grow m) = ground (arith, Matches→match_items m)

pub fnmatchcase-Matches :
    (name pattern : List ℕ) → (fnmatchcase name pattern ≡ true) ↔ Matches (compile 0 pattern) name
unfolding fnmatchcase
fnmatchcase-Matches name pattern =
    (match_items→Matches (compile 0 pattern) name, Matches→match_items)
