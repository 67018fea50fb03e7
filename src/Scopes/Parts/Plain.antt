-- ===== src/Scopes/Parts/Plain.antt =====
-- Segments of plain characters, joined with slashes and split at them
-- (`cairn-core/scripts/change_docs.py`).
use cairness.Base.{
  ℕ, ◌≡◌, refl, ap, Bool, true, false, not, ◌&&◌, ◌||◌, List, [], ◌∷◌, ◌++◌, eqb, ◌∙◌, arith,
  has_code,
}
use cairness.Scopes.Parts.{
  is_space, strip_left, strip_right, strip_both, add_code, split_slashes, join_slashes, is_relative,
}

-- No code of the list passes.
unfoldable pub none_of : (ℕ → Bool) → List ℕ → Bool
none_of p [] = true
none_of p (c ∷ cs) = not (p c) && none_of p cs

-- A character that a path may not have, or that is not kept at its ends.
unfoldable pub is_special : ℕ → Bool
unfolding is_space
is_special c = is_space c || eqb b'`' c || eqb b'/' c || eqb b'\\' c || eqb 0 c

unfoldable pub is_plain_part : List ℕ → Bool
unfolding none_of is_relative is_special
is_plain_part part = none_of is_special part && not (is_relative part)

unfoldable pub all_plain : List (List ℕ) → Bool
unfolding is_plain_part
all_plain [] = true
all_plain (part ∷ parts) = is_plain_part part && all_plain parts

none_of-append :
    (p : ℕ → Bool) (xs ys : List ℕ)
    → none_of p xs ≡ true
    → none_of p ys ≡ true
    → none_of p (xs ++ ys) ≡ true
unfolding none_of
none_of-append p [] ys h i = i
none_of-append p (x ∷ xs) ys h i = ground (arith, h, none_of-append p xs ys, i)

none_of-special :
    (p : ℕ → Bool)
    → ((c : ℕ) → is_special c ≡ false → p c ≡ false)
    → (cs : List ℕ) → none_of is_special cs ≡ true
    → none_of p cs ≡ true
unfolding none_of
none_of-special p weaker [] h = refl
none_of-special p weaker (c ∷ cs) h = ground (arith, h, weaker c, none_of-special p weaker cs)

pub none_of-join :
    (p : ℕ → Bool)
    → p b'/' ≡ false
    → ((c : ℕ) → is_special c ≡ false → p c ≡ false)
    → (parts : List (List ℕ)) → all_plain parts ≡ true
    → none_of p (join_slashes parts) ≡ true
unfolding join_slashes all_plain is_plain_part none_of
none_of-join p slash weaker [] h = refl
none_of-join p slash weaker (part ∷ []) h = none_of-special p weaker part (ground (arith, h))
none_of-join p slash weaker (part ∷ next ∷ parts) h =
    none_of-append p part (b'/' ∷ join_slashes (next ∷ parts))
      (none_of-special p weaker part (ground (arith, h)))
      (ground (arith, slash, none_of-join p slash weaker (next ∷ parts) (ground (arith, h))))

strip_left-none : (p : ℕ → Bool) (cs : List ℕ) → none_of p cs ≡ true → strip_left p cs ≡ cs
unfolding none_of strip_left
strip_left-none p [] h = refl
strip_left-none p (c ∷ cs) h = ground (arith, h)

strip_right-none : (p : ℕ → Bool) (cs : List ℕ) → none_of p cs ≡ true → strip_right p cs ≡ cs
unfolding none_of strip_right
strip_right-none p [] h = refl
strip_right-none p (c ∷ cs) h = ground (arith, h, strip_right-none p cs)

pub strip_both-none : (p : ℕ → Bool) (cs : List ℕ) → none_of p cs ≡ true → strip_both p cs ≡ cs
unfolding strip_both
strip_both-none p cs h = ap (strip_right p) (strip_left-none p cs h) ∙ strip_right-none p cs h

pub has_code-none : (d : ℕ) (cs : List ℕ) → none_of (eqb d) cs ≡ true → has_code d cs ≡ false
unfolding none_of has_code
has_code-none d [] h = refl
has_code-none d (c ∷ cs) h = ground (arith, h, has_code-none d cs)

-- The pieces of a list that are put before a slash come off again.
split-part :
    (part rest : List ℕ)
    → none_of (eqb b'/') part ≡ true
    → split_slashes (part ++ (b'/' ∷ rest)) ≡ part ∷ split_slashes rest
unfolding none_of split_slashes add_code
split-part [] rest h = refl
split-part (c ∷ cs) rest h =
    ground (arith, h, ap (add_code c) (split-part cs rest (ground (arith, h))))

split-last : (part : List ℕ) → none_of (eqb b'/') part ≡ true → split_slashes part ≡ part ∷ []
unfolding none_of split_slashes add_code
split-last [] h = refl
split-last (c ∷ cs) h = ground (arith, h, ap (add_code c) (split-last cs (ground (arith, h))))

pub no_slash : (part : List ℕ) → is_plain_part part ≡ true → none_of (eqb b'/') part ≡ true
unfolding is_plain_part is_special
no_slash part h = none_of-special (eqb b'/') (λ c i. ground (arith, i)) part (ground (arith, h))

pub split-join :
    (part : List ℕ) (parts : List (List ℕ))
    → all_plain (part ∷ parts) ≡ true
    → split_slashes (join_slashes (part ∷ parts)) ≡ part ∷ parts
unfolding join_slashes all_plain
split-join part [] h = split-last part (no_slash part (ground (arith, h)))
split-join part (next ∷ parts) h =
    split-part part (join_slashes (next ∷ parts)) (no_slash part (ground (arith, h)))
    ∙ ap (λ rest. part ∷ rest) (split-join next parts (ground (arith, h)))
