-- ===== src/Scopes/Parts.antt =====
-- `_declared_path_parts`, `_is_concrete_scope` and `_recursive_prefix` of
-- `cairn-core/scripts/change_docs.py`: a path or scope as its segments.
pub mod Plain
pub mod Rejoin
use cairness.Base.{
  ℕ, zero, suc, ◌+◌, ◌≡◌, refl, Bool, true, false, not, ◌&&◌, ◌||◌, Option, none, some, List, [],
  ◌∷◌, ◌++◌, eqb, leb, if◌then◌else◌, arith, equal_codes, has_code, starts_with, Option-cases,
  Bool-cases, List-cases, inl, inr, ap,
}

-- The characters that `str.strip` takes for space.
unfoldable pub is_space : ℕ → Bool
is_space c =
    (leb 9 c && leb c 13)
    || (leb 28 c && leb c 32)
    || eqb c 133
    || eqb c 160
    || eqb c 5760
    || (leb 8192 c && leb c 8202)
    || eqb c 8232
    || eqb c 8233
    || eqb c 8239
    || eqb c 8287
    || eqb c 12288

unfoldable pub strip_left : (ℕ → Bool) → List ℕ → List ℕ
strip_left p [] = []
strip_left p (c ∷ cs) = let rest = strip_left p cs in if p c then rest else c ∷ cs

unfoldable pub is_empty : {A : Type 0} → List A → Bool
is_empty [] = true
is_empty (x ∷ xs) = false

unfoldable pub strip_right : (ℕ → Bool) → List ℕ → List ℕ
strip_right p [] = []
strip_right p (c ∷ cs) =
    let rest = strip_right p cs in if p c && is_empty rest then [] else c ∷ rest

unfoldable pub strip_both : (ℕ → Bool) → List ℕ → List ℕ
strip_both p cs = strip_right p (strip_left p cs)

-- `while raw.startswith("./"): raw = raw[2:]`
unfoldable pub drop_dots : List ℕ → List ℕ
drop_dots (a ∷ b ∷ cs) =
    let rest = drop_dots cs in if eqb a b'.' && eqb b b'/' then rest else a ∷ b ∷ cs
drop_dots (a ∷ []) = a ∷ []
drop_dots [] = []

unfoldable pub add_code : ℕ → List (List ℕ) → List (List ℕ)
add_code c [] = (c ∷ []) ∷ []
add_code c (part ∷ parts) = (c ∷ part) ∷ parts

-- `raw.split("/")`
unfoldable pub split_slashes : List ℕ → List (List ℕ)
unfolding add_code
split_slashes [] = [] ∷ []
split_slashes (c ∷ cs) =
    let rest = split_slashes cs in if eqb c b'/' then [] ∷ rest else add_code c rest

-- `"/".join(parts)`
unfoldable pub join_slashes : List (List ℕ) → List ℕ
join_slashes [] = []
join_slashes (part ∷ []) = part
join_slashes (part ∷ next ∷ parts) = part ++ (b'/' ∷ join_slashes (next ∷ parts))

-- `part in ("", ".", "..")`
unfoldable pub is_relative : List ℕ → Bool
is_relative part =
    equal_codes part [] || equal_codes part (b'.' ∷ []) || equal_codes part (b'.' ∷ b'.' ∷ [])

unfoldable pub any_part : (List ℕ → Bool) → List (List ℕ) → Bool
any_part p [] = false
any_part p (part ∷ parts) = p part || any_part p parts

abbrev pub two_stars : List ℕ
two_stars = b'*' ∷ b'*' ∷ []

unfoldable pub segments : Bool → List ℕ → Option (List (List ℕ))
unfolding is_empty split_slashes any_part is_relative
segments is_directory raw =
    if is_empty raw
    then none
    else if any_part is_relative (split_slashes raw)
    then none
    else if is_directory
    then some (split_slashes raw ++ (two_stars ∷ []))
    else some (split_slashes raw)

-- `raw.endswith("/")`
unfoldable pub ends_with_slash : List ℕ → Bool
ends_with_slash [] = false
ends_with_slash (c ∷ []) = eqb c b'/'
ends_with_slash (c ∷ d ∷ cs) = ends_with_slash (d ∷ cs)

unfoldable pub is_rejected : List ℕ → Bool
unfolding is_empty starts_with has_code
is_rejected raw =
    is_empty raw || starts_with (b'/' ∷ []) raw || has_code b'\\' raw || has_code 0 raw

-- Once the leading `./` are gone.
unfoldable pub raw_parts : (directory_scope : Bool) (raw : List ℕ) → Option (List (List ℕ))
unfolding segments ends_with_slash strip_right
raw_parts directory_scope raw =
    segments (directory_scope || ends_with_slash raw) (strip_right (eqb b'/') raw)

unfoldable pub stripped_parts : (directory_scope : Bool) (raw : List ℕ) → Option (List (List ℕ))
unfolding is_rejected raw_parts drop_dots
stripped_parts directory_scope raw =
    if is_rejected raw then none else raw_parts directory_scope (drop_dots raw)

unfoldable pub declared_path_parts :
    (value : List ℕ) (directory_scope : Bool) → Option (List (List ℕ))
unfolding strip_both stripped_parts is_space
declared_path_parts value directory_scope =
    stripped_parts directory_scope (strip_both (eqb b'`') (strip_both is_space value))

-- `_RECURSIVE_SCOPE_SEGMENTS`
unfoldable pub is_recursive : List ℕ → Bool
is_recursive part = equal_codes part two_stars || equal_codes part (b'.' ∷ b'.' ∷ b'.' ∷ [])

unfoldable pub is_glob : List ℕ → Bool
unfolding has_code
is_glob part = has_code b'*' part || has_code b'?' part || has_code b'[' part

unfoldable pub is_concrete_scope : List (List ℕ) → Bool
unfolding any_part is_recursive is_glob
is_concrete_scope parts = not (any_part (λ part. is_recursive part || is_glob part) parts)

unfoldable pub add_part : List ℕ → Option (List (List ℕ)) → Option (List (List ℕ))
add_part part none = none
add_part part (some ps) = some (part ∷ ps)

-- The parts without the last, if the last is a recursive segment.
unfoldable pub before_recursive : List (List ℕ) → Option (List (List ℕ))
unfolding is_recursive add_part
before_recursive [] = none
before_recursive (part ∷ []) = if is_recursive part then some [] else none
before_recursive (part ∷ next ∷ parts) = add_part part (before_recursive (next ∷ parts))

unfoldable pub if_concrete : Option (List (List ℕ)) → Option (List (List ℕ))
unfolding is_concrete_scope
if_concrete none = none
if_concrete (some prefix) = if is_concrete_scope prefix then some prefix else none

unfoldable pub recursive_prefix : List (List ℕ) → Option (List (List ℕ))
unfolding before_recursive if_concrete
recursive_prefix parts = if_concrete (before_recursive parts)
