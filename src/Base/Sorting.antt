-- ===== src/Base/Sorting.antt =====
-- `sorted` on texts: Python orders texts by code points.
use Prim.Native.Nat.{Ordering}
use Prim.Native.String.{String, compare}
use mathlib.Core.Path.{◌≡◌, refl}
use mathlib.Core.List.{List, [], ◌∷◌}
use mathlib.Core.Bool.{Bool, true, false}
use native.Mathlib.Omega.{arith}
use cairness.Base.Tests.{if◌then◌else◌}
use cairness.Base.Lists.{count, mem}

abbrev text_le : String → String → Bool
text_le s t = elim (compare s t) [ Ordering.gt ↦ false | _ ↦ true ]

insert : String → List String → List String
insert x [] = x ∷ []
insert x (y ∷ ys) = if text_le x y then x ∷ y ∷ ys else y ∷ insert x ys

unfoldable pub sorted : List String → List String
unfolding insert
sorted [] = []
sorted (x ∷ xs) = insert x (sorted xs)

count-insert : (a x : String) (ys : List String) → count a (insert x ys) ≡ count a (x ∷ ys)
unfolding insert
count-insert a x [] = refl
count-insert a x (y ∷ ys) = ground (arith, count-insert a x ys)

-- Sorting keeps every item as often as it was there.
pub count-sorted : (a : String) (xs : List String) → count a (sorted xs) ≡ count a xs
unfolding sorted
count-sorted a [] = refl
count-sorted a (x ∷ xs) = omega (arith, count-insert a x (sorted xs), count-sorted a xs)

mem-insert : (a x : String) (ys : List String) → mem a (insert x ys) ≡ mem a (x ∷ ys)
unfolding insert
mem-insert a x [] = refl
mem-insert a x (y ∷ ys) = ground (arith, mem-insert a x ys)

pub mem-sorted : (a : String) (xs : List String) → mem a (sorted xs) ≡ mem a xs
unfolding sorted
mem-sorted a [] = refl
mem-sorted a (x ∷ xs) = ground (arith, mem-insert a x (sorted xs), mem-sorted a xs)
