-- ===== src/Base/Lists.antt =====
-- Lists over the native numbers, and lists of texts: membership tests and counts.
use Prim.Native.Nat.{ℕ, zero, suc, ◌+◌, ◌-◌, ◌≤◌, ◌<◌, min}
use Prim.Native.String.{String}
use mathlib.Core.Path.{◌≡◌, refl, ap}
use mathlib.Core.Logic.{inl, inr}
use mathlib.Core.Bool.{Bool, true, false, ◌||◌}
use mathlib.Core.List.{List, [], ◌∷◌, ◌++◌}
use native.Mathlib.Omega.{arith}
use text.Mathlib.Text.{◌==◌}
use text.Mathlib.TextEquality.{eq_iff}
use cairness.Base.Tests.{if◌then◌else◌, Bool-cases}

module _ {ℓ} {A : Type ℓ} where
  abbrev pub length : List A → ℕ
  length [] = 0
  length (x ∷ xs) = suc (length xs)

  pub length-append : (xs ys : List A) → length (xs ++ ys) ≡ length xs + length ys
  length-append [] ys = omega arith
  length-append (x ∷ xs) ys = omega (arith, length-append xs ys)

  abbrev pub concat : List (List A) → List A
  concat [] = []
  concat (x ∷ xs) = x ++ concat xs

  abbrev pub take : ℕ → List A → List A
  take zero xs = []
  take (suc n) [] = []
  take (suc n) (x ∷ xs) = x ∷ take n xs

  abbrev pub drop : ℕ → List A → List A
  drop zero xs = xs
  drop (suc n) [] = []
  drop (suc n) (x ∷ xs) = drop n xs

  abbrev pub filter_b : (A → Bool) → List A → List A
  filter_b p [] = []
  filter_b p (x ∷ xs) = let rest = filter_b p xs in if p x then x ∷ rest else rest

  pub take-append-drop : (n : ℕ) (xs : List A) → take n xs ++ drop n xs ≡ xs
  take-append-drop zero xs = refl
  take-append-drop (suc n) [] = refl
  take-append-drop (suc n) (x ∷ xs) = rw (take-append-drop n xs)

  pub length-take : (n : ℕ) (xs : List A) → length (take n xs) ≡ min n (length xs)
  length-take zero xs = omega arith
  length-take (suc n) [] = omega arith
  length-take (suc n) (x ∷ xs) = omega (arith, length-take n xs)

  pub length-drop : (n : ℕ) (xs : List A) → length (drop n xs) ≡ length xs - n
  length-drop zero xs = omega arith
  length-drop (suc n) [] = omega arith
  length-drop (suc n) (x ∷ xs) = omega (arith, length-drop n xs)

  abbrev pub All {κ} : (A → Type κ) → List A → Type κ
  All P [] = Unit
  All P (x ∷ xs) = P x × All P xs

-- `x in xs`
abbrev pub mem : String → List String → Bool
mem x [] = false
mem x (y ∷ ys) = x == y || mem x ys

-- `Counter(xs)[x]`
abbrev pub count : String → List String → ℕ
count x [] = 0
count x (y ∷ ys) = (if x == y then 1 else 0) + count x ys

pub count-append : (x : String) (xs ys : List String) → count x (xs ++ ys) ≡ count x xs + count x ys
count-append x [] ys = omega arith
count-append x (y ∷ xs) ys = omega (arith, count-append x xs ys)

pub mem-append : (x : String) (xs ys : List String) → mem x (xs ++ ys) ≡ (mem x xs || mem x ys)
mem-append x [] ys = refl
mem-append x (y ∷ xs) ys = ground (arith, mem-append x xs ys)

pub mem→count : (x : String) (xs : List String) → mem x xs ≡ true → 0 < count x xs
mem→count x (y ∷ xs) h = ground (arith, mem→count x xs)
mem→count x [] h = ground arith

pub not_mem→count : (x : String) (xs : List String) → mem x xs ≡ false → count x xs ≡ 0
not_mem→count x [] h = refl
not_mem→count x (y ∷ xs) h = ground (arith, not_mem→count x xs)

pub count→mem : (x : String) (xs : List String) → 0 < count x xs → mem x xs ≡ true
count→mem x xs h = elim (Bool-cases (mem x xs)) [
  | inl m ↦ m
  | inr m ↦ absurd (omega (arith, not_mem→count x xs m))
]

pub count-take-drop :
    (x : String) (n : ℕ) (xs : List String) → count x (take n xs) + count x (drop n xs) ≡ count x xs
count-take-drop x zero xs = omega arith
count-take-drop x (suc n) [] = omega arith
count-take-drop x (suc n) (y ∷ xs) = omega (arith, count-take-drop x n xs)

-- A filter keeps the copies of what passes and drops the rest.
pub count-filter_b :
    (p : String → Bool) (x : String) (xs : List String)
    → count x (filter_b p xs) ≡ (if p x then count x xs else 0)
count-filter_b p x [] = ground arith
count-filter_b p x (y ∷ xs) = elim (Bool-cases (x == y)) [
  | inl e ↦ ground (arith, count-filter_b p x xs, ap p ((eq_iff x y).0 e))
  | inr e ↦ ground (arith, count-filter_b p x xs)
]

-- `s.discard(x)`, on a list that stands for a set
unfoldable pub discard : String → List String → List String
discard x = filter_b (λ y. if x == y then false else true)

pub count-discard :
    (x y : String) (xs : List String) → count y (discard x xs) ≡ (if x == y then 0 else count y xs)
unfolding discard
count-discard x y xs = ground (arith, count-filter_b (λ z. if x == z then false else true) y xs)

length-filter_b-le : (p : String → Bool) (xs : List String) → length (filter_b p xs) ≤ length xs
length-filter_b-le p [] = omega arith
length-filter_b-le p (x ∷ xs) = ground (arith, length-filter_b-le p xs)

pub length-discard-le : (x : String) (xs : List String) → length (discard x xs) ≤ length xs
unfolding discard
length-discard-le x xs = length-filter_b-le (λ y. if x == y then false else true) xs

pub length-discard-lt :
    (x : String) (xs : List String) → 0 < count x xs → length (discard x xs) < length xs
unfolding discard
length-discard-lt x [] h = absurd (omega arith)
length-discard-lt x (y ∷ ys) h =
    ground (arith, length-discard-lt x ys, length-discard-le x ys, eq_iff x y)

pub mem-filter_b :
    (p : String → Bool) (x : String) (xs : List String)
    → mem x (filter_b p xs) ≡ (if p x then mem x xs else false)
mem-filter_b p x [] = ground arith
mem-filter_b p x (y ∷ xs) = elim (Bool-cases (x == y)) [
  | inl e ↦ ground (arith, mem-filter_b p x xs, ap p ((eq_iff x y).0 e))
  | inr e ↦ ground (arith, mem-filter_b p x xs)
]

-- A set made of a list: each text once.
unfoldable pub distinct : List String → List String
distinct [] = []
distinct (x ∷ xs) = let rest = distinct xs in if mem x rest then rest else x ∷ rest

pub mem-distinct : (x : String) (xs : List String) → mem x (distinct xs) ≡ mem x xs
unfolding distinct
mem-distinct x [] = refl
mem-distinct x (y ∷ xs) = elim (Bool-cases (x == y)) [
  | inl e ↦ ground (arith, e, mem-distinct x xs, ap (λ z. mem z (distinct xs)) ((eq_iff x y).0 e))
  | inr e ↦ ground (arith, e, mem-distinct x xs)
]
