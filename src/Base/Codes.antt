-- ===== src/Base/Codes.antt =====
-- Texts as lists of code points.
use Prim.Native.Nat.{ℕ}
use Prim.Native.Char.{code}
use Prim.Native.String.{String, ◌++◌}
use mathlib.Core.Path.{◌≡◌, refl}
use mathlib.Core.Bool.{Bool, true, false, ◌&&◌, ◌||◌}
use mathlib.Core.List.{List, [], ◌∷◌}
use native.Mathlib.Omega.{arith}
use cairness.Base.Tests.{eqb, if◌then◌else◌}

-- `String` has its own `[]` and `∷`.
unfoldable pub codes : String → List ℕ
codes String.[] = []
codes (String.◌∷◌ c s) = code c ∷ codes s

-- One text after the other; `++` is kept for lists.
abbrev pub join_texts : String → String → String
join_texts s t = s ++ t

unfoldable pub equal_codes : List ℕ → List ℕ → Bool
equal_codes [] [] = true
equal_codes (c ∷ cs) (d ∷ ds) = eqb c d && equal_codes cs ds
equal_codes _ _ = false

pub equal_codes_refl : (cs : List ℕ) → equal_codes cs cs ≡ true
unfolding equal_codes
equal_codes_refl [] = refl
equal_codes_refl (c ∷ cs) = ground (arith, equal_codes_refl cs)

pub equal_codes→≡ : (cs ds : List ℕ) → equal_codes cs ds ≡ true → cs ≡ ds
unfolding equal_codes
equal_codes→≡ [] [] h = refl
equal_codes→≡ [] (d ∷ ds) h = absurd (cc)
equal_codes→≡ (c ∷ cs) [] h = absurd (cc)
equal_codes→≡ (c ∷ cs) (d ∷ ds) h =
    let head : c ≡ d = ground arith in
    let tail = equal_codes→≡ cs ds (ground arith) in cc (head, tail)

unfoldable pub has_code : ℕ → List ℕ → Bool
has_code c [] = false
has_code c (d ∷ ds) = eqb c d || has_code c ds

-- `cs.startswith(ps)`
unfoldable pub starts_with : List ℕ → List ℕ → Bool
starts_with [] cs = true
starts_with (p ∷ ps) [] = false
starts_with (p ∷ ps) (c ∷ cs) = eqb p c && starts_with ps cs

-- What follows the last `/` of a path.
unfoldable pub base_name : String → String
base_name String.[] = ""
base_name (String.◌∷◌ c s) =
    let rest = base_name s in
    if has_code b'/' (codes s) then rest else if eqb (code c) b'/' then s else String.◌∷◌ c s
