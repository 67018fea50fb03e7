-- ===== src/TestPolicy/Stem.antt =====
-- The names that test_policy.py compares when no rule routes a path: `Path(...).stem`, on the code
-- points of a relative path.
use cairness.Base.{
  ℕ, String, Bool, false, ◌&&◌, ◌||◌, List, [], ◌∷◌, ◌++◌, map, if◌then◌else◌, eqb, codes, has_code,
  starts_with, equal_codes,
}

-- What follows the last `/`.
file_name : List ℕ → List ℕ
file_name [] = []
file_name (c ∷ cs) =
    let rest = file_name cs in if has_code b'/' cs then rest else if eqb c b'/' then cs else c ∷ cs

-- What stands before the last `.`; all of it, if there is none.
before_dot : List ℕ → List ℕ
before_dot [] = []
before_dot (c ∷ cs) =
    let rest = before_dot cs in
    if has_code b'.' cs then c ∷ rest else if eqb c b'.' then [] else c ∷ cs

ends_in_dot : List ℕ → Bool
ends_in_dot [] = false
ends_in_dot (c ∷ []) = eqb c b'.'
ends_in_dot (c ∷ d ∷ ds) = ends_in_dot (d ∷ ds)

-- A name that ends in `.`, or whose only `.` is its first character, is its own stem.
stem_of_name : List ℕ → List ℕ
unfolding before_dot ends_in_dot
stem_of_name name =
    if ends_in_dot name then name else elim (before_dot name) [ [] ↦ name | c ∷ cs ↦ c ∷ cs ]

unfoldable pub stem : String → List ℕ
unfolding file_name stem_of_name
stem path = stem_of_name (file_name (codes path))

-- `.replace("-", "_")`
underscored : List ℕ → List ℕ
underscored = map (λ c. if eqb c b'-' then b'_' else c)

-- Without a leading `cc_`.
without_cc : List ℕ → List ℕ
without_cc (a ∷ b ∷ c ∷ cs) = if eqb a b'c' && eqb b b'c' && eqb c b'_' then cs else a ∷ b ∷ c ∷ cs
without_cc cs = cs

-- The test's stem is `test_{candidate}`, or begins with `test_{candidate}_`.
names_candidate : List ℕ → List ℕ → Bool
names_candidate candidate test_stem =
    equal_codes test_stem (codes "test_" ++ candidate)
    || starts_with (codes "test_" ++ candidate ++ b'_' ∷ []) test_stem

-- Whether the test's name is that of the changed path.
unfoldable pub is_related : String → String → Bool
unfolding names_candidate underscored without_cc
is_related path test =
    let name = underscored (stem path) in
    names_candidate name (stem test) || names_candidate (without_cc name) (stem test)

-- `relative.startswith("cairn-core/docs/")`
unfoldable pub is_documentation : String → Bool
is_documentation path = starts_with (codes "cairn-core/docs/") (codes path)
