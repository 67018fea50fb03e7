-- ===== src/Deps/Conflicts/Exact.antt =====
-- Which pairs of changes `detect_file_conflicts` (deps.py) reports.
use cairness.Base.{
  String, ◌≡◌, ◌⊎◌, refl, ap, sym, subst, Bool, true, false, ◌||◌, Option, none, some, List, [],
  ◌∷◌, ◌++◌, arith, ◌∙◌, Option-cases, List-cases, mem, ◌↔◌, inl, inr,
}
use cairness.Base.Dict.{Dict}
use cairness.Scopes.Match.{scopes_overlap, overlapping_scope_label}
use cairness.Deps.Change.{ChangeInfo}
use cairness.Deps.Conflicts.{
  warning, Conflict, unfinished, severity_of, conflict_of, add_label, labels_of, overlap,
  compare_changes, before_rest, conflicts_with, all_conflicts, detect_file_conflicts,
}

module _ {A : Type 0} where
  abbrev pub In : A → List A → Type 0
  In a [] = ⊥
  In a (x ∷ xs) = (a ≡ x) ⊎ In a xs

  In-append-left : (a : A) (xs ys : List A) → In a xs → In a (xs ++ ys)
  In-append-left a [] ys i = absurd i
  In-append-left a (x ∷ xs) ys (inl e) = inl e
  In-append-left a (x ∷ xs) ys (inr i) = inr (In-append-left a xs ys i)

  In-append-right : (a : A) (xs ys : List A) → In a ys → In a (xs ++ ys)
  In-append-right a [] ys i = i
  In-append-right a (x ∷ xs) ys i = inr (In-append-right a xs ys i)

  In-append : (a : A) (xs ys : List A) → In a (xs ++ ys) → In a xs ⊎ In a ys
  In-append a [] ys i = inr i
  In-append a (x ∷ xs) ys (inl e) = inl (inl e)
  In-append a (x ∷ xs) ys (inr i) = elim (In-append a xs ys i) [
    | inl h ↦ inl (inr h)
    | inr h ↦ inr h
  ]

-- `a` stands before `b` in the list.
abbrev pub Before : ChangeInfo → ChangeInfo → List ChangeInfo → Type 0
Before a b [] = ⊥
Before a b (x ∷ xs) = ((a ≡ x) × In b xs) ⊎ Before a b xs

abbrev is_filled : List String → Bool
is_filled [] = false
is_filled (x ∷ xs) = true

-- Some file of the one overlaps some file of the other.
abbrev pub meets : String → List String → Bool
meets f [] = false
meets f (g ∷ gs) = scopes_overlap f g || meets f gs

abbrev pub clashes : List String → List String → Bool
clashes [] gs = false
clashes (f ∷ fs) gs = meets f gs || clashes fs gs

filled-add_label : (x : String) (xs : List String) → is_filled (add_label x xs) ≡ true
unfolding add_label
filled-add_label x [] = ground arith
filled-add_label x (y ∷ ys) = ground arith

filled-labels_of :
    (f : String) (gs so_far : List String)
    → is_filled (labels_of f gs so_far) ≡ (is_filled so_far || meets f gs)
unfolding labels_of
filled-labels_of f [] so_far = ground arith
filled-labels_of f (g ∷ gs) so_far =
    let rest = labels_of f gs so_far in
    ground
      (arith, filled-labels_of f gs so_far, filled-add_label (overlapping_scope_label f g) rest)

filled-overlap : (fs gs : List String) → is_filled (overlap fs gs) ≡ clashes fs gs
unfolding overlap
filled-overlap [] gs = refl
filled-overlap (f ∷ fs) gs =
    ground (arith, filled-labels_of f gs (overlap fs gs), filled-overlap fs gs)

-- One of the changes depends on the other.
abbrev pub DependsEither : ChangeInfo → ChangeInfo → Type 0
DependsEither a b = (mem b.change_id a.depends_on ≡ true) ⊎ (mem a.change_id b.depends_on ≡ true)

weighed-severity_of :
    (a b : ChangeInfo)
    → (severity_of a b ≡ warning)
      ↔ ((a.parallel_safe ≡ true) × (b.parallel_safe ≡ true) × DependsEither a b)
unfolding severity_of
weighed-severity_of a b = ((λ h. ground (arith, h)), (λ h. ground (arith, h)))

-- The conflict names both changes, and is a warning only between parallel-safe changes of which
-- one depends on the other.
pub record IsConflict (a b : ChangeInfo) (k : Conflict) : Type 0 where
  pub overlaps : clashes a.files b.files ≡ true
  pub first : k.change_a ≡ a.change_id
  pub second : k.change_b ≡ b.change_id
  pub weighed :
      (k.severity ≡ warning)
      ↔ ((a.parallel_safe ≡ true) × (b.parallel_safe ≡ true) × DependsEither a b)

compared : (a b : ChangeInfo) (k : Conflict) → compare_changes a b ≡ some k → IsConflict a b k
unfolding compare_changes conflict_of
compared a b k h = go (overlap a.files b.files) refl
  where
    go : (l : List String) → overlap a.files b.files ≡ l → IsConflict a b k
    go [] e = absurd (ground (arith, h, e))
    go (x ∷ xs) e = record {
      overlaps = sym (filled-overlap a.files b.files) ∙ ap is_filled e;
      first = ground (arith, h, e);
      second = ground (arith, h, e);
      weighed =
          subst
            (λ s.
              (s ≡ warning)
              ↔ ((a.parallel_safe ≡ true) × (b.parallel_safe ≡ true) × DependsEither a b))
            {x = severity_of a b} {y = k.severity} (ground (arith, h, e)) (weighed-severity_of a b);
    }

compares :
    (a b : ChangeInfo)
    → clashes a.files b.files ≡ true
    → (k : Conflict) × (compare_changes a b ≡ some k)
unfolding compare_changes conflict_of
compares a b c = elim (Option-cases (compare_changes a b)) [
  | inr (k, e) ↦ (k, e)
  | inl none_there ↦ elim (List-cases (overlap a.files b.files)) [
    | inl e ↦ absurd (ground (arith, c, filled-overlap a.files b.files, ap is_filled e))
    | inr (x, xs, e) ↦ absurd (ground (arith, none_there, e))
  ]
]

In-rest :
    (o : Option Conflict) (k : Conflict) (rest : List Conflict)
    → In k rest
    → In k (before_rest o rest)
In-rest none k rest i = i
In-rest (some k') k rest i = inr i

In-head :
    (o : Option Conflict) (k : Conflict) (rest : List Conflict)
    → o ≡ some k
    → In k (before_rest o rest)
In-head none k rest e = absurd (cc)
In-head (some k') k rest e = inl (ground (arith, e))

reported_with :
    (k : Conflict) (a : ChangeInfo) (bs : List ChangeInfo)
    → In k (conflicts_with a bs)
    → (b : ChangeInfo) × In b bs × IsConflict a b k
unfolding conflicts_with
reported_with k a [] i = absurd i
reported_with k a (b ∷ bs) i = go (compare_changes a b) refl i (reported_with k a bs)
  where
    go :
        (o : Option Conflict)
        → compare_changes a b ≡ o
        → In k (before_rest o (conflicts_with a bs))
        → (In k (conflicts_with a bs) → (c : ChangeInfo) × In c bs × IsConflict a c k)
        → (c : ChangeInfo) × In c (b ∷ bs) × IsConflict a c k
    go none e j rest = let (c, there, q) = rest j in (c, inr there, q)
    go (some k') e (inl same) rest = (b, inl refl, compared a b k (e ∙ ap some (sym same)))
    go (some k') e (inr j) rest = let (c, there, q) = rest j in (c, inr there, q)

reports_with :
    (a b : ChangeInfo) (bs : List ChangeInfo)
    → In b bs
    → clashes a.files b.files ≡ true
    → (k : Conflict) × In k (conflicts_with a bs) × IsConflict a b k
unfolding conflicts_with
reports_with a b [] i c = absurd i
reports_with a b (x ∷ bs) (inl same) c =
    let (k, e) = compares a b c in
    let e' = ap (λ y. compare_changes a y) (sym same) ∙ e in
    (k, In-head (compare_changes a x) k (conflicts_with a bs) e', compared a b k e)
reports_with a b (x ∷ bs) (inr i) c =
    let (k, there, q) = reports_with a b bs i c in
    (k, In-rest (compare_changes a x) k (conflicts_with a bs) there, q)

reported_all :
    (k : Conflict) (cs : List ChangeInfo)
    → In k (all_conflicts cs)
    → (a : ChangeInfo) × (b : ChangeInfo) × Before a b cs × IsConflict a b k
unfolding all_conflicts
reported_all k [] i = absurd i
reported_all k (a ∷ cs) i = elim (In-append k (conflicts_with a cs) (all_conflicts cs) i) [
  | inl here ↦ let (b, there, q) = reported_with k a cs here in (a, b, inl (refl, there), q)
  | inr later ↦ let (c, d, there, q) = reported_all k cs later in (c, d, inr there, q)
]

reports_all :
    (a b : ChangeInfo) (cs : List ChangeInfo)
    → Before a b cs
    → clashes a.files b.files ≡ true
    → (k : Conflict) × In k (all_conflicts cs) × IsConflict a b k
unfolding all_conflicts
reports_all a b [] i c = absurd i
reports_all a b (x ∷ cs) (inl (same, there)) c =
    let (k, here, q) = reports_with a b cs there c in
    let here' = subst (λ y. In k (conflicts_with y cs)) same here in
    (k, In-append-left k (conflicts_with x cs) (all_conflicts cs) here', q)
reports_all a b (x ∷ cs) (inr i) c =
    let (k, later, q) = reports_all a b cs i c in
    (k, In-append-right k (conflicts_with x cs) (all_conflicts cs) later, q)

-- With no target: each reported conflict is between two unfinished changes, the first of which
-- stands before the second, some of whose declared files overlap, and is a warning exactly if both
-- are parallel-safe and one depends on the other; and each such pair is reported.
pub detect_file_conflicts-exact :
    (changes : Dict ChangeInfo)
    → ((k : Conflict)
        → In k (detect_file_conflicts changes none)
        → (a : ChangeInfo) × (b : ChangeInfo) × Before a b (unfinished changes) × IsConflict a b k)
      × ((a b : ChangeInfo)
          → Before a b (unfinished changes)
          → clashes a.files b.files ≡ true
          → (k : Conflict) × In k (detect_file_conflicts changes none) × IsConflict a b k)
unfolding detect_file_conflicts
detect_file_conflicts-exact changes = (
  (λ k i. reported_all k (unfinished changes) i),
  (λ a b there c. reports_all a b (unfinished changes) there c),
)
