-- ===== src/WavePlan/Overlap/Disjoint.antt =====
-- What it means that `_detect_layer_overlap` finds nothing.
use cairness.Base.{
  ℕ, ◌+◌, ◌≤◌, String, ◌≡◌, ◌≢◌, refl, sym, ap, ◌∙◌, true, none, some, List, [], ◌∷◌, ◌++◌, arith,
  ◌==◌, eq_iff, mem, count, Bool-cases, Option-cases, inl, inr, subst, if◌then◌else◌, All, take,
  drop, take-append-drop, filter_b,
}
use cairness.Base.Dict
use cairness.Base.Dict.{Dict, get-put}
use cairness.WavePlan.Task.{TaskNode}
use cairness.WavePlan.Overlap.{
  is_safe, files_of, Claim, clash, claimed, and_then, claim_file, claim_files, claim_task,
  claim_layer, detect_layer_overlap,
}

module _ (by_id : Dict TaskNode) where
  -- How often the parallel-safe tasks of `ids` write the file `f`.
  unfoldable pub writers : String → List String → ℕ
  writers f [] = 0
  writers f (tid ∷ ids) =
      (if is_safe by_id tid then count f (files_of by_id tid) else 0) + writers f ids

  abbrev owned : Dict String → String → ℕ
  owned seen f = elim (Dict.get seen f) [ none ↦ 0 | some _ ↦ 1 ]

  -- `seen` names parallel-safe tasks only.
  abbrev SafeOwners : Dict String → Type 0
  SafeOwners seen = (f o : String) → Dict.get seen f ≡ some o → is_safe by_id o ≡ true

  -- The files counted by `n` were free, and are taken now.
  abbrev Takes : (String → ℕ) → Dict String → Claim → Type 0
  Takes n seen (clash o) = Unit
  Takes n seen (claimed seen') =
      SafeOwners seen' × ((f : String) → owned seen f + n f ≡ owned seen' f)

  and_then-Takes :
      (n m : String → ℕ) (seen : Dict String) (c : Claim) (k : Dict String → Claim)
      → Takes n seen c
      → ((seen' : Dict String) → SafeOwners seen' → Takes m seen' (k seen'))
      → Takes (λ f. n f + m f) seen (and_then c k)
  and_then-Takes n m seen (clash o) k t h = tt
  and_then-Takes n m seen (claimed seen') k t h = later (k seen') (h seen' t.0)
    where
      later : (c : Claim) → Takes m seen' c → Takes (λ f. n f + m f) seen c
      later (clash o) u = tt
      later (claimed seen'') u = (u.0, λ f. omega (arith, t.1 f, u.1 f))

  claim_file-Takes :
      (tid g : String) (seen : Dict String)
      → is_safe by_id tid ≡ true
      → SafeOwners seen
      → Takes (λ f. if f == g then 1 else 0) seen (claim_file by_id tid g seen)
  unfolding claim_file
  claim_file-Takes tid g seen safe own = elim (Option-cases (Dict.get seen g)) [
    | inl e ↦
        rw (e, claim_file)
          (
            (λ f o h. ground (arith, get-put seen g tid f, own f o, eq_iff g f)),
            (λ f. ground (arith, get-put seen g tid f, eq_iff g f, eq_iff f g)),
          )
    | inr (o, e) ↦ rw (e, claim_file) (rw (own g o e) tt)
  ]

  claim_files-Takes :
      (tid : String) (fs : List String) (seen : Dict String)
      → is_safe by_id tid ≡ true
      → SafeOwners seen
      → Takes (λ f. count f fs) seen (claim_files by_id tid fs seen)
  unfolding claim_files
  claim_files-Takes tid [] seen safe own = (own, λ f. omega arith)
  claim_files-Takes tid (g ∷ fs) seen safe own =
      and_then-Takes (λ f. if f == g then 1 else 0) (λ f. count f fs) seen
        (claim_file by_id tid g seen) (claim_files by_id tid fs)
        (claim_file-Takes tid g seen safe own)
        (λ seen' own'. claim_files-Takes tid fs seen' safe own')

  abbrev pub written : String → String → ℕ
  written tid f = if is_safe by_id tid then count f (files_of by_id tid) else 0

  Takes-ext :
      (n m : String → ℕ) (seen : Dict String) (c : Claim)
      → ((f : String) → n f ≡ m f)
      → Takes n seen c
      → Takes m seen c
  Takes-ext n m seen (clash o) h t = tt
  Takes-ext n m seen (claimed seen') h t = (t.0, λ f. omega (arith, h f, t.1 f))

  claim_task-Takes :
      (tid : String) (seen : Dict String)
      → SafeOwners seen
      → Takes (written tid) seen (claim_task by_id tid seen)
  unfolding claim_task
  claim_task-Takes tid seen own = elim (Bool-cases (is_safe by_id tid)) [
    | inl e ↦
        rw (e, claim_task)
          (Takes-ext (λ f. count f (files_of by_id tid)) (written tid) seen
            (claim_files by_id tid (files_of by_id tid) seen) (λ f. rw e)
            (claim_files-Takes tid (files_of by_id tid) seen e own))
    | inr e ↦ rw (e, claim_task) (own, λ f. rw e (omega arith))
  ]

  claim_layer-Takes :
      (layer : List String) (seen : Dict String)
      → SafeOwners seen
      → Takes (λ f. writers f layer) seen (claim_layer by_id layer seen)
  unfolding claim_layer writers
  claim_layer-Takes [] seen own = (own, λ f. omega arith)
  claim_layer-Takes (tid ∷ layer) seen own =
      and_then-Takes (written tid) (λ f. writers f layer) seen (claim_task by_id tid seen)
        (claim_layer by_id layer) (claim_task-Takes tid seen own)
        (λ seen' own'. claim_layer-Takes layer seen' own')

  -- No file of the layer is written twice by tasks that may run side by side.
  abbrev pub IsDisjointLayer : List String → Type 0
  IsDisjointLayer layer = (f : String) → writers f layer ≤ 1

  claimed-IsDisjointLayer :
      (layer : List String) (seen : Dict String)
      → claim_layer by_id layer [] ≡ claimed seen
      → IsDisjointLayer layer
  unfolding Dict.get
  claimed-IsDisjointLayer layer seen e f =
      let t =
        subst (Takes (λ g. writers g layer) []) e (claim_layer-Takes layer [] (λ g o h. cc)) in
      ground (arith, t.1 f)

  pub no_overlap-IsDisjointLayer :
      (layers : List (List String))
      → detect_layer_overlap by_id layers ≡ none
      → All IsDisjointLayer layers
  unfolding detect_layer_overlap
  no_overlap-IsDisjointLayer [] h = tt
  no_overlap-IsDisjointLayer (layer ∷ layers) h =
      split (claim_layer by_id layer []) refl (no_overlap-IsDisjointLayer layers)
    where
      split :
          (c : Claim)
          → claim_layer by_id layer [] ≡ c
          → (detect_layer_overlap by_id layers ≡ none → All IsDisjointLayer layers)
          → All IsDisjointLayer (layer ∷ layers)
      split (clash o) e rest = absurd (ground (arith, h, e))
      split (claimed seen) e rest =
          (claimed-IsDisjointLayer layer seen e, rest (ground (arith, h, e)))

  -- Writers of a list with all tasks parallel-safe.
  writers-append :
      (f : String) (xs ys : List String) → writers f (xs ++ ys) ≡ writers f xs + writers f ys
  unfolding writers
  writers-append f [] ys = omega arith
  writers-append f (x ∷ xs) ys = omega (arith, writers-append f xs ys)

  pub writers-filter_safe :
      (f : String) (xs : List String) → writers f (filter_b (is_safe by_id) xs) ≡ writers f xs
  unfolding writers
  writers-filter_safe f [] = refl
  writers-filter_safe f (x ∷ xs) = ground (arith, writers-filter_safe f xs)

  pub writers-take-drop :
      (f : String) (n : ℕ) (xs : List String)
      → writers f (take n xs) + writers f (drop n xs) ≡ writers f xs
  writers-take-drop f n xs =
      sym (writers-append f (take n xs) (drop n xs)) ∙ ap (writers f) (take-append-drop n xs)

  writers-one : (a f : String) (xs : List String) → mem a xs ≡ true → written a f ≤ writers f xs
  unfolding writers
  writers-one a f [] h = absurd (cc)
  writers-one a f (x ∷ xs) h = elim (Bool-cases (a == x)) [
    | inl e ↦ subst (λ z. written z f ≤ writers f (x ∷ xs)) (sym ((eq_iff a x).0 e)) (omega arith)
    | inr e ↦ omega (arith, writers-one a f xs (ground arith))
  ]

  -- Two tasks of the list that write one file are counted twice.
  pub writers_two :
      (a b f : String) (xs : List String)
      → a ≢ b
      → mem a xs ≡ true
      → mem b xs ≡ true
      → written a f + written b f ≤ writers f xs
  unfolding writers
  writers_two a b f [] ne ha hb = absurd (cc)
  writers_two a b f (x ∷ xs) ne ha hb = elim (Bool-cases (a == x)) [
    | inl e ↦
        let other : mem b xs ≡ true = ground (arith, ne, eq_iff a x, eq_iff b x) in
        let first : written a f ≡ written x f = ap (λ z. written z f) ((eq_iff a x).0 e) in
        omega (arith, first, writers-one b f xs other)
    | inr e ↦ elim (Bool-cases (b == x)) [
      | inl e' ↦
          let first : written b f ≡ written x f = ap (λ z. written z f) ((eq_iff b x).0 e') in
          omega (arith, first, writers-one a f xs (ground arith))
      | inr e' ↦ omega (arith, writers_two a b f xs ne (ground arith) (ground arith))
    ]
  ]
