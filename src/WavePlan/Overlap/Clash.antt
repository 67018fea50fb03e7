-- ===== src/WavePlan/Overlap/Clash.antt =====
-- What an overlap is that `_detect_layer_overlap` (wave_plan.py) reports.
use cairness.Base.{
  ◌+◌, ◌≤◌, String, ◌≡◌, ◌≢◌, ◌⊎◌, refl, sym, ap, true, false, some, List, [], ◌∷◌, ◌∙◌, arith,
  ◌==◌, eq_iff, mem, count, concat, mem→count, count-append, Bool-cases, Option-cases, inl, inr,
  subst,
}
use cairness.Base.Dict
use cairness.Base.Dict.{Dict, get-put}
use cairness.WavePlan.Task.{TaskNode}
use cairness.WavePlan.Overlap.{
  Overlap, is_safe, files_of, Claim, clash, claimed, claim_file, claim_files, claim_task,
  claim_layer, detect_layer_overlap,
}

module _ (by_id : Dict TaskNode) where
  -- Two different parallel-safe tasks of the layer write the file.
  pub record IsClash (layer : List String) (o : Overlap) : Type 0 where
    pub different : o.owner ≢ o.claimant
    pub owner_here : mem o.owner layer ≡ true
    pub claimant_here : mem o.claimant layer ≡ true
    pub owner_safe : is_safe by_id o.owner ≡ true
    pub claimant_safe : is_safe by_id o.claimant ≡ true
    pub owner_writes : mem o.overlapping_file (files_of by_id o.owner) ≡ true
    pub claimant_writes : mem o.overlapping_file (files_of by_id o.claimant) ≡ true

  -- Of some layer.
  abbrev pub ClashIn : List (List String) → Overlap → Type 0
  ClashIn [] o = ⊥
  ClashIn (layer ∷ layers) o = IsClash layer o ⊎ ClashIn layers o

  -- `seen` names tasks of `done`, with files of theirs.
  abbrev Owned : List String → Dict String → Type 0
  Owned done seen =
      (f o : String)
      → Dict.get seen f ≡ some o
      → (mem o done ≡ true) × (mem f (files_of by_id o) ≡ true)

  -- Or the task at hand, with a file that is none of those left.
  abbrev Pending : List String → String → List String → Dict String → Type 0
  Pending done tid left seen =
      (f o : String)
      → Dict.get seen f ≡ some o
      → ((mem o done ≡ true) ⊎ ((o ≡ tid) × (count f left ≡ 0))) × (mem f (files_of by_id o) ≡ true)

  abbrev Found : List String → List String → Claim → Type 0
  Found layer done (clash o) = IsClash layer o
  Found layer done (claimed seen) = Owned done seen

  put-Pending :
      (done left : List String) (tid g : String) (seen : Dict String)
      → count g (g ∷ left) ≤ 1
      → mem g (files_of by_id tid) ≡ true
      → Pending done tid (g ∷ left) seen
      → Pending done tid left (Dict.put seen g tid)
  put-Pending done left tid g seen once here own f o h = elim (Bool-cases (g == f)) [
    | inl e ↦
        let same : tid ≡ o = ground (arith, h, e, get-put seen g tid f) in
        let file : g ≡ f = (eq_iff g f).0 e in
        (
          inr (sym same, subst (λ x. count x left ≡ 0) file (ground (arith, once, eq_iff g g))),
          subst (λ x. mem x (files_of by_id o) ≡ true) file
              (subst (λ x. mem g (files_of by_id x) ≡ true) same here),
        )
    | inr e ↦
        let (held, writes) = own f o (ground (arith, h, e, get-put seen g tid f)) in
        (elim held [ inl m ↦ inl m | inr (q, c) ↦ inr (q, ground (arith, c)) ], writes)
  ]

  module _ (layer done : List String) (tid : String) (safe : is_safe by_id tid ≡ true)
      (here : mem tid layer ≡ true) (fresh : mem tid done ≡ false)
      (within : (x : String) → mem x done ≡ true → mem x layer ≡ true) where
    owner-IsClash :
        (g o : String) (left : List String) (seen : Dict String)
        → is_safe by_id o ≡ true
        → mem g (files_of by_id tid) ≡ true
        → Pending done tid (g ∷ left) seen
        → Dict.get seen g ≡ some o
        → IsClash layer (record { owner = o; claimant = tid; overlapping_file = g })
    owner-IsClash g o left seen safe_o writes own there =
        let (held, writes_o) = own g o there in
        let before : mem o done ≡ true = elim held [
          | inl m ↦ m
          | inr (_, c) ↦ absurd (ground (arith, c, eq_iff g g))
        ] in
        record {
          different = λ e. absurd (ground (arith, before, fresh, ap (λ x. mem x done) e));
          owner_here = within o before;
          claimant_here = here;
          owner_safe = safe_o;
          claimant_safe = safe;
          owner_writes = writes_o;
          claimant_writes = writes;
        }

    claim_files-Found :
        (fs : List String) (seen : Dict String)
        → ((f : String) → count f fs ≤ 1)
        → ((f : String) → mem f fs ≡ true → mem f (files_of by_id tid) ≡ true)
        → Pending done tid fs seen
        → Found layer (tid ∷ done) (claim_files by_id tid fs seen)
    unfolding claim_files claim_file
    claim_files-Found [] seen once writes own = λ f o h.
        let (held, file) = own f o h in
        (
          elim held [ inl m ↦ ground (arith, m) | inr (q, _) ↦ ground (arith, (eq_iff o tid).1 q) ],
          file,
        )
    claim_files-Found (g ∷ fs) seen once writes own =
        let mine = writes g (ground (arith, eq_iff g g)) in
        let next =
          claim_files-Found fs (Dict.put seen g tid) (λ f. omega (arith, once f))
            (λ f m. writes f (ground (arith, m)))
            (put-Pending done fs tid g seen (once g) mine own) in
        elim (Option-cases (Dict.get seen g)) [
          | inl e ↦ rw (e, claim_file) next
          | inr (o, e) ↦ elim (Bool-cases (is_safe by_id o)) [
            | inl s ↦ rw (e, claim_file) (rw s (owner-IsClash g o fs seen s mine own e))
            | inr s ↦ rw (e, claim_file) (rw s next)
          ]
        ]

  module _ (sets : (x f : String) → count f (files_of by_id x) ≤ 1) where
    claim_task-Found :
        (layer done : List String) (tid : String) (seen : Dict String)
        → mem tid layer ≡ true
        → mem tid done ≡ false
        → ((x : String) → mem x done ≡ true → mem x layer ≡ true)
        → Owned done seen
        → Found layer (tid ∷ done) (claim_task by_id tid seen)
    unfolding claim_task
    claim_task-Found layer done tid seen here fresh within own =
        elim (Bool-cases (is_safe by_id tid)) [
          | inl e ↦
              rw (e, claim_task)
                (claim_files-Found layer done tid e here fresh within (files_of by_id tid) seen
                  (sets tid) (λ f m. m) (λ f o h. (inl (own f o h).0, (own f o h).1)))
          | inr e ↦ rw (e, claim_task) (λ f o h. (ground (arith, (own f o h).0), (own f o h).1))
        ]

    claim_layer-IsClash :
        (layer left done : List String) (seen : Dict String) (o : Overlap)
        → ((x : String) → mem x left ≡ true → mem x layer ≡ true)
        → ((x : String) → mem x done ≡ true → mem x layer ≡ true)
        → ((x : String) → count x left + count x done ≤ 1)
        → Owned done seen
        → claim_layer by_id left seen ≡ clash o
        → IsClash layer o
    unfolding claim_layer
    claim_layer-IsClash layer [] done seen o inside within once own h = absurd (cc)
    claim_layer-IsClash layer (tid ∷ left) done seen o inside within once own h =
        let here = inside tid (ground (arith, eq_iff tid tid)) in
        let fresh : mem tid done ≡ false = elim (Bool-cases (mem tid done)) [
          | inl m ↦ absurd (ground (arith, once tid, mem→count tid done m, eq_iff tid tid))
          | inr m ↦ m
        ] in
        go (claim_task by_id tid seen) refl
          (claim_task-Found layer done tid seen here fresh within own)
          (λ x m. elim (Bool-cases (x == tid)) [
            | inl e ↦ subst (λ y. mem y layer ≡ true) (sym ((eq_iff x tid).0 e)) here
            | inr e ↦ within x (ground (arith, m, e))
          ])
          (λ seen' found within' later.
            claim_layer-IsClash layer left (tid ∷ done) seen' o
              (λ x m. inside x (ground (arith, m))) within' (λ x. omega (arith, once x)) found
              later)
      where
        go :
            (c : Claim)
            → claim_task by_id tid seen ≡ c
            → Found layer (tid ∷ done) c
            → ((x : String) → mem x (tid ∷ done) ≡ true → mem x layer ≡ true)
            → ((seen' : Dict String)
                → Owned (tid ∷ done) seen'
                → ((x : String) → mem x (tid ∷ done) ≡ true → mem x layer ≡ true)
                → claim_layer by_id left seen' ≡ clash o
                → IsClash layer o)
            → IsClash layer o
        go (clash o') e found within' later = subst (IsClash layer) (ground (arith, h, e)) found
        go (claimed seen') e found within' later = later seen' found within' (ground (arith, h, e))

    -- A reported overlap is one, if the files of a task are different, as are the ids of the layers.
    pub detect_layer_overlap-ClashIn :
        (layers : List (List String)) (o : Overlap)
        → ((x : String) → count x (concat layers) ≤ 1)
        → detect_layer_overlap by_id layers ≡ some o
        → ClashIn layers o
    unfolding detect_layer_overlap Dict.get
    detect_layer_overlap-ClashIn [] o once h = absurd (cc)
    detect_layer_overlap-ClashIn (layer ∷ layers) o once h =
        split (claim_layer by_id layer []) refl (
          detect_layer_overlap-ClashIn layers o
            (λ x. omega (arith, once x, count-append x layer (concat layers))))
      where
        split :
            (c : Claim)
            → claim_layer by_id layer [] ≡ c
            → (detect_layer_overlap by_id layers ≡ some o → ClashIn layers o)
            → ClashIn (layer ∷ layers) o
        split (clash o') e later = inl (
            claim_layer-IsClash layer layer [] [] o (λ x m. m) (λ x m. absurd (cc))
              (λ x. omega (arith, once x, count-append x layer (concat layers)))
              (λ f p q. absurd (cc (q))) (e ∙ ap clash (ground (arith, h, e))))
        split (claimed seen) e later = inr (later (ground (arith, h, e)))
