-- ===== src/WavePlan/Kahn/Dependents.antt =====
-- The dict `dependents`: under a key it has each task as often as that depends on the key.
use cairness.Base.{
  ℕ, ◌+◌, String, ◌≡◌, refl, ◌∙◌, Bool, true, false, Option-cases, ◌⊎◌, Option, none, some, List,
  [], ◌∷◌, ◌++◌, arith, ◌==◌, eq_iff, if◌then◌else◌, count, mem, Bool-cases, inl, inr, subst,
  count-append,
}
use cairness.Base.Dict
use cairness.Base.Dict.{Dict, on_some, get-put, get-modify}
use cairness.WavePlan.Task.{TaskNode, task_ids, UniqueIds}
use cairness.WavePlan.Task.Index.{find, UniqueIds-tail, UniqueIds-head}
use cairness.WavePlan.Kahn.{
  dependents, dependents_from, no_dependents, add_dependent, append_to, dependents_of,
}

abbrev has : Option (List String) → Bool
has none = false
has (some l) = true

abbrev copies : String → Option (List String) → ℕ
copies x none = 0
copies x (some l) = count x l

has-append_to :
    (tid dep : String) (m : Dict (List String)) (d : String)
    → has (Dict.get (append_to tid dep m) d) ≡ has (Dict.get m d)
unfolding append_to
has-append_to tid dep m d = ground (arith, get-modify m dep (λ l. l ++ tid ∷ []) d, eq_iff dep d)

copies-append_to :
    (tid dep : String) (m : Dict (List String)) (d x : String)
    → copies x (Dict.get (append_to tid dep m) d)
      ≡ copies x (Dict.get m d)
        + (if has (Dict.get m d) then (if dep == d then (if x == tid then 1 else 0) else 0) else 0)
unfolding append_to
copies-append_to tid dep m d x = elim (Option-cases (Dict.get m dep)) [
  | inl e ↦ ground (arith, eq_iff dep d, e)
  | inr (l, e) ↦
      ground (
        arith,
        get-modify m dep (λ l. l ++ tid ∷ []) d,
        eq_iff dep d,
        e,
        count-append x l (tid ∷ []),
      )
]

has-add_dependent :
    (tid : String) (deps : List String) (m : Dict (List String)) (d : String)
    → has (Dict.get (add_dependent tid deps m) d) ≡ has (Dict.get m d)
unfolding add_dependent
has-add_dependent tid [] m d = refl
has-add_dependent tid (dep ∷ deps) m d =
    has-add_dependent tid deps (append_to tid dep m) d ∙ has-append_to tid dep m d

copies-add_dependent :
    (tid : String) (deps : List String) (m : Dict (List String)) (d x : String)
    → copies x (Dict.get (add_dependent tid deps m) d)
      ≡ copies x (Dict.get m d)
        + (if has (Dict.get m d) then (if x == tid then count d deps else 0) else 0)
unfolding add_dependent
copies-add_dependent tid [] m d x = ground arith
copies-add_dependent tid (dep ∷ deps) m d x = ground (
  arith,
  copies-add_dependent tid deps (append_to tid dep m) d x,
  copies-append_to tid dep m d x,
  has-append_to tid dep m d,
  eq_iff dep d,
  eq_iff d dep,
)

-- How often the tasks called `x` depend on `d`.
edges : String → String → List TaskNode → ℕ
edges d x [] = 0
edges d x (t ∷ ts) = (if x == t.id then count d t.depends_on else 0) + edges d x ts

copies-dependents_from :
    (m : Dict (List String)) (ts : List TaskNode) (d x : String)
    → copies x (Dict.get (dependents_from m ts) d)
      ≡ copies x (Dict.get m d) + (if has (Dict.get m d) then edges d x ts else 0)
unfolding dependents_from edges
copies-dependents_from m [] d x = ground arith
copies-dependents_from m (t ∷ ts) d x = ground (
  arith,
  copies-dependents_from (add_dependent t.id t.depends_on m) ts d x,
  copies-add_dependent t.id t.depends_on m d x,
  has-add_dependent t.id t.depends_on m d,
)

get-no_dependents :
    (m : Dict (List String)) (ts : List TaskNode) (d : String)
    → (Dict.get m d ≡ some []) ⊎ (mem d (task_ids ts) ≡ true)
    → Dict.get (no_dependents m ts) d ≡ some []
unfolding no_dependents task_ids
get-no_dependents m [] d h = ground (arith, h)
get-no_dependents m (t ∷ ts) d h =
    get-no_dependents (Dict.put m t.id []) ts d
      (ground (arith, h, get-put m t.id [] d, eq_iff t.id d, eq_iff d t.id))

edges-absent : (d x : String) (ts : List TaskNode) → mem x (task_ids ts) ≡ false → edges d x ts ≡ 0
unfolding edges task_ids
edges-absent d x [] h = refl
edges-absent d x (t ∷ ts) h = ground (arith, edges-absent d x ts)

edges-find :
    (d x : String) (ts : List TaskNode) {t : TaskNode}
    → UniqueIds ts
    → find x ts ≡ some t
    → edges d x ts ≡ count d t.depends_on
unfolding edges find
edges-find d x [] u h = cc
edges-find d x (v ∷ ts) {t} u h = elim (Bool-cases (v.id == x)) [
  | inl e ↦
      let absent : mem x (task_ids ts) ≡ false =
        subst (λ y. mem y (task_ids ts) ≡ false) ((eq_iff v.id x).0 e) (UniqueIds-head v ts u) in
      ground (arith, edges-absent d x ts absent, eq_iff v.id x, eq_iff x v.id)
  | inr e ↦
      ground
        (arith, edges-find d x ts {t = t} (UniqueIds-tail v ts u), eq_iff v.id x, eq_iff x v.id)
]

-- `dependents[d]` names a task as often as the task names `d`.
pub count-dependents_of :
    (ts : List TaskNode) (d x : String) {t : TaskNode}
    → UniqueIds ts
    → mem d (task_ids ts) ≡ true
    → find x ts ≡ some t
    → count x (dependents_of (dependents ts) d) ≡ count d t.depends_on
unfolding dependents_of dependents
count-dependents_of ts d x {t} u known h = ground (
  arith,
  copies-dependents_from (no_dependents [] ts) ts d x,
  get-no_dependents [] ts d (inr known),
  edges-find d x ts {t = t} u h,
)
