-- ===== src/WavePlan/Task/Index.antt =====
-- What the dict of `{t.id: t for t in tasks}` holds, when no id is used twice.
use cairness.Base.{
  ◌<◌, String, ◌≡◌, refl, ap, ◌∙◌, Bool, true, false, subst, inl, inr, Option, none, some, List, [],
  ◌∷◌, arith, ◌==◌, eq_iff, if◌then◌else◌, count, mem, Bool-cases, List-cases, ltb, count-filter_b,
  mem→count, filter_b,
}
use cairness.Base.Dict
use cairness.Base.Dict.{Dict, get-put}
use cairness.Base.Sorting.{count-sorted}
use cairness.WavePlan.Task.{TaskNode, task_ids, index, index_from, duplicate_ids, dedup, UniqueIds}

-- The first task with an id.
unfoldable pub find : String → List TaskNode → Option TaskNode
find x [] = none
find x (t ∷ ts) = if t.id == x then some t else find x ts

abbrev pub or_else : Option TaskNode → Option TaskNode → Option TaskNode
or_else (some t) o = some t
or_else none o = o

pub find-mem :
    (x : String) (ts : List TaskNode) {t : TaskNode}
    → find x ts ≡ some t
    → mem x (task_ids ts) ≡ true
unfolding find task_ids
find-mem x [] h = cc
find-mem x (u ∷ ts) {t} h = ground (arith, find-mem x ts {t = t}, eq_iff u.id x, eq_iff x u.id)

pub find-not_mem :
    (x : String) (ts : List TaskNode) → mem x (task_ids ts) ≡ false → find x ts ≡ none
unfolding find task_ids
find-not_mem x [] h = refl
find-not_mem x (u ∷ ts) h = ground (arith, find-not_mem x ts, eq_iff u.id x, eq_iff x u.id)

pub mem-find :
    (x : String) (ts : List TaskNode)
    → mem x (task_ids ts) ≡ true
    → (t : TaskNode) × (find x ts ≡ some t)
unfolding find task_ids
mem-find x [] h = ground arith
mem-find x (u ∷ ts) h = elim (Bool-cases (u.id == x)) [
  | inl e ↦ (u, rw e)
  | inr e ↦ rw e (mem-find x ts (ground (arith, eq_iff u.id x, eq_iff x u.id)))
]

pub UniqueIds-tail : (t : TaskNode) (ts : List TaskNode) → UniqueIds (t ∷ ts) → UniqueIds ts
unfolding task_ids
UniqueIds-tail t ts u x = omega (arith, u x)

pub UniqueIds-head :
    (t : TaskNode) (ts : List TaskNode) → UniqueIds (t ∷ ts) → mem t.id (task_ids ts) ≡ false
unfolding task_ids
UniqueIds-head t ts u = elim (Bool-cases (mem t.id (task_ids ts))) [
  | inl m ↦ absurd (ground (arith, mem→count t.id (task_ids ts) m, u t.id, eq_iff t.id t.id))
  | inr m ↦ m
]

index_from-find :
    (m : Dict TaskNode) (ts : List TaskNode)
    → UniqueIds ts
    → (x : String) → Dict.get (index_from m ts) x ≡ or_else (find x ts) (Dict.get m x)
unfolding index_from find
index_from-find m [] u x = refl
index_from-find m (t ∷ ts) u x =
    index_from-find (Dict.put m t.id t) ts (UniqueIds-tail t ts u) x
    ∙ elim (Bool-cases (t.id == x)) [
      | inl e ↦
          let absent : find x ts ≡ none = find-not_mem x ts (
            subst (λ y. mem y (task_ids ts) ≡ false) ((eq_iff t.id x).0 e)
              (UniqueIds-head t ts u)) in
          rw (get-put, e, absent)
      | inr e ↦ rw (get-put, e)
    ]

or_else-none : (o : Option TaskNode) → or_else o none ≡ o
or_else-none none = refl
or_else-none (some t) = refl

pub get-index :
    (ts : List TaskNode) → UniqueIds ts → (x : String) → Dict.get (index ts) x ≡ find x ts
unfolding index Dict.get
get-index ts u x = index_from-find [] ts u x ∙ or_else-none (find x ts)

mem-dedup : (x : String) (xs : List String) → 0 < count x xs → 0 < count x (dedup xs)
unfolding dedup
mem-dedup x [] h = h
mem-dedup x (y ∷ ys) h = ground (
  arith,
  count-filter_b (λ z. if y == z then false else true) x (dedup ys),
  mem-dedup x ys,
  eq_iff x y,
  eq_iff y x,
)

pub duplicate_ids-nil→UniqueIds : (ts : List TaskNode) → duplicate_ids ts ≡ [] → UniqueIds ts
unfolding duplicate_ids
duplicate_ids-nil→UniqueIds ts h x =
    let ids = task_ids ts in
    let test : String → Bool = λ y. ltb 1 (count y ids) in
    ground (
      arith,
      count-sorted x (dedup (filter_b test ids)),
      mem-dedup x (filter_b test ids),
      count-filter_b test x ids,
      ap (count x) h,
    )

count-dedup : (x : String) (xs : List String) → count x xs ≡ 0 → count x (dedup xs) ≡ 0
unfolding dedup
count-dedup x [] h = refl
count-dedup x (y ∷ ys) h =
    ground
      (arith, count-filter_b (λ z. if y == z then false else true) x (dedup ys), count-dedup x ys)

pub UniqueIds→duplicate_ids-nil : (ts : List TaskNode) → UniqueIds ts → duplicate_ids ts ≡ []
unfolding duplicate_ids
UniqueIds→duplicate_ids-nil ts u = elim (List-cases (duplicate_ids ts)) [
  | inl e ↦ e
  | inr (x, xs, e) ↦
      let ids = task_ids ts in
      let test : String → Bool = λ y. ltb 1 (count y ids) in
      let kept : count x (filter_b test ids) ≡ 0 = ground (arith, count-filter_b test x ids, u x) in
      absurd (
        ground (
          arith,
          count-sorted x (dedup (filter_b test ids)),
          count-dedup x (filter_b test ids) kept,
          ap (count x) e,
          eq_iff x x,
        ))
]
