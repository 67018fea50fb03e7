-- ===== src/WavePlan/Kahn/Degrees.antt =====
-- The dict `in_degree`: what it holds at the start, and what the decrements do.
use cairness.Base.{
  ℕ, ◌+◌, ◌-◌, ◌≤◌, String, ◌≡◌, refl, sym, ap, ◌∙◌, false, Option, none, some, List, [], ◌∷◌, ◌++◌,
  arith, ◌==◌, eq_iff, count, mem, length, Bool-cases, inl, inr, mem→count, subst, append_assoc,
  append-nil, count-append,
}
use cairness.Base.Dict
use cairness.Base.Dict.{Dict, keys-put_new, on_some, get-put, get-modify}
use cairness.WavePlan.Task.{TaskNode, task_ids, UniqueIds}
use cairness.WavePlan.Task.Index.{find, UniqueIds-tail, UniqueIds-head, find-not_mem}
use cairness.WavePlan.Kahn.{in_degrees, degrees_from, release}

abbrev pub degree : Option TaskNode → Option ℕ
degree none = none
degree (some t) = some (length t.depends_on)

abbrev or : Option ℕ → Option ℕ → Option ℕ
or none o = o
or (some n) o = some n

degrees_from-find :
    (m : Dict ℕ) (ts : List TaskNode)
    → UniqueIds ts
    → (x : String) → Dict.get (degrees_from m ts) x ≡ or (degree (find x ts)) (Dict.get m x)
unfolding degrees_from find
degrees_from-find m [] u x = refl
degrees_from-find m (t ∷ ts) u x =
    let put_first = Dict.put m t.id (length t.depends_on) in
    degrees_from-find put_first ts (UniqueIds-tail t ts u) x ∙ elim (Bool-cases (t.id == x)) [
      | inl e ↦
          let absent : find x ts ≡ none = find-not_mem x ts (
            subst (λ y. mem y (task_ids ts) ≡ false) ((eq_iff t.id x).0 e)
              (UniqueIds-head t ts u)) in
          rw (get-put, e, absent)
      | inr e ↦ rw (get-put, e)
    ]

or-none : (o : Option ℕ) → or o none ≡ o
or-none none = refl
or-none (some n) = refl

pub get-in_degrees :
    (ts : List TaskNode)
    → UniqueIds ts
    → (x : String) → Dict.get (in_degrees ts) x ≡ degree (find x ts)
unfolding in_degrees Dict.get
get-in_degrees ts u x = degrees_from-find [] ts u x ∙ or-none (degree (find x ts))

count-keys-degrees_from :
    (m : Dict ℕ) (ts : List TaskNode)
    → ((x : String) → count x (Dict.keys m) + count x (task_ids ts) ≤ 1)
    → Dict.keys (degrees_from m ts) ≡ Dict.keys m ++ task_ids ts
unfolding degrees_from task_ids
count-keys-degrees_from m [] u = sym (append-nil (Dict.keys m))
count-keys-degrees_from m (t ∷ ts) u =
    let n = length t.depends_on in
    let fresh : mem t.id (Dict.keys m) ≡ false = elim (Bool-cases (mem t.id (Dict.keys m))) [
      | inl old ↦
          absurd (ground (arith, mem→count t.id (Dict.keys m) old, u t.id, eq_iff t.id t.id))
      | inr new ↦ new
    ] in
    let added = keys-put_new m t.id n fresh in
    count-keys-degrees_from (Dict.put m t.id n) ts
      (λ x. ground (arith, u x, ap (count x) added, count-append x (Dict.keys m) (t.id ∷ [])))
    ∙ (rw added (rw append_assoc))

-- `set(in_degree)` is the set of the task ids.
pub keys-in_degrees : (ts : List TaskNode) → UniqueIds ts → Dict.keys (in_degrees ts) ≡ task_ids ts
unfolding in_degrees Dict.keys
keys-in_degrees ts u = count-keys-degrees_from [] ts (λ x. omega (arith, u x))

-- A value that is decremented once for each occurrence of its key in `xs`.
pub get-release :
    (xs : List String) (deg : Dict ℕ) (x : String)
    → Dict.get (release xs deg) x ≡ on_some (λ n. n - count x xs) (Dict.get deg x)
unfolding release
get-release [] deg x = ground arith
get-release (y ∷ ys) deg x = ground (
  arith,
  get-release ys (Dict.modify deg y (λ n. n - 1)) x,
  get-modify deg y (λ n. n - 1) x,
  eq_iff x y,
  eq_iff y x,
)
