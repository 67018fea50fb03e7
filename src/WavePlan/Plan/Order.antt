-- ===== src/WavePlan/Plan/Order.antt =====
-- Splitting layers into waves keeps the order of dependencies.
use cairness.Base.{
  ℕ, suc, ◌<◌, String, ◌≡◌, refl, ap, true, List, [], ◌∷◌, ◌++◌, arith, mem, count, count-append,
  All, concat, mem→count, count→mem, mem-append, append_assoc, append-nil, some,
}
use cairness.Base.Dict.{Dict}
use cairness.WavePlan.Task.{TaskNode}
use cairness.WavePlan.Task.Index.{find}
use cairness.WavePlan.Kahn.Layers.{AreLayers}
use cairness.WavePlan.Split.{Wave, split_layer_into_waves}
use cairness.WavePlan.Split.Waves.{
  wave_tasks, wave_tasks-append, count-split_layer, IsSound, split_layer-IsSound, All-append,
}
use cairness.WavePlan.Overlap.Disjoint.{IsDisjointLayer}
use cairness.WavePlan.Plan.{split_layers, number_from}

-- A task of a wave depends only on `placed` and on the waves before its own.
abbrev pub IsOrdered : List TaskNode → List String → List Wave → Type 0
IsOrdered tasks placed [] = Unit
IsOrdered tasks placed (w ∷ ws) =
    ((x : String) (t : TaskNode) (d : String)
      → 0 < count x w.tasks
      → find x tasks ≡ some t
      → mem d t.depends_on ≡ true
      → mem d placed ≡ true)
    × IsOrdered tasks (placed ++ w.tasks) ws

-- The waves are numbered on from `i`.
abbrev pub IsNumbered : ℕ → List Wave → Type 0
IsNumbered i [] = Unit
IsNumbered i (w ∷ ws) = (w.wave ≡ i) × IsNumbered (suc i) ws

module _ (tasks : List TaskNode) where
  abbrev Within : List String → List String → Type 0
  Within xs ys = (d : String) → mem d xs ≡ true → mem d ys ≡ true

  -- What a task named `x` needs is in `placed`.
  abbrev Served : List String → String → Type 0
  Served placed x =
      (t : TaskNode) (d : String)
      → find x tasks ≡ some t
      → mem d t.depends_on ≡ true
      → mem d placed ≡ true

  waves-IsOrdered :
      (ws rest : List Wave) (placed : List String)
      → ((x : String) → 0 < count x (wave_tasks ws) → Served placed x)
      → IsOrdered tasks (placed ++ wave_tasks ws) rest
      → IsOrdered tasks placed (ws ++ rest)
  unfolding wave_tasks
  waves-IsOrdered [] rest placed h k = rw append-nil at k
  waves-IsOrdered (w ∷ ws) rest placed h k = (
    (λ x t d here found dep.
        h x (omega (arith, count-append x w.tasks (wave_tasks ws))) t d found dep),
    waves-IsOrdered ws rest (placed ++ w.tasks)
        (λ x here t d found dep. ground (
          arith,
          h x (omega (arith, count-append x w.tasks (wave_tasks ws))) t d found dep,
          mem-append d placed w.tasks,
        ))
        (rw append_assoc k),
  )

  Within-waves :
      (by_id : Dict TaskNode) (k : ℕ) (layer : List String)
      → 0 < k
      → Within layer (wave_tasks (split_layer_into_waves by_id k layer))
  Within-waves by_id k layer pos d m =
      count→mem d (wave_tasks (split_layer_into_waves by_id k layer))
        (omega (arith, count-split_layer by_id k d layer pos, mem→count d layer m))

  Within-append :
      (by_id : Dict TaskNode) (k : ℕ) (layer placed placed' : List String)
      → 0 < k
      → Within placed placed'
      → Within (placed ++ layer) (placed' ++ wave_tasks (split_layer_into_waves by_id k layer))
  Within-append by_id k layer placed placed' pos sub d m = ground (
    arith,
    mem-append d placed layer,
    mem-append d placed' (wave_tasks (split_layer_into_waves by_id k layer)),
    sub d,
    Within-waves by_id k layer pos d,
  )

  pub split_layers-IsOrdered :
      (by_id : Dict TaskNode) (max_parallel : ℕ) (layers : List (List String))
      (placed placed' : List String)
      → 0 < max_parallel
      → Within placed placed'
      → AreLayers tasks placed layers
      → IsOrdered tasks placed' (split_layers by_id max_parallel layers)
  unfolding split_layers
  split_layers-IsOrdered by_id k [] placed placed' pos sub h = tt
  split_layers-IsOrdered by_id k (layer ∷ layers) placed placed' pos sub h =
      let ws = split_layer_into_waves by_id k layer in
      waves-IsOrdered ws (split_layers by_id k layers) placed'
        (λ x here t d found dep.
          sub d (h.0 x t d (omega (arith, count-split_layer by_id k x layer pos)) found dep))
        (split_layers-IsOrdered by_id k layers (placed ++ layer) (placed' ++ wave_tasks ws) pos
          (Within-append by_id k layer placed placed' pos sub) h.1)

pub number_from-IsOrdered :
    (tasks : List TaskNode) (i : ℕ) (placed : List String) (ws : List Wave)
    → IsOrdered tasks placed ws
    → IsOrdered tasks placed (number_from i ws)
unfolding number_from
number_from-IsOrdered tasks i placed [] h = tt
number_from-IsOrdered tasks i placed (w ∷ ws) h =
    (h.0, number_from-IsOrdered tasks (suc i) (placed ++ w.tasks) ws h.1)

pub number_from-IsNumbered : (i : ℕ) (ws : List Wave) → IsNumbered i (number_from i ws)
unfolding number_from
number_from-IsNumbered i [] = tt
number_from-IsNumbered i (w ∷ ws) = (refl, number_from-IsNumbered (suc i) ws)

pub number_from-IsSound :
    (by_id : Dict TaskNode) (k i : ℕ) (ws : List Wave)
    → All (IsSound by_id k) ws
    → All (IsSound by_id k) (number_from i ws)
unfolding number_from
number_from-IsSound by_id k i [] h = tt
number_from-IsSound by_id k i (w ∷ ws) h = (
  record {
    inhabited = h.0.inhabited;
    bounded = h.0.bounded;
    measured = h.0.measured;
    flagged = h.0.flagged;
    solo = h.0.solo;
    apart = h.0.apart;
  },
  number_from-IsSound by_id k (suc i) ws h.1,
)

pub wave_tasks-number_from :
    (i : ℕ) (ws : List Wave) → wave_tasks (number_from i ws) ≡ wave_tasks ws
unfolding number_from wave_tasks
wave_tasks-number_from i [] = refl
wave_tasks-number_from i (w ∷ ws) = ap (λ l. w.tasks ++ l) (wave_tasks-number_from (suc i) ws)

pub count-split_layers :
    (by_id : Dict TaskNode) (k : ℕ) (x : String) (layers : List (List String))
    → 0 < k
    → count x (wave_tasks (split_layers by_id k layers)) ≡ count x (concat layers)
unfolding split_layers wave_tasks
count-split_layers by_id k x [] pos = refl
count-split_layers by_id k x (layer ∷ layers) pos = omega (
  arith,
  wave_tasks-append x (split_layer_into_waves by_id k layer) (split_layers by_id k layers),
  count-split_layer by_id k x layer pos,
  count-split_layers by_id k x layers pos,
  count-append x layer (concat layers),
)

pub split_layers-IsSound :
    (by_id : Dict TaskNode) (k : ℕ) (layers : List (List String))
    → 0 < k
    → All (IsDisjointLayer by_id) layers
    → All (IsSound by_id k) (split_layers by_id k layers)
unfolding split_layers
split_layers-IsSound by_id k [] pos h = tt
split_layers-IsSound by_id k (layer ∷ layers) pos h =
    All-append (IsSound by_id k) _ _ (split_layer-IsSound by_id k layer pos h.0)
      (split_layers-IsSound by_id k layers pos h.1)
