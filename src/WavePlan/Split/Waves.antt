-- ===== src/WavePlan/Split/Waves.antt =====
-- The waves of one layer: what they hold, how large they are, and that they write apart.
use cairness.Base.{
  ℕ, zero, suc, ◌+◌, ◌≤◌, ◌<◌, String, ◌≡◌, ◌≢◌, ◌↔◌, refl, sym, ap, true, false, not, List, [],
  ◌∷◌, ◌++◌, arith, eq_iff, mem, count, length, All, mem→count, take, drop, length-take,
  length-drop, filter_b, count-filter_b, count-append, count-take-drop,
}
use cairness.Base.Dict.{Dict}
use cairness.WavePlan.Task.{TaskNode}
use cairness.WavePlan.Overlap.{is_safe, files_of}
use cairness.WavePlan.Overlap.Disjoint.{
  writers, writers_two, writers-filter_safe, writers-take-drop, IsDisjointLayer,
}
use cairness.WavePlan.Split.{
  Wave, make_wave, all_safe, solo_waves, chunk_waves, split_layer_into_waves,
}

-- The tasks of the waves, in order.
unfoldable pub wave_tasks : List Wave → List String
wave_tasks [] = []
wave_tasks (w ∷ ws) = w.tasks ++ wave_tasks ws

pub wave_tasks-append :
    (x : String) (vs ws : List Wave)
    → count x (wave_tasks (vs ++ ws)) ≡ count x (wave_tasks vs) + count x (wave_tasks ws)
unfolding wave_tasks
wave_tasks-append x [] ws = omega arith
wave_tasks-append x (v ∷ vs) ws = omega (
  arith,
  count-append x v.tasks (wave_tasks (vs ++ ws)),
  count-append x v.tasks (wave_tasks vs),
  wave_tasks-append x vs ws,
)

pub All-append {ℓ κ} :
    {A : Type ℓ} (P : A → Type κ) (xs ys : List A) → All P xs → All P ys → All P (xs ++ ys)
All-append P [] ys h k = k
All-append P (x ∷ xs) ys h k = (h.0, All-append P xs ys h.1 k)

module _ (by_id : Dict TaskNode) (max_parallel : ℕ) where
  -- A wave has between 1 and `max_parallel` tasks, its `parallelism` is their number, its
  -- `parallel_safe_all` says whether all of them are parallel-safe, a task that is not is alone, and
  -- two tasks share no file.
  pub record IsSound (w : Wave) : Type 0 where
    pub inhabited : 0 < length w.tasks
    pub bounded : length w.tasks ≤ max_parallel
    pub measured : w.parallelism ≡ length w.tasks
    pub flagged :
        (w.parallel_safe_all ≡ true)
        ↔ ((a : String) → mem a w.tasks ≡ true → is_safe by_id a ≡ true)
    pub solo : (a : String) → mem a w.tasks ≡ true → is_safe by_id a ≡ false → w.tasks ≡ a ∷ []
    pub apart :
        (a b f : String)
        → a ≢ b
        → mem a w.tasks ≡ true
        → mem b w.tasks ≡ true
        → mem f (files_of by_id a) ≡ true
        → mem f (files_of by_id b) ≡ true
        → ⊥

  count-solo_waves :
      (x : String) (ids : List String) → count x (wave_tasks (solo_waves by_id ids)) ≡ count x ids
  unfolding solo_waves wave_tasks make_wave
  count-solo_waves x [] = refl
  count-solo_waves x (tid ∷ ids) = omega (arith, count-solo_waves x ids)

  count-chunk_waves :
      (x : String) (fuel : ℕ) (group : List String)
      → 0 < max_parallel
      → length group ≤ fuel
      → count x (wave_tasks (chunk_waves by_id max_parallel fuel group)) ≡ count x group
  unfolding chunk_waves wave_tasks make_wave
  count-chunk_waves x fuel [] pos h = refl
  count-chunk_waves x zero (y ∷ group) pos h = absurd (omega arith)
  count-chunk_waves x (suc fuel) (y ∷ group) pos h =
      let chunk = take max_parallel (y ∷ group) in
      let rest = drop max_parallel (y ∷ group) in
      omega (
        arith,
        count-append x chunk (wave_tasks (chunk_waves by_id max_parallel fuel rest)),
        count-chunk_waves x fuel rest pos (omega (arith, length-drop max_parallel (y ∷ group))),
        count-take-drop x max_parallel (y ∷ group),
      )

  all_safe-mem :
      (a : String) (ids : List String)
      → all_safe by_id ids ≡ true
      → mem a ids ≡ true
      → is_safe by_id a ≡ true
  unfolding all_safe
  all_safe-mem a [] h m = absurd (cc)
  all_safe-mem a (x ∷ ids) h m = ground (arith, all_safe-mem a ids, eq_iff a x)

  all_safe_iff :
      (ids : List String)
      → (all_safe by_id ids ≡ true) ↔ ((a : String) → mem a ids ≡ true → is_safe by_id a ≡ true)
  unfolding all_safe
  all_safe_iff ids = ((λ h a m. all_safe-mem a ids h m), all ids)
    where
      all :
          (ids : List String)
          → ((a : String) → mem a ids ≡ true → is_safe by_id a ≡ true)
          → all_safe by_id ids ≡ true
      all [] h = refl
      all (x ∷ ids) h =
          ground (arith, h x (ground (arith, eq_iff x x)), all ids (λ a m. h a (ground (arith, m))))

  solo_waves-IsSound : (ids : List String) → 0 < max_parallel → All IsSound (solo_waves by_id ids)
  unfolding solo_waves make_wave
  solo_waves-IsSound [] pos = tt
  solo_waves-IsSound (tid ∷ ids) pos = (
    record {
      inhabited = omega arith;
      bounded = omega arith;
      measured = omega arith;
      flagged = all_safe_iff (tid ∷ []);
      solo = λ a m _. ap (λ x. x ∷ []) (sym ((eq_iff a tid).0 (ground (arith, m))));
      apart = λ a b f ne ha hb _ _. absurd (ground (arith, ne, eq_iff a tid, eq_iff b tid));
    },
    solo_waves-IsSound ids pos,
  )

  all_safe-take :
      (n : ℕ) (ids : List String) → all_safe by_id ids ≡ true → all_safe by_id (take n ids) ≡ true
  unfolding all_safe
  all_safe-take zero ids h = refl
  all_safe-take (suc n) [] h = refl
  all_safe-take (suc n) (x ∷ ids) h = ground (arith, all_safe-take n ids)

  all_safe-drop :
      (n : ℕ) (ids : List String) → all_safe by_id ids ≡ true → all_safe by_id (drop n ids) ≡ true
  unfolding all_safe
  all_safe-drop zero ids h = h
  all_safe-drop (suc n) [] h = refl
  all_safe-drop (suc n) (x ∷ ids) h = ground (arith, all_safe-drop n ids)

  all_safe-filter : (ids : List String) → all_safe by_id (filter_b (is_safe by_id) ids) ≡ true
  unfolding all_safe
  all_safe-filter [] = refl
  all_safe-filter (x ∷ ids) = ground (arith, all_safe-filter ids)

  group_apart :
      (ids : List String) (a b f : String)
      → all_safe by_id ids ≡ true
      → writers by_id f ids ≤ 1
      → a ≢ b
      → mem a ids ≡ true
      → mem b ids ≡ true
      → mem f (files_of by_id a) ≡ true
      → mem f (files_of by_id b) ≡ true
      → ⊥
  group_apart ids a b f safe few ne ha hb fa fb = ground (
    arith,
    writers_two by_id a b f ids ne ha hb,
    all_safe-mem a ids safe ha,
    all_safe-mem b ids safe hb,
    mem→count f (files_of by_id a) fa,
    mem→count f (files_of by_id b) fb,
  )

  chunk_waves-IsSound :
      (fuel : ℕ) (group : List String)
      → 0 < max_parallel
      → all_safe by_id group ≡ true
      → IsDisjointLayer by_id group
      → All IsSound (chunk_waves by_id max_parallel fuel group)
  unfolding chunk_waves make_wave
  chunk_waves-IsSound fuel [] pos safe few = tt
  chunk_waves-IsSound zero (x ∷ group) pos safe few = tt
  chunk_waves-IsSound (suc fuel) (x ∷ group) pos safe few =
      let chunk = take max_parallel (x ∷ group) in
      let rest = drop max_parallel (x ∷ group) in
      (
        record {
          inhabited = omega (arith, length-take max_parallel (x ∷ group));
          bounded = omega (arith, length-take max_parallel (x ∷ group));
          measured = refl;
          flagged = all_safe_iff chunk;
          solo = λ a m unsafe. absurd (
              ground (
                arith,
                all_safe-mem a chunk (all_safe-take max_parallel (x ∷ group) safe) m,
                unsafe,
              ));
          apart = λ a b f.
              group_apart chunk a b f (all_safe-take max_parallel (x ∷ group) safe)
                (omega (arith, few f, writers-take-drop by_id f max_parallel (x ∷ group)));
        },
        chunk_waves-IsSound fuel rest pos (all_safe-drop max_parallel (x ∷ group) safe)
            (λ f. omega (arith, few f, writers-take-drop by_id f max_parallel (x ∷ group))),
      )

  -- The waves of a layer hold the layer's tasks.
  pub count-split_layer :
      (x : String) (layer : List String)
      → 0 < max_parallel
      → count x (wave_tasks (split_layer_into_waves by_id max_parallel layer)) ≡ count x layer
  unfolding split_layer_into_waves
  count-split_layer x layer pos =
      let solo = filter_b (λ tid. not (is_safe by_id tid)) layer in
      let group = filter_b (is_safe by_id) layer in
      ground (
        arith,
        wave_tasks-append x (solo_waves by_id solo)
            (chunk_waves by_id max_parallel (length group) group),
        count-solo_waves x solo,
        count-chunk_waves x (length group) group pos (omega arith),
        count-filter_b (λ tid. not (is_safe by_id tid)) x layer,
        count-filter_b (is_safe by_id) x layer,
      )

  pub split_layer-IsSound :
      (layer : List String)
      → 0 < max_parallel
      → IsDisjointLayer by_id layer
      → All IsSound (split_layer_into_waves by_id max_parallel layer)
  unfolding split_layer_into_waves
  split_layer-IsSound layer pos few =
      let group = filter_b (is_safe by_id) layer in
      All-append IsSound _ _ (solo_waves-IsSound _ pos) (
        chunk_waves-IsSound (length group) group pos (all_safe-filter layer)
          (λ f. omega (arith, few f, writers-filter_safe by_id f layer)))
