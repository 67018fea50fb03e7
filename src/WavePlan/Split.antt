-- ===== src/WavePlan/Split.antt =====
-- `_split_layer_into_waves` and `_make_wave` (wave_plan.py).
pub mod Waves
use cairness.Base.{
  ℕ, zero, suc, String, Bool, true, false, not, ◌&&◌, List, [], ◌∷◌, ◌++◌, map, length, take, drop,
  filter_b,
}
use cairness.Base.Dict
use cairness.Base.Dict.{Dict}
use cairness.Base.Sorting.{sorted}
use cairness.WavePlan.Task.{TaskNode}
use cairness.WavePlan.Overlap.{is_safe, files_of}

-- `wave` is 0 for the source's None, before the waves are numbered from 1.
pub record Wave : Type 0 where
  pub wave : ℕ
  pub tasks : List String
  pub write_sets : Dict (List String)
  pub parallelism : ℕ
  pub disjoint : Bool
  pub parallel_safe_all : Bool
  pub rationale : String

-- `{tid: sorted(by_id[tid].files) for tid in task_ids}`
write_sets_from : Dict TaskNode → Dict (List String) → List String → Dict (List String)
write_sets_from by_id m [] = m
write_sets_from by_id m (tid ∷ ids) =
    write_sets_from by_id (Dict.put m tid (sorted (files_of by_id tid))) ids

unfoldable pub all_safe : Dict TaskNode → List String → Bool
all_safe by_id [] = true
all_safe by_id (tid ∷ ids) = is_safe by_id tid && all_safe by_id ids

unfoldable pub make_wave : Dict TaskNode → List String → ℕ → Wave
unfolding write_sets_from
make_wave by_id ids parallelism = record {
  wave = 0;
  tasks = ids;
  write_sets = write_sets_from by_id [] ids;
  parallelism = parallelism;
  disjoint = true;
  parallel_safe_all = all_safe by_id ids;
  rationale = "no depends_on, disjoint writes";
}

-- `for tid in solo`
unfoldable pub solo_waves : Dict TaskNode → List String → List Wave
solo_waves by_id [] = []
solo_waves by_id (tid ∷ ids) = make_wave by_id (tid ∷ []) 1 ∷ solo_waves by_id ids

-- `for i in range(0, len(group), max_parallel)`, on fuel: a round takes `max_parallel` ids. A chunk
-- of one id gets parallelism 1 in its own branch of the source, which is its length too.
unfoldable pub chunk_waves : Dict TaskNode → ℕ → ℕ → List String → List Wave
chunk_waves by_id max_parallel fuel [] = []
chunk_waves by_id max_parallel zero (x ∷ group) = []
chunk_waves by_id max_parallel (suc fuel) (x ∷ group) =
    let chunk = take max_parallel (x ∷ group) in
    make_wave by_id chunk (length chunk)
    ∷ chunk_waves by_id max_parallel fuel (drop max_parallel (x ∷ group))

unfoldable pub split_layer_into_waves : Dict TaskNode → ℕ → List String → List Wave
split_layer_into_waves by_id max_parallel layer =
    let solo = filter_b (λ tid. not (is_safe by_id tid)) layer in
    let group = filter_b (is_safe by_id) layer in
    solo_waves by_id solo ++ chunk_waves by_id max_parallel (length group) group
