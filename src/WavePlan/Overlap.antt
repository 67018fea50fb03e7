-- ===== src/WavePlan/Overlap.antt =====
-- `_detect_layer_overlap` (wave_plan.py): two tasks of one layer that write one file.
pub mod Disjoint
pub mod Clash
use cairness.Base.{ℕ, String, Bool, true, false, Option, none, some, List, [], ◌∷◌, if◌then◌else◌}
use cairness.Base.Dict
use cairness.Base.Dict.{Dict}
use cairness.WavePlan.Task.{TaskNode}

-- The issue's fields: the task that has the file, the task that wants it, the file.
pub record Overlap : Type 0 where
  pub owner : String
  pub claimant : String
  pub overlapping_file : String

-- `by_id[tid].parallel_safe` and `by_id[tid].files`; every id of a layer is a key.
unfoldable pub is_safe : Dict TaskNode → String → Bool
is_safe by_id tid = elim (Dict.get by_id tid) [ none ↦ false | some t ↦ t.parallel_safe ]

unfoldable pub files_of : Dict TaskNode → String → List String
files_of by_id tid = elim (Dict.get by_id tid) [ none ↦ [] | some t ↦ t.files ]

-- A loop that may return from its middle: the overlap, or the dict `seen` after it.
pub data Claim : Type 0 where
  clash : Overlap → Claim
  claimed : Dict String → Claim

abbrev pub and_then : Claim → (Dict String → Claim) → Claim
and_then (clash o) k = clash o
and_then (claimed seen) k = k seen

-- The body of `for f in by_id[tid].files`.
unfoldable pub claim_file : Dict TaskNode → String → String → Dict String → Claim
claim_file by_id tid f seen = elim (Dict.get seen f) [
  | none ↦ claimed (Dict.put seen f tid)
  | some owner ↦
      if is_safe by_id owner
      then clash (record { owner = owner; claimant = tid; overlapping_file = f })
      else claimed (Dict.put seen f tid)
]

unfoldable pub claim_files : Dict TaskNode → String → List String → Dict String → Claim
claim_files by_id tid [] seen = claimed seen
claim_files by_id tid (f ∷ fs) seen =
    and_then (claim_file by_id tid f seen) (claim_files by_id tid fs)

-- The body of `for tid in layer`.
unfoldable pub claim_task : Dict TaskNode → String → Dict String → Claim
claim_task by_id tid seen =
    if is_safe by_id tid then claim_files by_id tid (files_of by_id tid) seen else claimed seen

unfoldable pub claim_layer : Dict TaskNode → List String → Dict String → Claim
claim_layer by_id [] seen = claimed seen
claim_layer by_id (tid ∷ layer) seen =
    and_then (claim_task by_id tid seen) (claim_layer by_id layer)

unfoldable pub detect_layer_overlap : Dict TaskNode → List (List String) → Option Overlap
detect_layer_overlap by_id [] = none
detect_layer_overlap by_id (layer ∷ layers) =
    let rest = detect_layer_overlap by_id layers in
    elim (claim_layer by_id layer []) [ clash o ↦ some o | claimed _ ↦ rest ]
