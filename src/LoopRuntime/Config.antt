-- ===== src/LoopRuntime/Config.antt =====
-- `_require_loop_enabled` (loop_runtime.py): the profile and the trust envelope.
use cairness.Base.{
  ℕ, String, Bool, true, false, not, ◌&&◌, Option, none, some, List, [], ◌∷◌, ◌==◌, if◌then◌else◌,
  eqb, mem,
}
use cairness.LoopRuntime.Session.{
  LoopError, Outcome, ok, raised, and_then, not_loop_profile, missing_config, unreadable_config,
  incomplete_envelope, unsupported_scope, unsupported_risk, type_error, not_a_text_list,
}

-- A YAML value, as far as the checks tell them apart. A list or an object cannot be in a set.
pub data Value : Type 0 where
  text : String → Value
  texts : List String → Value
  plain unhashable : Value

-- `trust_envelope`, with nothing for a key that is missing.
pub record Envelope : Type 0 where
  pub max_scope : Option Value
  pub max_residual_risk : Option Value
  pub allowed_change_types : Option Value
  pub disallowed_change_types : Option Value

-- `.cairness/loop-config.yaml`
pub data ConfigFile : Type 0 where
  no_file no_yaml : ConfigFile
  -- the version, if it is a number, and the envelope, if it is an object
  parsed : Option ℕ → Option Envelope → ConfigFile

check_one_of : LoopError → List String → Value → Outcome (Unit {0})
check_one_of e allowed (text t) = if mem t allowed then ok tt else raised e
check_one_of e allowed plain = raised e
check_one_of e allowed unhashable = raised type_error
check_one_of e allowed (texts _) = raised type_error

all_filled : List String → Bool
all_filled [] = true
all_filled (t ∷ ts) = not (t == "") && all_filled ts

check_texts : String → Value → Outcome (Unit {0})
unfolding all_filled
check_texts field (texts ts) = if all_filled ts then ok tt else raised (not_a_text_list field)
check_texts field _ = raised (not_a_text_list field)

check_envelope : Option Value → Option Value → Option Value → Option Value → Outcome (Unit {0})
unfolding check_one_of check_texts
check_envelope (some scope) (some risk) (some allowed) (some disallowed) =
    and_then
      (check_one_of unsupported_scope ("micro" ∷ "small" ∷ "medium" ∷ "large" ∷ "xlarge" ∷ [])
        scope)
      (λ _. and_then (check_one_of unsupported_risk ("low" ∷ "medium" ∷ "high" ∷ []) risk) (λ _.
        and_then (check_texts "allowed_change_types" allowed)
          (λ _. check_texts "disallowed_change_types" disallowed)))
check_envelope _ _ _ _ = raised incomplete_envelope

check_config : ConfigFile → Outcome (Unit {0})
unfolding check_envelope
check_config no_file = raised missing_config
check_config no_yaml = raised unreadable_config
check_config (parsed (some version) (some e)) =
    if eqb version 1
    then check_envelope e.max_scope e.max_residual_risk e.allowed_change_types
        e.disallowed_change_types
    else raised incomplete_envelope
check_config (parsed _ _) = raised incomplete_envelope

is_loop : Option String → Bool
is_loop none = false
is_loop (some profile) = profile == "loop"

unfoldable pub require_loop_enabled : Option String → ConfigFile → Outcome (Unit {0})
unfolding check_config is_loop
require_loop_enabled profile file =
    if is_loop profile then check_config file else raised not_loop_profile
