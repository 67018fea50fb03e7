-- ===== src/LoopRuntime/Ids.antt =====
-- The identifiers of loop_runtime.py: `SESSION_ID_RE`, `COMMAND_RE`, the pattern of a change id, and
-- `COMMAND_PHASE`.
use cairness.Base.{
  ℕ, String, Bool, true, false, ◌&&◌, ◌||◌, List, [], ◌∷◌, ◌==◌, if◌then◌else◌, leb, eqb, length,
}

-- `[a-z0-9]`
is_word : ℕ → Bool
is_word c = (leb b'a' c && leb c b'z') || (leb b'0' c && leb c b'9')

is_dash : ℕ → Bool
is_dash c = eqb c b'-'

-- `[a-z0-9-]*`
all_dashed : List ℕ → Bool
unfolding is_word is_dash
all_dashed [] = true
all_dashed (c ∷ cs) = (is_word c || is_dash c) && all_dashed cs

-- `[a-z0-9][a-z0-9-]{7,63}`
unfoldable pub matches_session_id : List ℕ → Bool
unfolding is_word all_dashed
matches_session_id [] = false
matches_session_id (c ∷ cs) = is_word c && leb 7 (length cs) && leb (length cs) 63 && all_dashed cs

-- `cc-[a-z0-9-]+`
unfoldable pub matches_command : List ℕ → Bool
unfolding all_dashed
matches_command (a ∷ b ∷ d ∷ e ∷ cs) = eqb a b'c' && eqb b b'c' && eqb d b'-' && all_dashed (e ∷ cs)
matches_command _ = false

-- `[a-z0-9]+(?:-[a-z0-9]+)*`, where `inside` says that a word has begun.
unfoldable pub matches_change_id : Bool → List ℕ → Bool
unfolding is_word is_dash
matches_change_id inside [] = inside
matches_change_id inside (c ∷ cs) =
    (is_word c || (is_dash c && inside)) && matches_change_id (is_word c) cs

unfoldable pub phase_for_command : String → String
phase_for_command command =
    if command == "cc-propose"
    then "propose"
    else if command == "cc-apply"
    then "apply"
    else if command == "cc-review"
    then "review"
    else if command == "cc-fix"
    then "fix"
    else if command == "cc-test"
    then "test"
    else if command == "cc-archive"
    then "archive"
    else "apply"
