-- ===== src/LoopRuntime/Timing.antt =====
-- `_elapsed_ms`, `_runtime_durations` and `_phase_timing` (loop_runtime.py).
use cairness.Base.{
  ℕ, zero, suc, ◌+◌, ◌-◌, ◌*◌, ◌/◌, ◌%◌, ltb, Bool, false, ◌&&◌, Option, none, some, List, [], ◌∷◌,
  if◌then◌else◌, leb, min,
}
use cairness.LoopRuntime.Session.{SessionState, PhaseTiming}

-- The integer nearest to `n / d`, the even one of two.
round_even : (n d : ℕ) → ℕ
round_even n d =
    let q = n / d in
    let twice = 2 * (n % d) in if ltb twice d then q else if ltb d twice then q + 1 else q + q % 2

-- The power of two by which `n` reaches `bound`.
scale : (fuel bound n power : ℕ) → ℕ
scale zero bound n power = power
scale (suc fuel) bound n power =
    let rest = scale fuel bound (2 * n) (2 * power) in if ltb n bound then rest else power

-- The power of two of which `n` has less than 2 ^ 53.
unit : (fuel n power : ℕ) → ℕ
unit zero n power = power
unit (suc fuel) n power =
    let rest = unit fuel n (2 * power) in if ltb n (9007199254740992 * power) then power else rest

-- `int(difference.total_seconds() * 1000)`, of microseconds: the quotient by a million and the
-- product are rounded to 53 bits. A microsecond has to be doubled 72 times until its quotient has 53
-- bits, and the product has at most 10 bits more.
truncated_ms : ℕ → ℕ
unfolding round_even scale unit
truncated_ms microseconds =
    let power = scale 72 4503599627370496000000 microseconds 1 in
    let product = round_even (microseconds * power) 1000000 * 1000 in
    let last = unit 11 product 1 in round_even product last * last / power

-- `_elapsed_ms` of two times in microseconds: `max(0, ...)` of their difference in milliseconds.
unfoldable pub elapsed_between : ℕ → ℕ → ℕ
unfolding truncated_ms
elapsed_between started_at ended_at = truncated_ms (ended_at - started_at)

-- A runtime event with its time, if that is a time, and the durations that are used. A duration is
-- `absent`, or present as a number that is not negative, or present and `invalid`.
pub data Duration : Type 0 where
  absent invalid : Duration
  lasting : ℕ → Duration

pub data RuntimeEvent : Type 0 where
  verification_run : Option ℕ → (duration_ms : Duration) → RuntimeEvent
  execution_run : Option ℕ → (tool_time_ms wall_time_ms : Duration) → RuntimeEvent
  other_event : RuntimeEvent

in_window : ℕ → ℕ → Option ℕ → Bool
in_window started_at ended_at none = false
in_window started_at ended_at (some t) = leb started_at t && leb t ended_at

counted : Duration → ℕ
counted absent = 0
counted invalid = 0
counted (lasting n) = n

-- `metrics.get("tool_time_ms", metrics.get("wall_time_ms"))`
tool_duration : Duration → Duration → Duration
tool_duration absent wall = wall
tool_duration tool wall = tool

-- The loop over the events: (tool_ms, verification_ms).
sum_durations : ℕ → ℕ → List RuntimeEvent → ℕ × ℕ
unfolding in_window counted tool_duration
sum_durations started_at ended_at [] = (0, 0)
sum_durations started_at ended_at (verification_run at d ∷ es) =
    let (tool, verification) = sum_durations started_at ended_at es in
    (tool, verification + (if in_window started_at ended_at at then counted d else 0))
sum_durations started_at ended_at (execution_run at d wall ∷ es) =
    let (tool, verification) = sum_durations started_at ended_at es in
    (
      tool + (if in_window started_at ended_at at then counted (tool_duration d wall) else 0),
      verification,
    )
sum_durations started_at ended_at (other_event ∷ es) = sum_durations started_at ended_at es

unfoldable pub runtime_durations : ℕ → ℕ → List RuntimeEvent → ℕ × ℕ
unfolding sum_durations
runtime_durations started_at ended_at es =
    let (tool, verification) = sum_durations started_at ended_at es in
    (tool + verification, verification)

unfoldable pub phase_timing : SessionState → ℕ → Bool → ℕ → ℕ → PhaseTiming
phase_timing state ended_at blocked tool_ms verification_ms =
    let elapsed_ms = elapsed_between state.phase_started_at ended_at in
    let blocked_ms = if blocked then elapsed_ms else state.phase_blocked_ms in
    let active_ms = elapsed_ms - state.phase_wait_ms - blocked_ms in
    record {
      elapsed_ms = elapsed_ms;
      active_ms = active_ms;
      wait_ms = state.phase_wait_ms;
      blocked_ms = blocked_ms;
      tool_ms = min active_ms tool_ms;
      verification_ms = min active_ms verification_ms;
    }
