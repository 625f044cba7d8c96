-- ===== src/RuntimeControl/Schedule.antt =====
-- runtime-control/jitter.js and the delays of refresh-engine.js.
--
-- The offset is the nearest integer, halves upward, to the exact quotient, where the source rounds
-- a double. An offset below zero is written as a subtraction from the interval, which it never
-- exceeds.
use frontend_observability.Base.{
  ℕ, zero, suc, ◌+◌, ◌-◌, ◌*◌, ◌/◌, ◌%◌, Bool, leb, if◌then◌else◌, min, max,
}
use frontend_observability.RuntimeControl.Registry.{
  Registry, refresh_interval_ms, min_refresh_interval_ms, max_refresh_interval_ms,
}

-- `(attemptCount * 48271) % 2147483647`
abbrev pub jitter_step : ℕ → ℕ
jitter_step attempt = (attempt * 48271) % 2147483647

-- `Math.round(step / 2147483647 * bound * 2)`
abbrev pub rounded_offset : ℕ → ℕ → ℕ
rounded_offset step bound = (4 * (step * bound) + 2147483647) / 4294967294

unfoldable pub apply_jitter : ℕ → ℕ → ℕ
apply_jitter base attempt =
    let bound = base / 10 in
    if leb bound 0 then base else base + rounded_offset (jitter_step attempt) bound - bound

unfoldable pub clamp : ℕ → ℕ
clamp value = min max_refresh_interval_ms (max min_refresh_interval_ms value)

-- `BACKOFF_LADDER_MS[index]`
unfoldable pub ladder_rung : ℕ → ℕ
ladder_rung zero = 15000
ladder_rung (suc zero) = 30000
ladder_rung (suc (suc zero)) = 60000
ladder_rung (suc (suc (suc zero))) = 120000
ladder_rung (suc (suc (suc (suc i)))) = 300000

-- `Math.min(Math.max(0, consecutiveFailures - 1), BACKOFF_LADDER_MS.length - 1)`
abbrev pub rung_index : ℕ → ℕ
rung_index failures = min (failures - 1) 4

unfoldable pub next_delay_ms : Registry → Bool → ℕ
unfolding clamp apply_jitter ladder_rung
next_delay_ms r should_backoff =
    if should_backoff
    then clamp
        (apply_jitter (ladder_rung (rung_index r.consecutive_failures)) r.refresh_attempt_count)
    else clamp (apply_jitter refresh_interval_ms r.refresh_attempt_count)
