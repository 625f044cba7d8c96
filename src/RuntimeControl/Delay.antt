-- ===== src/RuntimeControl/Delay.antt =====
-- Bounds on the jitter and on the delay before the next refresh (runtime-control/jitter.js,
-- refresh-engine.js).
use frontend_observability.Base.{
  ℕ, zero, suc, ◌+◌, ◌*◌, ◌/◌, ◌≤◌, ◌<◌, Bool, true, false, arith, if◌then◌else◌,
}
use frontend_observability.RuntimeControl.Registry.{Registry}
use frontend_observability.RuntimeControl.Schedule.{
  jitter_step, rounded_offset, apply_jitter, clamp, ladder_rung, rung_index, next_delay_ms,
}

jitter_step_lt : (attempt : ℕ) → jitter_step attempt < 2147483647
jitter_step_lt attempt = omega arith

-- With the step below the modulus the rounded offset is at most twice the bound.
rounded_offset_le : (step bound : ℕ) → step < 2147483647 → rounded_offset step bound ≤ 2 * bound
rounded_offset_le step bound h = omega (arith, scaled)
  where
    scaled : step * bound ≤ 2147483647 * bound
    scaled = grind arith

-- The jittered interval differs from the interval by at most a tenth of it, for every attempt.
pub apply_jitter_bounds :
    (base attempt : ℕ)
    → (base ≤ apply_jitter base attempt + base / 10)
      × (apply_jitter base attempt ≤ base + base / 10)
unfolding apply_jitter
apply_jitter_bounds base attempt =
    let small = rounded_offset_le (jitter_step attempt) (base / 10) (jitter_step_lt attempt) in
    ground (arith, small)

-- The interval that the failures on record call for, before jitter and clamp.
pub base_interval : Registry → Bool → ℕ
base_interval r should_backoff =
    if should_backoff then ladder_rung (rung_index r.consecutive_failures) else 30000

clamp_near :
    (base v : ℕ)
    → 15000 ≤ base
    → base ≤ 300000
    → base ≤ v + base / 10
    → v ≤ base + base / 10
    → (15000 ≤ clamp v)
      × (clamp v ≤ 300000)
      × (base ≤ clamp v + base / 10)
      × (clamp v ≤ base + base / 10)
unfolding clamp
clamp_near base v lo hi near above = omega arith

ladder_rung_range : (i : ℕ) → (15000 ≤ ladder_rung i) × (ladder_rung i ≤ 300000)
unfolding ladder_rung
ladder_rung_range zero = omega arith
ladder_rung_range (suc zero) = omega arith
ladder_rung_range (suc (suc zero)) = omega arith
ladder_rung_range (suc (suc (suc zero))) = omega arith
ladder_rung_range (suc (suc (suc (suc i)))) = omega arith

-- Every delay lies between 15 and 300 seconds, and within a tenth of the interval called for:
-- 30 seconds after a success, and after n failures in a row the rung min (n - 1, 4) of the ladder.
pub next_delay_bounds :
    (r : Registry) (should_backoff : Bool)
    → let base = base_interval r should_backoff in
      (15000 ≤ next_delay_ms r should_backoff)
      × (next_delay_ms r should_backoff ≤ 300000)
      × (base ≤ next_delay_ms r should_backoff + base / 10)
      × (next_delay_ms r should_backoff ≤ base + base / 10)
unfolding next_delay_ms base_interval
next_delay_bounds r true =
    let rung = ladder_rung (rung_index r.consecutive_failures) in
    let (lo, hi) = ladder_rung_range (rung_index r.consecutive_failures) in
    let (near, above) = apply_jitter_bounds rung r.refresh_attempt_count in
    clamp_near rung (apply_jitter rung r.refresh_attempt_count) lo hi near above
next_delay_bounds r false =
    let (near, above) = apply_jitter_bounds 30000 r.refresh_attempt_count in
    clamp_near 30000 (apply_jitter 30000 r.refresh_attempt_count) (omega arith) (omega arith) near
      above
