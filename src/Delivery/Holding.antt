-- ===== src/Delivery/Holding.antt =====
-- The worker consumes exactly while its control file allows it, and what happens if a hold overtakes
-- a resumption (apps/telemetry-delivery-worker/src/runtime.js, control-state.js).
use frontend_observability.Base.{◌≡◌, ◌↔◌, refl, true, false, List, [], ◌∷◌, arith, if◌then◌else◌}
use frontend_observability.Base.Json.{Value, bool, get, is_plain_object}
use frontend_observability.Delivery.Control.{
  ControlState, ControlFile, env_missing, file_missing, file_unreadable, file_malformed, parsed,
  read_control_state, is_consumption_allowed, control_state_changed, hold_of,
}
use frontend_observability.Delivery.Consumers.{
  Worker, queues, begin_resume, consume_all, hold_consumers, control_tick,
}

hold_of_allowed : (v : Value) → (is_consumption_allowed (hold_of v) ≡ true) ↔ (v ≡ bool false)
hold_of_allowed v = (λ h. ground arith, λ h. rw h refl)

-- The control file allows consumption exactly if it was read and parsed to an object whose `hold` is
-- the Boolean false; in every other case, a missing or broken file included, it does not.
pub read_control_state-allowed :
    (file : ControlFile)
    → (is_consumption_allowed (read_control_state file) ≡ true)
      ↔ ((v : Value) × (file ≡ parsed v) × (is_plain_object v ≡ true) × (get "hold" v ≡ bool false))
unfolding read_control_state
read_control_state-allowed env_missing = (λ h. cc, λ h. absurd (ground arith))
read_control_state-allowed file_missing = (λ h. cc, λ h. absurd (ground arith))
read_control_state-allowed file_unreadable = (λ h. cc, λ h. absurd (ground arith))
read_control_state-allowed file_malformed = (λ h. cc, λ h. absurd (ground arith))
read_control_state-allowed (parsed value) = (
  λ h. (value, refl, ground arith, (hold_of_allowed (get "hold" value)).0 (ground arith)),
  λ h. ground arith,
)

-- A worker that is not shutting down follows its control state.
pub record Follows (w : Worker) : Type 0 where
  pub running : w.shutting_down ≡ false
  pub consumes : w.consuming ≡ is_consumption_allowed w.control_state
  pub connected : w.consumers ≡ (if is_consumption_allowed w.control_state then queues else [])

abbrev pub last_control : ControlState → List ControlState → ControlState
last_control c [] = c
last_control c (next ∷ rest) = last_control next rest

-- If a tick reads a hold while a resumption awaits the broker's answer for its first queue, then once
-- the resumption has ended the worker is held and yet consumes from both queues, and a further hold
-- changes nothing.
pub hold_overtakes_resume :
    (w : Worker)
    → Follows w
    → is_consumption_allowed w.control_state ≡ false
    → let allowed : ControlState = record { ready = true; held = false; reason = "hold_clear" } in
      let holding : ControlState = record {
        ready = true;
        held = true;
        reason = "hold_requested";
      } in
      let (resuming, to_consume) = begin_resume (record w { control_state = allowed }) in
      let late = consume_all to_consume (control_tick resuming holding) in
      (is_consumption_allowed late.control_state ≡ false)
      × (late.consuming ≡ false)
      × (late.consumers ≡ queues)
      × (hold_consumers late ≡ late)
unfolding begin_resume control_tick hold_consumers control_state_changed
hold_overtakes_resume w v held = (ground arith, ground arith, ground arith, ground arith)
