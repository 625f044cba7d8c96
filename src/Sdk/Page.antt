-- ===== src/Sdk/Page.antt =====
-- The events of a page that uses the browser package, in any order: calls of its public functions,
-- the promises that its initialization and its shutdown await, and the events of the refresh loop.
use frontend_observability.Base.{ℕ, String, ◌≡◌, ◌⊎◌, Bool, true, Option, none, List, [], ◌∷◌, ◌++◌}
use frontend_observability.Base.Json.{Value}
use frontend_observability.RuntimeControl.Engine.{Engine, new_page}
use frontend_observability.RuntimeControl.Engine
use frontend_observability.Sdk.Lifecycle.{create_initial_runtime_state}
use frontend_observability.Sdk.Consent.{set_consent}
use frontend_observability.Sdk.Recording.{Sanitized, record_action, record_error}
use frontend_observability.Sdk.Coordinator.{
  Identity, not_initializing, awaiting_config, awaiting_control, awaiting_adapter, World, write,
  initialize_coordinator, ConfigResult, after_config, after_control, AdapterResult, after_adapter,
  begin_shutdown, finish_shutdown,
}

unfoldable pub loaded_page : ℕ → World
unfolding create_initial_runtime_state
loaded_page now = record {
  store = λ k. create_initial_runtime_state now;
  current = 0;
  next_ref = 1;
  fingerprint = none;
  lifecycle_generation = 0;
  pending = not_initializing;
  closing = [];
  engine = new_page;
}

pub data Event (w : World) : World → Type 0 where
  initializes :
      (options : Option Identity) (is_browser : Bool) (now : ℕ)
      → Event w (initialize_coordinator w options is_browser now).0
  config_settles :
      (ref : ℕ) (result : ConfigResult) (now : ℕ)
      → w.pending ≡ awaiting_config ref
      → Event w (after_config w ref result now).0
  control_settles :
      (ref : ℕ) (drawn : Option String) (now : ℕ)
      → w.pending ≡ awaiting_control ref
      → (w.engine.in_flight ≡ none) ⊎ (w.engine.registry.has_applied_once ≡ true)
      → Event w (after_control w ref drawn now).0
  adapter_settles :
      (ref : ℕ) (result : AdapterResult) (logs_down is_browser : Bool) (now : ℕ)
      → w.pending ≡ awaiting_adapter ref
      → Event w (after_adapter w ref result logs_down is_browser now).0
  shuts_down : (now : ℕ) → Event w (begin_shutdown w now).0
  shutdown_ends :
      (ref : ℕ) (before behind : List ℕ) (now : ℕ)
      → w.closing ≡ before ++ ref ∷ behind
      → Event w (finish_shutdown w ref (before ++ behind) now).0
  consent_set :
      (value : Value) (drawn : Option String) (stop_throws set_throws : Bool) (now : ℕ)
      → Event w (
          write w w.current
            (set_consent (w.store w.current) value drawn stop_throws set_throws now).0)
  action_recorded :
      (attributes : Value) (sanitized : Sanitized) (throws : Bool) (now : ℕ)
      → Event w (
          write w w.current
            (record_action (w.store w.current) w.engine.registry attributes sanitized throws now).0)
  error_recorded :
      (context : Value) (sanitized : Sanitized) (throws : Bool) (now : ℕ)
      → Event w (
          write w w.current
            (record_error (w.store w.current) w.engine.registry context sanitized throws now).0)
  loop_event : {e : Engine} → Engine.Step w.engine e → Event w (record w { engine = e })

pub data History (now : ℕ) : World → Type 0 where
  loads : History now (loaded_page now)
  continues : {w w' : World} → History now w → Event w w' → History now w'
