-- ===== src/Sdk/Coordinator.antt =====
-- bootstrap/coordinator.js, bootstrap/runtime-registry.js and lifecycle/shutdown.js.
--
-- Runtime objects live in a store and are named by references, since a start or a shutdown keeps its
-- object across an `await` while another may take its place as the current one. Each function runs
-- from one `await` to the next; what the awaited promise gave is an argument.
use frontend_observability.Base.{
  ℕ, ◌+◌, String, Bool, true, false, not, ◌&&◌, ◌||◌, Option, none, some, List, ◌∷◌, str_eq, ◌==◌,
  if◌then◌else◌, is_some,
}
use frontend_observability.RuntimeControl.Engine.{
  Engine, perform_initial_control_fetch, start_runtime_control_loop, stop_runtime_control_loop,
}
use frontend_observability.Sdk.Correlation.{grant_correlation_epoch, clear_correlation_context}
use frontend_observability.Sdk.Lifecycle.{
  LifecycleState, idle, initializing, active, disabled, degraded, shutting_down, shutdown,
  same_state, Runtime, Adapter, create_initial_runtime_state, transition, disable_runtime,
  activate_runtime, degrade_runtime,
}
use frontend_observability.Sdk.Consent.{is_granted}

-- Options that passed validateOptions, normalized.
pub record Identity : Type 0 where
  pub config_url : String
  pub service : String
  pub environment : String
  pub version : String

-- Equality of the texts that fingerprintOptions makes of them.
abbrev pub same_fingerprint : Option Identity → Identity → Bool
same_fingerprint none b = false
same_fingerprint (some a) b =
    str_eq a.config_url b.config_url
    && str_eq a.service b.service
    && str_eq a.environment b.environment
    && str_eq a.version b.version

-- The `await` at which the initialization in flight stands, and the runtime object that it holds.
pub data Pending : Type 0 where
  not_initializing : Pending
  awaiting_config awaiting_control awaiting_adapter : ℕ → Pending

pub record World : Type 0 where
  pub store : ℕ → Runtime
  pub current : ℕ
  pub next_ref : ℕ
  pub fingerprint : Option Identity
  pub lifecycle_generation : ℕ
  pub pending : Pending
  -- The runtime objects of the shutdowns that await the adapter.
  pub closing : List ℕ
  pub engine : Engine

pub record Result : Type 0 where
  pub ok : Bool
  pub state : LifecycleState
  pub reason_code : String

pub data Outcome : Type 0 where
  resolved : Result → Outcome
  joins_in_flight : Outcome
  waits : Outcome

abbrev pub update : (ℕ → Runtime) → ℕ → Runtime → ℕ → Runtime
update store ref r k = if k == ref then r else store k

abbrev pub write : World → ℕ → Runtime → World
write w ref r = record w { store = update w.store ref r }

-- `replaceRuntimeState(runtime)` for a new object.
abbrev pub replace_runtime : World → Runtime → World
replace_runtime w r = record w {
  store = update w.store w.next_ref r;
  current = w.next_ref;
  next_ref = w.next_ref + 1;
}

abbrev pub result_of : Bool → Runtime → Result
result_of ok r = record { ok = ok; state = r.state; reason_code = r.reason_code }

abbrev pub can_restart : LifecycleState → Bool
can_restart shutdown = true
can_restart disabled = true
can_restart _ = false

-- The world, and the reference of the object that is returned. Called on the current runtime.
unfoldable pub prepare_initialization_runtime : World → ℕ → World × ℕ
prepare_initialization_runtime w now =
    let r = w.store w.current in
    let fresh : Runtime = record (create_initial_runtime_state now) { consent = r.consent } in
    if same_state r.state idle
    then (write w w.current (transition r initializing "NONE" now).0, w.current)
    else if can_restart r.state
    then (replace_runtime w (transition fresh initializing "NONE" now).0, w.next_ref)
    else (w, w.current)

-- Disables the object, ends the initialization in flight and reports failure.
unfoldable pub give_up : World → ℕ → String → ℕ → World × Outcome
give_up w ref reason_code now =
    let r = (disable_runtime (w.store ref) reason_code now).0 in
    (write (record w { pending = not_initializing }) ref r, resolved (result_of false r))

-- runInitialization up to its first `await`.
unfoldable pub begin_initialization : World → Identity → Bool → ℕ → World × Outcome
begin_initialization w options is_browser now =
    let (prepared, ref) = prepare_initialization_runtime w now in
    let r = prepared.store ref in
    let named = write prepared ref (record r {
      service = some options.service;
      environment = some options.environment;
      version = some options.version;
      initialized_at = some now;
    }) in
    if not is_browser
    then give_up named ref "UNSUPPORTED_RUNTIME" now
    else (record named { pending = awaiting_config ref }, waits)

abbrev pub is_pending : Pending → Bool
is_pending not_initializing = false
is_pending _ = true

-- `none` for options that validateOptions refuses.
unfoldable pub initialize_coordinator : World → Option Identity → Bool → ℕ → World × Outcome
initialize_coordinator w none is_browser now =
    let (prepared, ref) = prepare_initialization_runtime w now in
    let r = (disable_runtime (prepared.store ref) "OPTIONS_INVALID" now).0 in
    (write prepared ref r, resolved (result_of false r))
initialize_coordinator w (some options) is_browser now =
    let r = w.store w.current in
    let conflict : Result = record {
      ok = false;
      state = r.state;
      reason_code = "INITIALIZATION_CONFLICT";
    } in
    if same_state r.state active || same_state r.state degraded
    then (
      w,
      resolved (if same_fingerprint w.fingerprint options then result_of true r else conflict),
    )
    else if is_pending w.pending
    then (w, if same_fingerprint w.fingerprint options then joins_in_flight else resolved conflict)
    else begin_initialization
        (record w { fingerprint = some options; lifecycle_generation = w.lifecycle_generation + 1 })
        options is_browser now

-- What loadConfig and mergePrivacyPolicy come to.
pub data ConfigResult : Type 0 where
  config_refused : String → ConfigResult
  config_loaded : (config_version : String) → (telemetry_enabled : Bool) → ConfigResult

-- Behind the first `await`, up to the second.
unfoldable pub after_config : World → ℕ → ConfigResult → ℕ → World × Outcome
after_config w ref (config_refused why) now = give_up w ref why now
after_config w ref (config_loaded config_version telemetry_enabled) now =
    let v = write w ref (record (w.store ref) { config_version = some config_version }) in
    if not telemetry_enabled then give_up v ref "CONFIG_DISABLED" now else (
      record v { pending = awaiting_control ref; engine = perform_initial_control_fetch v.engine },
      waits,
    )

abbrev pub needs_epoch : Runtime → Bool
needs_epoch r = is_granted r.consent && not (is_some r.correlation.epoch_id)

-- Behind the second `await`, up to the third; with the epoch that would be drawn.
unfoldable pub after_control : World → ℕ → Option String → ℕ → World × Outcome
after_control w ref drawn now =
    let r = w.store ref in
    let (context, drew) = grant_correlation_epoch r.correlation drawn in
    let begun = write w ref (record r { correlation = context }) in
    if not w.engine.registry.has_applied_once
    then give_up w ref "RUNTIME_CONTROL_UNAVAILABLE" now
    else if not (needs_epoch r)
    then (record w { pending = awaiting_adapter ref }, waits)
    else if not drew
    then give_up begun ref "CORRELATION_CONTEXT_UNAVAILABLE" now
    else (record begun { pending = awaiting_adapter ref }, waits)

-- What initializeAdapter comes to, the exception of the factory included.
pub data AdapterResult : Type 0 where
  adapter_up : Adapter → AdapterResult
  adapter_refused : String → AdapterResult
  adapter_threw adapter_unavailable : AdapterResult

-- Behind the third `await`; `logs_down` if the capabilities say that telemetry is up and logs are
-- not.
unfoldable pub after_adapter : World → ℕ → AdapterResult → Bool → Bool → ℕ → World × Outcome
after_adapter w ref (adapter_refused why) logs_down is_browser now = give_up w ref why now
after_adapter w ref adapter_threw logs_down is_browser now =
    let r = (degrade_runtime (w.store ref) "ADAPTER_ERROR" now).0 in
    (write (record w { pending = not_initializing }) ref r, resolved (result_of false r))
after_adapter w ref adapter_unavailable logs_down is_browser now =
    give_up w ref "ADAPTER_UNAVAILABLE" now
after_adapter w ref (adapter_up adapter) logs_down is_browser now =
    let up = (activate_runtime (w.store ref) adapter now).0 in
    let r = if logs_down then (transition up degraded "ADAPTER_ERROR" now).0 else up in
    (
      write
          (record w {
            pending = not_initializing;
            engine = start_runtime_control_loop w.engine is_browser;
          })
          ref r,
      resolved (result_of true r),
    )

-- shutdownObservability up to the end of its synchronous part.
unfoldable pub begin_shutdown : World → ℕ → World × Outcome
begin_shutdown w now =
    let r = w.store w.current in
    let stopped : Runtime = record r {
      accepting_events = false;
      correlation = clear_correlation_context r.correlation;
    } in
    if same_state r.state idle || same_state r.state shutdown
    then (w, resolved (record { ok = true; state = r.state; reason_code = "NONE" }))
    else (
      write
          (record w {
            engine = stop_runtime_control_loop w.engine;
            closing = w.current ∷ w.closing;
          })
          w.current (transition stopped shutting_down "SHUTDOWN" now).0,
      waits,
    )

-- The rest, once the adapter's calls are over, whether or not they threw.
unfoldable pub finish_shutdown : World → ℕ → List ℕ → ℕ → World × Outcome
finish_shutdown w ref others now =
    let r = w.store ref in
    let next : Runtime = record (create_initial_runtime_state now) {
      state = shutdown;
      consent = r.consent;
      service = r.service;
      environment = r.environment;
      version = r.version;
      initialized_at = r.initialized_at;
      counters = r.counters;
    } in
    (replace_runtime (record w { closing = others }) next, resolved (result_of true next))
