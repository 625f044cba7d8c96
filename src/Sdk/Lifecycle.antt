-- ===== src/Sdk/Lifecycle.antt =====
-- lifecycle/transitions.js and state-machine.js: the runtime object and its state machine.
use frontend_observability.Base.{
  ℕ, String, Bool, true, false, not, Option, none, some, List, [], ◌∷◌, or_else, if◌then◌else◌,
  ◌||◌,
}
use frontend_observability.Sdk.Reasons.{is_reason_code}
use frontend_observability.Sdk.Counters.{Counters, create_counters}
use frontend_observability.Sdk.Correlation.{CorrelationContext, create_correlation_context}

pub data LifecycleState : Type 0 where
  idle initializing active disabled degraded shutting_down shutdown : LifecycleState

abbrev pub same_state : LifecycleState → LifecycleState → Bool
same_state idle idle = true
same_state initializing initializing = true
same_state active active = true
same_state disabled disabled = true
same_state degraded degraded = true
same_state shutting_down shutting_down = true
same_state shutdown shutdown = true
same_state _ _ = false

-- The table TRANSITIONS.
abbrev pub targets : LifecycleState → List LifecycleState
targets idle = initializing ∷ []
targets initializing = active ∷ disabled ∷ degraded ∷ []
targets active = degraded ∷ shutting_down ∷ []
targets degraded = shutting_down ∷ []
targets disabled = initializing ∷ shutting_down ∷ []
targets shutting_down = shutdown ∷ []
targets shutdown = initializing ∷ []

abbrev pub includes_state : List LifecycleState → LifecycleState → Bool
includes_state [] s = false
includes_state (t ∷ ts) s = same_state t s || includes_state ts s

unfoldable pub can_transition : LifecycleState → LifecycleState → Bool
can_transition from to = includes_state (targets from) to

pub data Consent : Type 0 where
  granted not_granted : Consent

-- An adapter that passed isValidAdapter: its name, and a number that tells the instances apart.
pub record Adapter : Type 0 where
  pub name : String
  pub instance_id : ℕ

pub record Runtime : Type 0 where
  pub state : LifecycleState
  pub enabled : Bool
  pub consent : Consent
  pub service : Option String
  pub environment : Option String
  pub version : Option String
  pub config_version : Option String
  pub adapter : Option String
  pub adapter_instance : Option Adapter
  pub reason_code : String
  pub initialized_at : Option ℕ
  pub last_transition_at : ℕ
  pub counters : Counters
  pub correlation : CorrelationContext
  pub accepting_events : Bool

unfoldable pub create_initial_runtime_state : ℕ → Runtime
create_initial_runtime_state now = record {
  state = idle;
  enabled = false;
  consent = not_granted;
  service = none;
  environment = none;
  version = none;
  config_version = none;
  adapter = none;
  adapter_instance = none;
  reason_code = "NONE";
  initialized_at = none;
  last_transition_at = now;
  counters = create_counters;
  correlation = create_correlation_context;
  accepting_events = true;
}

unfoldable pub normalize_reason_code : String → String
normalize_reason_code reason_code =
    if is_reason_code reason_code then reason_code else "INTERNAL_ERROR"

-- The Boolean is the field `ok` of the result.
unfoldable pub transition : Runtime → LifecycleState → String → ℕ → Runtime × Bool
transition r next_state reason_code now =
    if same_state r.state next_state
    then (
      record r { reason_code = normalize_reason_code reason_code; last_transition_at = now },
      true,
    )
    else if not (can_transition r.state next_state)
    then (r, false)
    else (
      record r {
        state = next_state;
        reason_code = normalize_reason_code reason_code;
        last_transition_at = now;
      },
      true,
    )

unfoldable pub disable_runtime : Runtime → String → ℕ → Runtime × Bool
unfolding transition
disable_runtime r reason_code now =
    transition
      (record r {
        enabled = false;
        adapter = none;
        adapter_instance = none;
        accepting_events = false;
      })
      disabled reason_code now

unfoldable pub activate_runtime : Runtime → Adapter → ℕ → Runtime × Bool
unfolding transition
activate_runtime r adapter now =
    transition
      (record r {
        enabled = true;
        adapter = some adapter.name;
        adapter_instance = some adapter;
        accepting_events = true;
        initialized_at = some (or_else r.initialized_at now);
      })
      active "NONE" now

unfoldable pub degrade_runtime : Runtime → String → ℕ → Runtime × Bool
unfolding transition
degrade_runtime r reason_code now =
    transition (record r { enabled = true }) degraded reason_code now
