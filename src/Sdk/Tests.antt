-- ===== src/Sdk/Tests.antt =====
-- Examples for the browser package: runtimes, consent and the histories of a page.
use frontend_observability.Base.{
  str_eq, ◌≡◌, ◌↔◌, inl, refl, true, false, none, some, [], ◌∷◌, if◌then◌else◌,
}
use frontend_observability.Base.Json.{Value, undefined, str, object, field, end, num, nat, bool}
use frontend_observability.RuntimeControl.Registry.{Document, Registry, create_initial_registry}
use frontend_observability.RuntimeControl.Apply.{
  fetched, apply_fetch_outcome, apply_document, accept_document, apply_kill_switch,
}
use frontend_observability.RuntimeControl.Engine.{
  new_page, perform_initial_control_fetch, run_refresh_cycle, settle, resume, settled,
}
use frontend_observability.Sdk.Counters.{accept, create_counters}
use frontend_observability.Sdk.Correlation.{create_correlation_context}
use frontend_observability.Sdk.Lifecycle.{
  initializing, active, shutdown, Runtime, Adapter, granted, not_granted, transition,
  create_initial_runtime_state, can_transition,
}
use frontend_observability.Sdk.Consent.{
  stop_session_replay, set_tracking_consent, apply_consent, has_adapter,
}
use frontend_observability.Sdk.Recording.{Sanitized, record_action, record_error}
use frontend_observability.Sdk.Privacy.{MaySend, record_action-sends, withdrawal_silences}
use frontend_observability.Sdk.Coordinator.{
  Identity, World, resolved, not_initializing, awaiting_adapter, config_loaded, adapter_up,
  begin_shutdown, finish_shutdown, after_adapter, after_control, after_config,
  initialize_coordinator, begin_initialization, prepare_initialization_runtime,
}
use frontend_observability.Sdk.Page.{
  loaded_page, initializes, config_settles, control_settles, adapter_settles, loop_event, History,
  loads, continues,
}
use frontend_observability.RuntimeControl.Fetch.{
  Platform, Attempt, responded, whole, application_json,
}
use frontend_observability.Sdk.Orphan.{late_adapter_starts_loop, invalid_options_drop_adapter}

abbrev adapter : Adapter
adapter = record { name = "openobserve"; instance_id = 1 }

abbrev live : Document
live = record {
  revision = 7;
  issued_at = record { text = "T1"; parsed = some 1000000 };
  expires_at = record { text = "T2"; parsed = some 1300000 };
  kill_switch = record { active = false; reason_code = "none" };
}

abbrev registry : Registry
registry = record create_initial_registry { current_document = some live; has_applied_once = true }

-- An active runtime with consent.
abbrev up : Runtime
up = record {
  state = active;
  enabled = true;
  consent = granted;
  service = none;
  environment = none;
  version = none;
  config_version = none;
  adapter = some "openobserve";
  adapter_instance = some adapter;
  reason_code = "NONE";
  initialized_at = none;
  last_transition_at = 1000000;
  counters = create_counters;
  correlation = record create_correlation_context { epoch_id = some "e1" };
  accepting_events = true;
}

abbrev sanitized : Sanitized
sanitized = record {
  decision = accept;
  reasons = [];
  subject = str "click";
  attributes = undefined;
}

record_action-sends_example :
    ((record_action up registry undefined sanitized false 1000100).1.call
      ≡ some (str "click", undefined))
    ↔ (MaySend up registry undefined sanitized 1000100
        × (◌≡◌ {A = Value × Value}
            (str "click", undefined)
            (sanitized.subject, sanitized.attributes)))
record_action-sends_example =
    record_action-sends up registry undefined sanitized false 1000100 (str "click", undefined)

withdrawal_silences_example :
    let (r', result) = apply_consent up not_granted none true false 1000100 in
    (result.ok ≡ true)
    × (r'.consent ≡ not_granted)
    × (r'.correlation.epoch_id ≡ none)
    × (r'.correlation.native_session_id ≡ none)
    × (r'.correlation.native_view_id ≡ none)
    × (result.calls ≡ (
        if has_adapter up then stop_session_replay ∷ set_tracking_consent not_granted ∷ [] else []))
    × ((record_action r' registry undefined sanitized false 1000200).1.call ≡ none)
    × ((record_error r' registry undefined sanitized false 1000200).1.call ≡ none)
withdrawal_silences_example =
    withdrawal_silences up true false 1000100 1000200 registry undefined sanitized false refl

abbrev options : Identity
options = record {
  config_url = "/config.json";
  service = "shop";
  environment = "production";
  version = "1.0.0";
}

abbrev configuring : World
configuring = (initialize_coordinator (loaded_page 1000000) (some options) true 1000000).0

abbrev fetching : World
fetching = (after_config configuring 0 (config_loaded "1" true) 1000010).0

abbrev controlled : World
controlled = record fetching {
  engine = settle fetching.engine (record { waiters = 0; aborted = false }) (fetched live) 1000100;
}

abbrev connecting : World
connecting = (after_control controlled 0 (some "e1") 1000110).0

abbrev running : World
running = (after_adapter connecting 0 (adapter_up adapter) false true 1000120).0

running_history : History 1000000 running
unfolding loaded_page initialize_coordinator begin_initialization prepare_initialization_runtime
    after_config after_control perform_initial_control_fetch run_refresh_cycle settle resume
    apply_fetch_outcome apply_document accept_document apply_kill_switch transition
    create_initial_runtime_state can_transition
running_history =
    continues
      (continues
        (continues
          (continues (continues loads (initializes (some options) true 1000000))
            (config_settles 0 (config_loaded "1" true) 1000010 refl))
          (loop_event
            (settled (record { waiters = 0; aborted = false }) (fetched live) 1000100 refl)))
        (control_settles 0 (some "e1") 1000110 refl (inl refl)))
      (adapter_settles 0 (adapter_up adapter) false true 1000120 refl)

abbrev live_value : Value
live_value = object (
    field "schemaVersion" (num (nat 1)) (
      field "revision" (num (nat 7)) (
        field "issuedAt" (str "T1") (
          field "expiresAt" (str "T2") (
            field "killSwitch"
              (object (field "active" (bool false) (field "reasonCode" (str "none") end))) end)))))

abbrev control_platform : Platform
control_platform = record {
  parse_json = λ text. some live_value;
  parse_date = λ s. if str_eq s "T1" then some 1000000 else some 1300000;
  decode_utf8 = λ bytes. bytes;
  encoded_length = λ text. 200;
}

abbrev live_response : Attempt
live_response = responded (record {
  status = 200;
  redirected = false;
  content_type = some application_json;
  body = whole [];
})

abbrev overtaken : World
overtaken = record {
  store = λ k. record up { state = initializing };
  current = 0;
  next_ref = 1;
  fingerprint = some options;
  lifecycle_generation = 1;
  pending = awaiting_adapter 0;
  closing = [];
  engine = new_page;
}

late_adapter_starts_loop_example :
    let closed = (finish_shutdown (begin_shutdown overtaken 1000000).0 0 [] 1000000).0 in
    let late = (after_adapter closed 0 (adapter_up adapter) false true 1000000).0 in
    (closed.pending ≡ awaiting_adapter 0)
    × ((late.store late.current).state ≡ shutdown)
    × (late.engine.loop_started ≡ true)
late_adapter_starts_loop_example =
    late_adapter_starts_loop overtaken adapter true 1000000 refl refl refl

abbrev serving : World
serving = record {
  store = λ k. up;
  current = 0;
  next_ref = 1;
  fingerprint = some options;
  lifecycle_generation = 1;
  pending = not_initializing;
  closing = [];
  engine = new_page;
}

invalid_options_drop_adapter_example :
    let call = initialize_coordinator serving none true 1000300 in
    let refused = call.0 in
    let r = refused.store refused.current in
    (call.1
      ≡ resolved (record {
        ok = false;
        state = active;
        reason_code = (serving.store serving.current).reason_code;
      }))
    × (r.state ≡ active)
    × (r.adapter_instance ≡ none)
    × (r.accepting_events ≡ false)
    × (initialize_coordinator refused (some options) true 1000300
        ≡ (refused, resolved (record { ok = true; state = active; reason_code = r.reason_code })))
invalid_options_drop_adapter_example =
    invalid_options_drop_adapter serving options true 1000300 refl refl
