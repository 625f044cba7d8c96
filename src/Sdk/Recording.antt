-- ===== src/Sdk/Recording.antt =====
-- actions/record-action.js and errors/record-error.js.
--
-- The sanitizer's result on the arguments, and whether the adapter's call throws, are arguments. The
-- call that is made, if any, is part of the result; with no adapter the call is a fault before it is
-- made.
use frontend_observability.Base.{
  ℕ, String, Bool, true, false, not, ◌||◌, Option, none, some, List, [], ◌∷◌, if◌then◌else◌,
  is_some,
}
use frontend_observability.Base.Json.{Value, undefined, null, object}
use frontend_observability.RuntimeControl.Registry.{Registry}
use frontend_observability.RuntimeControl.Apply.{is_collection_gate_open}
use frontend_observability.Sdk.Counters.{Decision, drop, increment_counter, record_sanitization}
use frontend_observability.Sdk.Lifecycle.{Runtime, active, same_state, degrade_runtime}
use frontend_observability.Sdk.Consent.{is_granted}

-- A result of sanitizeAction or sanitizeError; the values are what goes to the adapter.
pub record Sanitized : Type 0 where
  pub decision : Decision
  pub reasons : List String
  pub subject : Value
  pub attributes : Value

pub record RecordResult : Type 0 where
  pub ok : Bool
  pub reason_code : String
  pub call : Option (Value × Value)

abbrev pub is_plain_attributes : Value → Bool
is_plain_attributes undefined = true
is_plain_attributes null = true
is_plain_attributes (object fs) = true
is_plain_attributes _ = false

abbrev pub first_reason : List String → String → String
first_reason [] fallback = fallback
first_reason (r ∷ rs) fallback = r

abbrev pub is_drop : Decision → Bool
is_drop drop = true
is_drop _ = false

-- `incrementCounter(runtime.counters, key)`
abbrev pub counted : Runtime → String → Runtime
counted r key = record r { counters = (increment_counter r.counters key).0 }

abbrev pub refused : Runtime → String → String → Runtime × RecordResult
refused r key reason_code =
    (counted r key, record { ok = false; reason_code = reason_code; call = none })

unfoldable pub record_action :
    Runtime → Registry → Value → Sanitized → Bool → ℕ → Runtime × RecordResult
unfolding degrade_runtime
record_action r registry attributes sanitized throws now =
    let s : Runtime = record r {
      counters = record_sanitization r.counters sanitized.decision sanitized.reasons;
    } in
    if not (same_state r.state active) || not r.accepting_events
    then refused r "droppedActions" "NOT_ACTIVE"
    else if not (is_collection_gate_open registry now)
    then refused r "droppedActions" "RUNTIME_CONTROL_GATE_CLOSED"
    else if not (is_granted r.consent)
    then refused r "droppedActions" "CONSENT_NOT_GRANTED"
    else if not (is_plain_attributes attributes)
    then refused r "droppedActions" "INVALID_ACTION"
    else if is_drop sanitized.decision
    then refused s "droppedActions" (first_reason sanitized.reasons "INVALID_ACTION")
    else if not (is_some r.adapter_instance)
    then (
      (degrade_runtime (counted s "droppedActions") "ADAPTER_ERROR" now).0,
      record { ok = false; reason_code = "ADAPTER_ERROR"; call = none },
    )
    else if throws
    then (
      (degrade_runtime (counted s "droppedActions") "ADAPTER_ERROR" now).0,
      record {
        ok = false;
        reason_code = "ADAPTER_ERROR";
        call = some (sanitized.subject, sanitized.attributes);
      },
    )
    else (
      counted s "acceptedActions",
      record {
        ok = true;
        reason_code = "NONE";
        call = some (sanitized.subject, sanitized.attributes);
      },
    )

unfoldable pub record_error :
    Runtime → Registry → Value → Sanitized → Bool → ℕ → Runtime × RecordResult
unfolding degrade_runtime
record_error r registry context sanitized throws now =
    let s : Runtime = record r {
      counters = record_sanitization r.counters sanitized.decision sanitized.reasons;
    } in
    if not (same_state r.state active) || not r.accepting_events
    then refused r "droppedErrors" "NOT_ACTIVE"
    else if not (is_collection_gate_open registry now)
    then refused r "droppedErrors" "RUNTIME_CONTROL_GATE_CLOSED"
    else if not (is_granted r.consent)
    then refused r "droppedErrors" "CONSENT_NOT_GRANTED"
    else if not (is_plain_attributes context)
    then refused r "droppedErrors" "INVALID_ERROR"
    else if is_drop sanitized.decision
    then refused s "droppedErrors" (first_reason sanitized.reasons "INVALID_ERROR")
    else if not (is_some r.adapter_instance)
    then (
      (degrade_runtime (counted s "droppedErrors") "ADAPTER_ERROR" now).0,
      record { ok = false; reason_code = "ADAPTER_ERROR"; call = none },
    )
    else if throws
    then (
      (degrade_runtime (counted s "droppedErrors") "ADAPTER_ERROR" now).0,
      record {
        ok = false;
        reason_code = "ADAPTER_ERROR";
        call = some (sanitized.subject, sanitized.attributes);
      },
    )
    else (
      counted s "acceptedErrors",
      record {
        ok = true;
        reason_code = "NONE";
        call = some (sanitized.subject, sanitized.attributes);
      },
    )
