-- ===== src/Sdk/Enrichment.antt =====
-- correlation/enrich-rum-event.js and enrich-log-event.js.
--
-- An event is an object whose context may be written, or none for a value that is no object.
use frontend_observability.Base.{
  ℕ, suc, String, Bool, true, false, not, ◌&&◌, ◌||◌, Option, none, some, is_some, List, [], ◌∷◌,
  if◌then◌else◌, ◌==◌,
}
use frontend_observability.Base.Json.{
  Value, str, array, object, Fields, end, field, Elements, no_element, element, get_field,
  set_field, is_text, decimal, utf16_length,
}
use frontend_observability.Sdk.Counters.{Counters, redact, record_sanitization}
use frontend_observability.Sdk.Correlation.{CorrelationContext}
use frontend_observability.Sdk.NativeContext.{
  Native, first_of, is_correlation_id, strip_reserved_fields, extract_native_context, SdkContext,
  extract_native_context_from_sdk, count_if,
}

-- `metadata[key] = id` where the id is valid.
abbrev pub put_id : String → Option String → Fields → Fields
put_id key none fs = fs
put_id key (some s) fs = if is_correlation_id s then set_field key (str s) fs else fs

-- What createMetadata collects, written into the context at once.
unfoldable pub put_metadata : String → Native → Fields → Fields
put_metadata epoch native context =
    put_id "frontend-observability.correlation.action_id" native.action_id (
      put_id "frontend-observability.correlation.view_id" native.view_id (
        put_id "frontend-observability.correlation.session_id" native.session_id (
          put_id "frontend-observability.correlation.epoch_id" (some epoch)
            (set_field "frontend-observability.correlation.schema_version" (str "1") context))))

abbrev pub index_fields : ℕ → List Value → Fields
index_fields n [] = end
index_fields n (v ∷ vs) = field (decimal n) v (index_fields (suc n) vs)

abbrev pub texts : List String → List Value
texts [] = []
texts (s ∷ ss) = str s ∷ texts ss

abbrev pub elements_of : Elements → List Value
elements_of no_element = []
elements_of (element v vs) = v ∷ elements_of vs

-- A false result refuses the event, which is none then.
pub record Enriched : Type 0 where
  pub event : Option Fields
  pub correlation : CorrelationContext
  pub counters : Counters

unfoldable pub unavailable : CorrelationContext → Counters → Enriched
unavailable correlation counters = record {
  event = none;
  correlation = correlation;
  counters =
      record_sanitization (count_if true "unavailable" counters) redact
        ("CORRELATION_CONTEXT_UNAVAILABLE" ∷ []);
}

abbrev pub note_if : Bool → String → Counters → Counters
note_if true reason counters = record_sanitization counters redact (reason ∷ [])
note_if false reason counters = counters

module _ (code_units : String → List String) where
  -- The spread of a value, or of an empty object where it is null or undefined.
  abbrev pub spread : Value → Fields
  spread (object fs) = fs
  spread (array vs) = index_fields 0 (elements_of vs)
  spread (str s) = index_fields 0 (texts (code_units s))
  spread _ = end

  abbrev pub with_context : Fields → Fields → Fields
  with_context context event = set_field "context" (object context) event

  unfoldable pub enrich_rum_fields :
      Fields → Value → String → CorrelationContext → Counters → Enriched
  unfolding put_metadata
  enrich_rum_fields event domain epoch correlation counters =
      let stripped = strip_reserved_fields (get_field "context" event) counters in
      let context = spread stripped.0 in
      let noted = note_if stripped.1 "CORRELATION_RESERVED_FIELD_REMOVED" stripped.2 in
      let native = extract_native_context (object (with_context context event)) domain noted in
      let is_action = is_text "action" (get_field "type" event) in
      let complete =
        is_some native.0.session_id
        && is_some native.0.view_id
        && (not is_action || is_some native.0.action_id) in
      let counted = count_if true (if complete then "enriched" else "partial") native.1 in
      record {
        event = some (with_context (put_metadata epoch native.0 context) event);
        correlation = record correlation {
          native_session_id = first_of native.0.session_id correlation.native_session_id;
          native_view_id = first_of native.0.view_id correlation.native_view_id;
        };
        counters = note_if (not complete && is_action) "CORRELATION_ACTION_UNAVAILABLE" counted;
      }

  abbrev pub enrich_rum_with :
      Option Fields → Option String → Value → CorrelationContext → Counters → Enriched
  enrich_rum_with (some event) (some epoch) domain correlation counters =
      let enriched = enrich_rum_fields event domain epoch correlation counters in
      if utf16_length epoch == 0 then unavailable correlation counters else enriched
  enrich_rum_with _ _ domain correlation counters = unavailable correlation counters

  unfoldable pub enrich_rum_event : Option Fields → Value → CorrelationContext → Counters → Enriched
  enrich_rum_event event domain correlation counters =
      enrich_rum_with event correlation.epoch_id domain correlation counters

  unfoldable pub enrich_log_fields :
      Fields → Value → SdkContext → String → CorrelationContext → Counters → Enriched
  unfolding put_metadata
  enrich_log_fields event domain sdk epoch correlation counters =
      let stripped = strip_reserved_fields (get_field "context" event) counters in
      let context = spread stripped.0 in
      let noted = note_if stripped.1 "CORRELATION_RESERVED_FIELD_REMOVED" stripped.2 in
      let from_event = extract_native_context (object (with_context context event)) domain noted in
      let from_sdk = extract_native_context_from_sdk sdk from_event.1 in
      let native : Native = record {
        session_id = first_of from_event.0.session_id from_sdk.0.session_id;
        view_id = first_of from_event.0.view_id from_sdk.0.view_id;
        action_id = first_of from_event.0.action_id from_sdk.0.action_id;
      } in
      let complete = is_some native.session_id && is_some native.view_id in
      record {
        event = some (with_context (put_metadata epoch native context) event);
        correlation = correlation;
        counters = count_if true (if complete then "enriched" else "partial") from_sdk.1;
      }

  abbrev pub enrich_log_with :
      Option Fields → Option String → Value → SdkContext → CorrelationContext → Counters → Enriched
  enrich_log_with (some event) (some epoch) domain sdk correlation counters =
      let enriched = enrich_log_fields event domain sdk epoch correlation counters in
      if utf16_length epoch == 0 then unavailable correlation counters else enriched
  enrich_log_with _ _ domain sdk correlation counters = unavailable correlation counters

  unfoldable pub enrich_log_event :
      Option Fields → Value → SdkContext → CorrelationContext → Counters → Enriched
  enrich_log_event event domain sdk correlation counters =
      enrich_log_with event correlation.epoch_id domain sdk correlation counters
