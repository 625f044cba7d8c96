-- ===== src/Delivery/PayloadTests.antt =====
-- Examples for the sanitization and the building of messages.
use frontend_observability.Base.{
  String, true, Option, none, some, [], ◌∷◌, ◌≡◌, refl, length, includes,
}
use frontend_observability.Base.Json.{
  Value, undefined, null, str, num, nat, array, object, end, field, element, no_element, Elements,
  get, items,
}
use frontend_observability.Base.Regex.{search_from, ends, many_from, replace_from}
use frontend_observability.Base.Text.{Text, trim, is_space}
use frontend_observability.Base.Try.{done, failed}
use frontend_observability.Delivery.Routing.{logs, rum}
use frontend_observability.Delivery.Patterns.{
  secret_key_pattern, unsafe_field_pattern, secret_value_patterns, ipv4_pattern, ipv6_pattern,
  email_pattern, long_numeric_id_pattern, url_pattern, path_query_pattern, unsafe_text_pattern,
  safe_key_pattern, should_drop_key, should_reject_key, is_safe_key, has_secret,
}
use frontend_observability.Delivery.Redaction.{
  secret_detected, sanitize_string, redact, strip_query_and_fragment, sanitize_browser_batch,
  contains_unsafe_telemetry_text, normalize_batch, sanitize_node, enforce_signal_shape,
}
use frontend_observability.Delivery.Clean.{AreClean}
use frontend_observability.Delivery.Redacted.{sanitize_browser_batch-AreClean}
use frontend_observability.Delivery.Shape.{names_proto, HaveShape, sanitize_browser_batch-HaveShape}
use frontend_observability.Delivery.Payload.{
  TrustedScope, Stamp, message_of, canonicalize_scope, build_durable_message,
}
use frontend_observability.Delivery.Scoped.{
  AllCarryScope, Passes, build_durable_message-AllCarryScope, build_durable_message-Passes,
}

abbrev no_url : String → Option String
no_url s = none

mail_is_redacted : sanitize_string no_url "by a@b.co" ≡ done "by [REDACTED_EMAIL]"
unfolding sanitize_string search_from ends many_from replace_from redact strip_query_and_fragment
    has_secret secret_value_patterns ipv4_pattern ipv6_pattern email_pattern long_numeric_id_pattern
    url_pattern path_query_pattern is_space
mail_is_redacted = refl

address_is_redacted : sanitize_string no_url "10.0.0.255 x" ≡ done "[REDACTED_IP] x"
unfolding sanitize_string search_from ends many_from replace_from redact strip_query_and_fragment
    has_secret secret_value_patterns ipv4_pattern ipv6_pattern email_pattern long_numeric_id_pattern
    url_pattern path_query_pattern is_space
address_is_redacted = refl

secret_is_found : sanitize_string no_url "my token=abcdef" ≡ failed secret_detected
unfolding sanitize_string search_from ends many_from replace_from redact strip_query_and_fragment
    has_secret secret_value_patterns ipv4_pattern ipv6_pattern email_pattern long_numeric_id_pattern
    url_pattern path_query_pattern is_space
secret_is_found = refl

query_is_stripped : sanitize_string no_url "GET /a?b=c d" ≡ done "GET /a d"
unfolding sanitize_string search_from ends many_from replace_from redact strip_query_and_fragment
    has_secret secret_value_patterns ipv4_pattern ipv6_pattern email_pattern long_numeric_id_pattern
    url_pattern path_query_pattern is_space
query_is_stripped = refl

url_is_cut : sanitize_string no_url "at http://h/x?y z" ≡ done "at [REDACTED_URL] z"
unfolding sanitize_string search_from ends many_from replace_from redact strip_query_and_fragment
    has_secret secret_value_patterns ipv4_pattern ipv6_pattern email_pattern long_numeric_id_pattern
    url_pattern path_query_pattern is_space
url_is_cut = refl

-- A log event whose own service is not the one the request was admitted for.
abbrev log_batch : Value
log_batch = object (field "message" (str "by a@b.co") (field "service" (str "x") end))

abbrev log_events : Elements
log_events = element log_batch no_element

abbrev clean_events : Elements
clean_events =
    element (object (field "message" (str "by [REDACTED_EMAIL]") (field "service" (str "x") end)))
      no_element

log_batch_sanitized : sanitize_browser_batch no_url log_batch logs ≡ done clean_events
unfolding sanitize_browser_batch sanitize_string search_from ends many_from replace_from redact
    strip_query_and_fragment has_secret secret_value_patterns ipv4_pattern ipv6_pattern
    email_pattern long_numeric_id_pattern url_pattern path_query_pattern is_space sanitize_node
    normalize_batch is_safe_key should_drop_key should_reject_key safe_key_pattern
    unsafe_field_pattern secret_key_pattern includes enforce_signal_shape
log_batch_sanitized = refl

log_batch_whole : normalize_batch log_batch ≡ done log_events
unfolding normalize_batch
log_batch_whole = refl

sanitize_browser_batch-AreClean_example :
    AreClean 0 clean_events × (length (items clean_events) ≡ length (items log_events))
sanitize_browser_batch-AreClean_example =
    sanitize_browser_batch-AreClean no_url log_batch logs log_events clean_events log_batch_whole
      log_batch_sanitized

sanitize_browser_batch-HaveShape_example : HaveShape logs clean_events
unfolding names_proto
sanitize_browser_batch-HaveShape_example =
    sanitize_browser_batch-HaveShape no_url logs log_batch clean_events refl log_batch_sanitized

abbrev parsed_as_log : Text → Option Value
parsed_as_log text = some log_batch

abbrev stamp : Stamp
stamp = record { event_id = "e"; batch_id = "b"; received_at = "2026-01-01T00:00:00.000Z" }

abbrev scope : TrustedScope
scope = record { service = "shop"; environment = "prod"; version = none }

abbrev scoped_events : Elements
scoped_events =
    element
      (object (
        field "message" (str "by [REDACTED_EMAIL]") (
          field "service" (str "shop") (field "env" (str "prod") (field "version" undefined end)))))
      no_element

log_message_built :
    build_durable_message no_url parsed_as_log logs (123 ∷ []) stamp (some scope)
    ≡ done (message_of logs stamp scoped_events)
unfolding build_durable_message trim is_space canonicalize_scope
log_message_built = rw log_batch_sanitized refl

build_durable_message-AllCarryScope_example :
    (payload : Elements) × (get "payload" (message_of logs stamp scoped_events) ≡ array payload)
    × AllCarryScope scope payload
build_durable_message-AllCarryScope_example =
    build_durable_message-AllCarryScope no_url parsed_as_log logs (123 ∷ []) stamp scope
      (message_of logs stamp scoped_events) log_message_built

build_durable_message-Passes_example : Passes logs (message_of logs stamp scoped_events)
build_durable_message-Passes_example =
    build_durable_message-Passes no_url parsed_as_log logs (123 ∷ []) stamp (some scope)
      (message_of logs stamp scoped_events) log_message_built

-- An event that is no object passes without a type or a session.
bare_events_pass :
    sanitize_browser_batch no_url (array (element null (element (num (nat 7)) no_element))) rum
    ≡ done (element null (element (num (nat 7)) no_element))
unfolding sanitize_browser_batch sanitize_node normalize_batch
bare_events_pass = refl

-- A text that the sanitization lets pass, and that the worker finds unsafe.
video_passes : sanitize_string no_url "video: x" ≡ done "video: x"
unfolding sanitize_string search_from ends many_from replace_from redact strip_query_and_fragment
    has_secret secret_value_patterns ipv4_pattern ipv6_pattern email_pattern long_numeric_id_pattern
    url_pattern path_query_pattern is_space
video_passes = refl

video_is_unsafe : contains_unsafe_telemetry_text (λ v. none) (str "video: x") ≡ true
unfolding sanitize_string search_from ends many_from replace_from redact strip_query_and_fragment
    has_secret secret_value_patterns ipv4_pattern ipv6_pattern email_pattern long_numeric_id_pattern
    url_pattern path_query_pattern is_space unsafe_text_pattern contains_unsafe_telemetry_text
video_is_unsafe = refl
