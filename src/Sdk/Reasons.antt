-- ===== src/Sdk/Reasons.antt =====
-- diagnostics/reason-codes.js: the closed list of reason codes.
use frontend_observability.Base.{String, Bool, List, [], ◌∷◌, includes}

abbrev pub reason_codes : List String
reason_codes =
    "NONE" ∷ "OPTIONS_INVALID" ∷ "UNSUPPORTED_RUNTIME" ∷ "CONFIG_DISABLED" ∷ "CONFIG_UNAVAILABLE"
    ∷ "CONFIG_TIMEOUT" ∷ "CONFIG_TOO_LARGE" ∷ "CONFIG_HTTP_ERROR" ∷ "CONFIG_CONTENT_TYPE_INVALID"
    ∷ "CONFIG_JSON_INVALID" ∷ "CONFIG_SCHEMA_INVALID" ∷ "CONFIG_EXPIRED" ∷ "CONFIG_NOT_YET_VALID"
    ∷ "RUNTIME_CONTROL_UNAVAILABLE" ∷ "RUNTIME_CONTROL_GATE_CLOSED" ∷ "ADAPTER_UNAVAILABLE"
    ∷ "ADAPTER_ERROR" ∷ "ADAPTER_INITIALIZATION_FAILED" ∷ "SDK_REINITIALIZATION_UNSUPPORTED"
    ∷ "INITIALIZATION_CONFLICT" ∷ "INVALID_CONSENT" ∷ "CONSENT_NOT_GRANTED" ∷ "NOT_ACTIVE"
    ∷ "INVALID_ACTION" ∷ "INVALID_ERROR" ∷ "ACTION_NAME_INVALID" ∷ "ATTRIBUTE_KEY_FORBIDDEN"
    ∷ "ATTRIBUTE_VALUE_UNSAFE" ∷ "URL_INVALID" ∷ "URL_SCHEME_FORBIDDEN" ∷ "SENSITIVE_ROUTE_REDACTED"
    ∷ "PII_REDACTED" ∷ "SECRET_DETECTED" ∷ "PAYLOAD_TOO_LARGE" ∷ "UNKNOWN_EVENT_TYPE"
    ∷ "UNEDITABLE_SENSITIVE_FIELD" ∷ "SANITIZER_FAILURE" ∷ "CORRELATION_CONTEXT_UNAVAILABLE"
    ∷ "CORRELATION_NATIVE_ID_INVALID" ∷ "CORRELATION_RESERVED_FIELD_REMOVED"
    ∷ "CORRELATION_ENRICHMENT_FAILED" ∷ "CORRELATION_ACTION_UNAVAILABLE" ∷ "SHUTDOWN"
    ∷ "INTERNAL_ERROR" ∷ []

unfoldable pub is_reason_code : String → Bool
is_reason_code value = includes reason_codes value
