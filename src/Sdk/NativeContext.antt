-- ===== src/Sdk/NativeContext.antt =====
-- correlation/validate-correlation-id.js, reserved-fields.js and extract-native-context.js.
--
-- A context that is spread is an object, an array, a text or nothing to spread; which texts the code
-- units of a text are is a parameter. Objects have data properties only.
use frontend_observability.Base.{
  ℕ, String, Bool, true, false, not, ◌&&◌, ◌||◌, Option, none, some, List, [], ◌∷◌, leb, ltb,
  if◌then◌else◌,
}
use frontend_observability.Base.Json.{
  Value, undefined, null, str, object, Fields, end, field, get, utf16_length,
}
use frontend_observability.Base.Regex.{Regex, one, sequence, at_start, at_end, some_of, test}
use frontend_observability.Sanitization.Strings.{
  contains_secret, is_reserved_object_key, normalize_key_for_policy, has_any_word,
}
use frontend_observability.Sdk.Counters.{Counters, record_correlation}

-- `^[\x20-\x7e]+$`
unfoldable pub safe_id_pattern : Regex
safe_id_pattern = sequence (at_start ∷ some_of (one (λ c. leb 32 c && leb c 126)) ∷ at_end ∷ [])

abbrev pub max_id_length : ℕ
max_id_length = 128

unfoldable pub is_correlation_id : String → Bool
is_correlation_id s =
    ltb 0 (utf16_length s)
    && leb (utf16_length s) max_id_length
    && test safe_id_pattern s
    && not (contains_secret s)

abbrev pub validate_correlation_id : Value → Bool
validate_correlation_id (str s) = is_correlation_id s
validate_correlation_id _ = false

abbrev pub reserved_key_categories : List String
reserved_key_categories =
    "frontendobservability" ∷ "correlation" ∷ "session" ∷ "view" ∷ "action" ∷ "trace" ∷ "span"
    ∷ "dd" ∷ []

unfoldable pub is_reserved_correlation_key : String → Bool
is_reserved_correlation_key key =
    is_reserved_object_key key
    || has_any_word reserved_key_categories (normalize_key_for_policy key)

unfoldable pub keep_free_fields : Fields → Fields
keep_free_fields end = end
keep_free_fields (field key item fs) =
    let next = keep_free_fields fs in
    if is_reserved_correlation_key key then next else field key item next

abbrev pub has_reserved_field : Fields → Bool
has_reserved_field end = false
has_reserved_field (field key item fs) = is_reserved_correlation_key key || has_reserved_field fs

abbrev pub count_if : Bool → String → Counters → Counters
count_if true key counters = (record_correlation counters key).0
count_if false key counters = counters

-- The value, whether a field was removed, and the counters.
unfoldable pub strip_reserved_fields : Value → Counters → Value × Bool × Counters
strip_reserved_fields (object fs) counters = (
  object (keep_free_fields fs),
  has_reserved_field fs,
  count_if (has_reserved_field fs) "reservedFieldRemoved" counters,
)
strip_reserved_fields value counters = (value, false, counters)

-- a, or b where a is null or undefined: the source's operator of two question marks
infixl 3 ◌//◌
abbrev pub ◌//◌ : Value → Value → Value
undefined // b = b
null // b = b
a // b = a

abbrev pub event_candidate : Value → Value
event_candidate event = object (
    field "sessionId" (get "id" (get "session" event) // get "session_id" event) (
      field "viewId" (get "id" (get "view" event) // get "view_id" event) (
        field "actionId"
          (get "id" (get "action" event)
            // get "action_id" event
            // get "id" (get "user_action" event))
          end)))

abbrev pub domain_candidate : Value → Value
domain_candidate domain = object (
    field "sessionId" (get "session_id" domain // get "id" (get "session" domain)) (
      field "viewId" (get "id" (get "view" domain) // get "view_id" domain) (
        field "actionId" (get "id" (get "user_action" domain) // get "id" (get "action" domain))
          end)))

pub record Native : Type 0 where
  pub session_id : Option String
  pub view_id : Option String
  pub action_id : Option String

abbrev pub no_native : Native
no_native = record { session_id = none; view_id = none; action_id = none }

abbrev pub read_id : Value → Option String
read_id (str s) = if is_correlation_id s then some s else none
read_id _ = none

abbrev pub first_of : Option String → Option String → Option String
first_of none b = b
first_of (some a) b = some a

abbrev pub take_candidate : Native → Value → Native
take_candidate output candidate = record {
  session_id =
      first_of output.session_id
        (read_id (get "sessionId" candidate // get "session_id" candidate));
  view_id = first_of output.view_id (
      read_id
        (get "viewId" candidate // get "view_id" candidate // get "id" (get "view" candidate)));
  action_id = first_of output.action_id (
      read_id (
        get "actionId" candidate
        // get "action_id" candidate
        // get "id" (get "user_action" candidate)));
}

abbrev pub is_invalid_id : Value → Bool
is_invalid_id undefined = false
is_invalid_id null = false
is_invalid_id value = not (validate_correlation_id value)

unfoldable pub has_invalid_id : Value → Bool
has_invalid_id candidate =
    is_invalid_id (get "sessionId" candidate)
    || is_invalid_id (get "session_id" candidate)
    || is_invalid_id (get "viewId" candidate)
    || is_invalid_id (get "view_id" candidate)
    || is_invalid_id (get "id" (get "view" candidate))
    || is_invalid_id (get "actionId" candidate)
    || is_invalid_id (get "action_id" candidate)
    || is_invalid_id (get "id" (get "user_action" candidate))
    || is_invalid_id (get "id" (get "action" candidate))

-- A candidate that is no object has no fields, and changes nothing.
unfoldable pub take_candidates : Native → List Value → Native
take_candidates output [] = output
take_candidates output (candidate ∷ rest) = take_candidates (take_candidate output candidate) rest

unfoldable pub any_invalid : List Value → Bool
any_invalid [] = false
any_invalid (candidate ∷ rest) = has_invalid_id candidate || any_invalid rest

-- The reason code of the result is not read by the callers.
unfoldable pub first_valid_context : List Value → Counters → Native × Counters
first_valid_context candidates counters = (
  take_candidates no_native candidates,
  count_if (any_invalid candidates) "invalidNativeId" counters,
)

unfoldable pub extract_native_context : Value → Value → Counters → Native × Counters
extract_native_context event domain counters =
    first_valid_context (event_candidate event ∷ domain_candidate domain ∷ []) counters

-- What getInternalContext comes to.
pub data SdkContext : Type 0 where
  no_function context_threw : SdkContext
  returned : Value → SdkContext

unfoldable pub extract_native_context_from_sdk : SdkContext → Counters → Native × Counters
unfolding first_valid_context
extract_native_context_from_sdk no_function counters = (no_native, counters)
extract_native_context_from_sdk context_threw counters =
    (no_native, count_if true "unavailable" counters)
extract_native_context_from_sdk (returned context) counters =
    first_valid_context (context ∷ []) counters
