-- ===== src/Delivery/Redaction.antt =====
-- packages/telemetry-delivery-core/src/redaction.js: the sanitization of a batch.
--
-- The URL class is a parameter: what an address prints as once its user, password, query and fragment
-- are cleared, none where the constructor throws. The values are those that `JSON.parse` returns, of
-- objects without a field named `__proto__`. A SanitizationError is its code. Texts are cut by UTF-16
-- units; of a pair that the cut splits, nothing is kept.
use Prim.Native.Char.{code}
use frontend_observability.Base.{
  ℕ, ◌+◌, String, Bool, true, false, not, ◌&&◌, ◌||◌, Option, none, some, List, [], ◌∷◌, ◌++◌, ◌==◌,
  ltb, if◌then◌else◌, includes, length, or_else,
}
use frontend_observability.Base.Json.{
  is_string, is_finite, set_field, Value, undefined, null, bool, num, str, array, object, Fields,
  end, field, Elements, no_element, element, get, get_field, field_names, items, utf16_length,
  slice_units,
}
use frontend_observability.Base.Regex.{replace_all, test}
use frontend_observability.Base.Try.{Try, done, failed, ◌>>=◌}
use frontend_observability.Delivery.Routing.{Signal, rum, logs}
use frontend_observability.Delivery.Patterns.{
  has_secret, ipv4_pattern, ipv6_pattern, email_pattern, long_numeric_id_pattern, url_pattern,
  path_query_pattern, unsafe_text_pattern, drop_telemetry_keys, should_drop_key, should_reject_key,
  is_safe_key,
}

pub data SanitizationCode : Type 0 where
  payload_not_object_or_array payload_too_deep unsafe_number array_too_large unsafe_object
        object_too_large unsafe_key unknown_rum_type missing_session_id unknown_log_shape
        secret_detected :
      SanitizationCode
  unsafe_field : String → SanitizationCode

abbrev pub Sanitizing {ℓ} : Type ℓ → Type ℓ
Sanitizing A = Try SanitizationCode A

abbrev pub max_depth : ℕ
max_depth = 8

abbrev pub max_array_items : ℕ
max_array_items = 200

abbrev pub max_object_keys : ℕ
max_object_keys = 80

abbrev pub max_string_length : ℕ
max_string_length = 4096

-- `$1$2`: the part of a match before its `?` or `#`.
abbrev pub before_query : String → String
before_query String.[] = String.[]
before_query (String.◌∷◌ c s) =
    if code c == b'?' || code c == b'#' then String.[] else String.◌∷◌ c (before_query s)

-- One `if` of normalizeRumIdentityFields.
unfoldable pub adopt : (identity name : String) → Fields → Fields
adopt identity name event =
    let nested = get "id" (get_field name event) in
    if not (is_string (get_field identity event)) && is_string nested
    then set_field identity nested event
    else event

unfoldable pub normalize_rum_identity_fields : Fields → Fields
unfolding adopt
normalize_rum_identity_fields event =
    adopt "error_id" "error"
      (adopt "action_id" "action" (adopt "view_id" "view" (adopt "session_id" "session" event)))

abbrev pub rum_types : List String
rum_types = "view" ∷ "action" ∷ "resource" ∷ "error" ∷ "long_task" ∷ "vital" ∷ []

abbrev pub is_one_of : List String → Value → Bool
is_one_of allowed (str s) = includes allowed s
is_one_of allowed _ = false

abbrev pub is_filled : Value → Bool
is_filled (str s) = not (utf16_length s == 0)
is_filled _ = false

unfoldable pub enforce_signal_shape : Signal → Fields → Sanitizing Fields
unfolding normalize_rum_identity_fields
enforce_signal_shape rum event =
    let normal = normalize_rum_identity_fields event in
    if not (is_one_of rum_types (get_field "type" normal))
    then failed unknown_rum_type
    else if not (is_filled (get_field "session_id" normal))
    then failed missing_session_id
    else done normal
enforce_signal_shape logs event =
    if not (is_string (get_field "message" event)) && not (is_string (get_field "status" event))
    then failed unknown_log_shape
    else done event

-- `context` of sanitizeNode.
pub record Context : Type 0 where
  pub signal : Signal
  pub path : List String
  pub depth : ℕ

abbrev pub below : Context → String → Context
below context key = record context { path = context.path ++ key ∷ []; depth = context.depth + 1 }

abbrev pub is_root : List String → Bool
is_root [] = true
is_root (x ∷ xs) = false

-- On a text, or on what `JSON.stringify` makes of another value, a parameter.
unfoldable pub contains_unsafe_telemetry_text :
    (json_stringify : Value → Option String) → Value → Bool
contains_unsafe_telemetry_text json_stringify value =
    let of_text = λ (text : String).
      not (utf16_length text == 0) && (has_secret text || test unsafe_text_pattern text) in
    elim value [
      | str s ↦ of_text s
      | v ↦ elim (json_stringify v) [ some text ↦ of_text text | none ↦ false ]
    ]

-- The test of the depth, before what is done with the value.
abbrev pub within_depth : Context → Sanitizing Value → Sanitizing Value
within_depth context rest = if ltb max_depth context.depth then failed payload_too_deep else rest

-- Behind the loop over the entries: `if (context.path.length === 0) enforceSignalShape(...)`.
abbrev pub shape_root : Context → Fields → Sanitizing Value
shape_root context gs =
    if is_root context.path
    then (enforce_signal_shape context.signal gs >>= λ hs. done (object hs))
    else done (object gs)

unfoldable pub redact : String → String
redact text =
    replace_all ipv6_pattern (λ m. "[REDACTED_IP]")
      (replace_all ipv4_pattern (λ m. "[REDACTED_IP]")
        (replace_all long_numeric_id_pattern (λ m. "[REDACTED_ID]")
          (replace_all email_pattern (λ m. "[REDACTED_EMAIL]") text)))

unfoldable pub normalize_batch : Value → Sanitizing Elements
normalize_batch (array vs) = done vs
normalize_batch (object fs) = done (element (object fs) no_element)
normalize_batch _ = failed payload_not_object_or_array

abbrev pub root_context : Signal → Context
root_context signal = record { signal = signal; path = []; depth = 0 }

module _ (url_without_query : String → Option String) where
  unfoldable pub strip_query_and_fragment : String → String
  strip_query_and_fragment value =
      replace_all path_query_pattern before_query (
        replace_all url_pattern (λ match. or_else (url_without_query match) "[REDACTED_URL]") value)

  unfoldable pub sanitize_string : String → Sanitizing String
  unfolding redact
  sanitize_string input =
      let stripped = strip_query_and_fragment input in
      if has_secret stripped
      then failed secret_detected
      else done (redact (slice_units max_string_length stripped))

  unfoldable mutual
    pub sanitize_node : Value → Context → Sanitizing Value
    sanitize_node undefined context = within_depth context (failed unsafe_object)
    sanitize_node null context = within_depth context (done null)
    sanitize_node (bool b) context = within_depth context (done (bool b))
    sanitize_node (num n) context =
        within_depth context (if not (is_finite n) then failed unsafe_number else done (num n))
    sanitize_node (str s) context = within_depth context (sanitize_string s >>= λ t. done (str t))
    sanitize_node (array vs) context =
        let mapped = sanitize_elements vs (below context "[]") in
        within_depth context (
          if ltb max_array_items (length (items vs))
          then failed array_too_large
          else mapped >>= λ us. done (array us))
    sanitize_node (object fs) context =
        let sanitized = sanitize_fields fs context in
        within_depth context (
          if ltb max_object_keys (length (field_names fs))
          then failed object_too_large
          else sanitized >>= shape_root context)

    -- `value.map((item) => sanitizeNode(item, inner))`
    pub sanitize_elements : Elements → Context → Sanitizing Elements
    sanitize_elements no_element inner = done no_element
    sanitize_elements (element v vs) inner =
        let behind = sanitize_elements vs inner in
        do u ← sanitize_node v inner; us ← behind; done (element u us)

    -- The loop over the entries of an object.
    pub sanitize_fields : Fields → Context → Sanitizing Fields
    sanitize_fields end context = done end
    sanitize_fields (field key child fs) context =
        let behind = sanitize_fields fs context in
        let node = sanitize_node child (below context key) in
        if not (is_safe_key key)
        then failed unsafe_key
        else if includes drop_telemetry_keys key
        then behind
        else if should_reject_key key
        then failed (unsafe_field key)
        else if should_drop_key key
        then behind
        else do u ← node; gs ← behind; done (field key u gs)

  unfoldable pub sanitize_browser_batch : Value → Signal → Sanitizing Elements
  unfolding normalize_batch sanitize_node
  sanitize_browser_batch payload signal = do
    events ← normalize_batch payload
    sanitize_elements events (root_context signal)
