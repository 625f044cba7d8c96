-- ===== src/Sanitization/Attributes.antt =====
-- sanitization/sanitizers/attributes.js and action.js.
--
-- The size of what `JSON.stringify` prints of a value is a parameter. Attributes are objects of data
-- properties, without accessors and with the usual prototype.
use frontend_observability.Base.{
  ℕ, ◌+◌, String, Bool, not, ◌&&◌, Option, List, [], ◌∷◌, ◌++◌, ◌==◌, ltb, leb, if◌then◌else◌,
  includes,
}
use frontend_observability.Base.Json.{
  is_finite, Value, undefined, null, bool, num, str, object, Fields, end, field, utf16_length,
}
use frontend_observability.Base.Regex.{test}
use frontend_observability.Sanitization.Patterns.{safe_key_pattern}
use frontend_observability.Sanitization.Results.{
  Result, accepted, redacted, dropped, is_drop, redact_or_accept, unique, byte_length,
}
use frontend_observability.Sanitization.Strings.{is_forbidden_key, is_secret_key, sanitize_string}

unfoldable pub is_safe_attribute_key : String → Bool
is_safe_attribute_key key =
    not (utf16_length key == 0) && leb (utf16_length key) 48 && test safe_key_pattern key

abbrev pub max_attribute_length : ℕ
max_attribute_length = 128

-- The loop's `sanitized`, `reasons`, `count` and `totalBytes`.
pub record Loop : Type 0 where
  pub sanitized : Fields
  pub reasons : List String
  pub count : ℕ
  pub total_bytes : ℕ

abbrev pub start_loop : Loop
start_loop = record { sanitized = end; reasons = []; count = 0; total_bytes = 0 }

abbrev pub append_field : String → Value → Fields → Fields
append_field k v end = field k v end
append_field k v (field j w fs) = field j w (append_field k v fs)

abbrev pub with_reasons : List String → Loop → Loop
with_reasons reasons l = record l { reasons = l.reasons ++ reasons }

-- What a round does: go on, leave the loop, or return a result from the function.
pub data Round : Type 0 where
  goes_on breaks : Loop → Round
  returns : Result → Round

module _ (url_without_query : String → Option String) (json_bytes : Value → ℕ) where
  unfoldable pub sanitize_attribute_value : Value → Result
  sanitize_attribute_value null = accepted null
  sanitize_attribute_value (bool b) = accepted (bool b)
  sanitize_attribute_value (num n) =
      if is_finite n then accepted (num n) else dropped "ATTRIBUTE_VALUE_UNSAFE"
  sanitize_attribute_value (str s) = sanitize_string url_without_query (str s) max_attribute_length
  sanitize_attribute_value _ = dropped "ATTRIBUTE_VALUE_UNSAFE"

  -- Behind the test of the value's decision.
  unfoldable pub store_attribute : ℕ → String → Result → Loop → Round
  store_attribute max_bytes key r l =
      let next_bytes = byte_length key + json_bytes r.value in
      if ltb max_bytes (l.total_bytes + next_bytes)
      then breaks (with_reasons ("PAYLOAD_TOO_LARGE" ∷ []) l)
      else goes_on (record {
        sanitized = append_field key r.value l.sanitized;
        reasons = l.reasons ++ r.reasons;
        count = l.count + 1;
        total_bytes = l.total_bytes + next_bytes;
      })

  -- The rest of a round, by the result for the value.
  unfoldable pub take_value : ℕ → String → Result → Loop → Round
  unfolding store_attribute
  take_value max_bytes key r l =
      if is_drop r
      then (if includes r.reasons "SECRET_DETECTED"
          then returns r
          else goes_on (with_reasons r.reasons l))
      else store_attribute max_bytes key r l

  -- A round of the loop.
  unfoldable pub take_attribute : ℕ → ℕ → String → Value → Loop → Round
  unfolding take_value sanitize_attribute_value
  take_attribute max_bytes max_items key value l =
      if leb max_items l.count
      then breaks l
      else if not (is_safe_attribute_key key)
      then goes_on (with_reasons ("ATTRIBUTE_KEY_FORBIDDEN" ∷ []) l)
      else if is_forbidden_key key
      then (if is_secret_key key
          then returns (dropped "SECRET_DETECTED")
          else goes_on (with_reasons ("ATTRIBUTE_KEY_FORBIDDEN" ∷ []) l))
      else take_value max_bytes key (sanitize_attribute_value value) l

  -- The result behind the loop.
  abbrev pub loop_result : Loop → Result
  loop_result l = redact_or_accept (object l.sanitized) (unique l.reasons)

  unfoldable pub run_loop : ℕ → ℕ → Fields → Loop → Result
  unfolding take_attribute
  run_loop max_bytes max_items end l = loop_result l
  run_loop max_bytes max_items (field key value fs) l =
      let behind = λ (next : Loop). run_loop max_bytes max_items fs next in
      elim (take_attribute max_bytes max_items key value l) [
        | goes_on next ↦ behind next
        | breaks final ↦ loop_result final
        | returns r ↦ r
      ]

  unfoldable pub sanitize_attributes : Value → (max_bytes max_items : ℕ) → Result
  unfolding run_loop
  sanitize_attributes undefined max_bytes max_items = accepted (object end)
  sanitize_attributes null max_bytes max_items = accepted (object end)
  sanitize_attributes (object fs) max_bytes max_items = run_loop max_bytes max_items fs start_loop
  sanitize_attributes _ max_bytes max_items = redacted (object end) ("ATTRIBUTE_VALUE_UNSAFE" ∷ [])

  -- With the limits of an action.
  abbrev pub sanitize_action_attributes : Value → Result
  sanitize_action_attributes attributes = sanitize_attributes attributes 2048 12
