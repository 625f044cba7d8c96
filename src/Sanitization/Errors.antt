-- ===== src/Sanitization/Errors.antt =====
-- sanitization/sanitizers/error.js: the sanitization of an error and of a stack.
--
-- Whether a value is an instance of Error is an argument beside it. Reading a property of a value does
-- not throw.
use Prim.Native.Char.{code}
use frontend_observability.Base.{
  ℕ, zero, suc, ◌*◌, String, Bool, true, false, ◌||◌, Option, List, [], ◌∷◌, ◌==◌, if◌then◌else◌,
}
use frontend_observability.Base.Json.{
  is_string, Value, undefined, str, object, end, field, get, slice_units, utf16_length,
}
use frontend_observability.Base.Regex.{test}
use frontend_observability.Sanitization.Patterns.{error_name_pattern}
use frontend_observability.Sanitization.Results.{
  Result, accepted, dropped, is_drop, redact_or_accept, unique_reasons,
}
use frontend_observability.Sanitization.Strings.{sanitize_string, sanitize_text}
use frontend_observability.Sanitization.Attributes.{sanitize_attributes}

-- `stack.split("\n").slice(0, n).join("\n")`: the text before the n-th line break.
abbrev pub first_lines : ℕ → String → String
first_lines n String.[] = String.[]
first_lines zero (String.◌∷◌ c s) = String.[]
first_lines (suc n) (String.◌∷◌ c s) =
    let here = first_lines (suc n) s in
    let behind = first_lines n s in
    if code c == 10 then (if n == 0 then String.[] else String.◌∷◌ c behind) else String.◌∷◌ c here

-- What normalizeError returns.
pub record Normalized : Type 0 where
  pub name : String
  pub message : Value
  pub stack : Value

abbrev pub unknown_error : Normalized
unknown_error = record { name = "UnknownError"; message = str "Unknown error"; stack = undefined }

unfoldable pub sanitize_name : Value → String
sanitize_name (str s) = if test error_name_pattern s then slice_units 128 s else "Error"
sanitize_name _ = "Error"

abbrev pub text_or_empty : Value → Value
text_or_empty (str s) = str s
text_or_empty _ = str ""

abbrev pub text_or_undefined : Value → Value
text_or_undefined (str s) = str s
text_or_undefined _ = undefined

abbrev pub is_pre_normalized_error : Value → Bool
is_pre_normalized_error (object fs) = is_string (get "message" (object fs))
is_pre_normalized_error _ = false

-- Of a value that is no instance of Error.
abbrev pub normalize_other : Value → Normalized
normalize_other (str s) = record { name = "Error"; message = str s; stack = undefined }
normalize_other error =
    if is_pre_normalized_error error
    then record {
      name = sanitize_name (get "name" error);
      message = get "message" error;
      stack = text_or_undefined (get "stack" error);
    }
    else unknown_error

unfoldable pub normalize_error : (is_error : Bool) → Value → Normalized
unfolding sanitize_name
normalize_error true error = record {
  name = sanitize_name (get "name" error);
  message = text_or_empty (get "message" error);
  stack = text_or_undefined (get "stack" error);
}
normalize_error false error = normalize_other error

-- `results.find(isDrop)?.reasons?.[0] ?? SANITIZER_FAILURE`
abbrev pub first_reason : List Result → String
first_reason [] = "SANITIZER_FAILURE"
first_reason (r ∷ rs) =
    let behind = first_reason rs in
    if is_drop r
    then elim r.reasons [ [] ↦ "SANITIZER_FAILURE" | reason ∷ more ↦ reason ]
    else behind

module _ (url_without_query : String → Option String) (json_bytes : Value → ℕ) where
  unfoldable pub sanitize_stack : Value → Result
  sanitize_stack (str s) =
      if utf16_length s == 0
      then accepted undefined
      else sanitize_text url_without_query (slice_units (8 * 1024) (first_lines 20 s)) (8 * 1024)
  sanitize_stack _ = accepted undefined

  abbrev pub join_error : String → Result → Result → Result → Result
  join_error name message stack ctx =
      if is_drop message || is_drop stack || is_drop ctx
      then dropped (first_reason (message ∷ stack ∷ ctx ∷ []))
      else redact_or_accept
          (object (
            field "error"
              (object (
                field "name" (str name)
                  (field "message" message.value (field "stack" stack.value end))))
              (field "context" ctx.value end)))
          (unique_reasons (message ∷ stack ∷ ctx ∷ []))

  unfoldable pub sanitize_error : (is_error : Bool) → Value → Value → Result
  unfolding normalize_error sanitize_stack
  sanitize_error is_error error context =
      let normalized = normalize_error is_error error in
      join_error normalized.name (sanitize_string url_without_query normalized.message 512)
        (sanitize_stack normalized.stack)
        (sanitize_attributes url_without_query json_bytes context (4 * 1024) 12)
