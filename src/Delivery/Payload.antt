-- ===== src/Delivery/Payload.antt =====
-- packages/telemetry-delivery-core/src/payload.js: from the body of a request to a durable message.
--
-- `JSON.parse` is a parameter, none where it throws, and so is the URL class of redaction.js. The body
-- is its text in code units. The identifiers that are drawn and the time of receipt are arguments. A
-- text is spread into an object by its characters.
use frontend_observability.Base.{
  ℕ, suc, String, Bool, true, false, ◌||◌, Option, none, some, List, [], ◌∷◌, ◌==◌, if◌then◌else◌,
}
use frontend_observability.Base.Json.{
  set_field, Value, undefined, null, num, nat, str, array, object, Fields, end, field, Elements,
  no_element, element, get, decimal,
}
use frontend_observability.Base.Text.{Text, trim}
use frontend_observability.Base.Try.{Try, done, failed, ◌>>=◌}
use frontend_observability.Delivery.Routing.{Signal, rum, logs}
use frontend_observability.Delivery.Redaction.{SanitizationCode, sanitize_browser_batch}

pub data AdmissionCode : Type 0 where
  invalid_encoding empty_payload invalid_json payload_rejected : AdmissionCode
  sanitization : SanitizationCode → AdmissionCode

-- An AdmissionError.
pub record Refused : Type 0 where
  pub status : ℕ
  pub code : AdmissionCode

-- What buildDurableMessage throws: an AdmissionError, a SanitizationError, or a TypeError.
pub data BuildError : Type 0 where
  admission : Refused → BuildError
  sanitizing : SanitizationCode → BuildError
  type_error : BuildError

unfoldable pub map_sanitization_error : BuildError → Refused
map_sanitization_error (admission e) = e
map_sanitization_error (sanitizing code) = record { status = 400; code = sanitization code }
map_sanitization_error type_error = record { status = 400; code = payload_rejected }

abbrev pub bad_request : AdmissionCode → BuildError
bad_request code = admission (record { status = 400; code = code })

abbrev pub has_unit : ℕ → Text → Bool
has_unit u [] = false
has_unit u (c ∷ s) = c == u || has_unit u s

abbrev pub starts_with_newline : Text → Bool
starts_with_newline [] = false
starts_with_newline (c ∷ s) = c == 10

abbrev pub prepend : ℕ → List Text → List Text
prepend c [] = (c ∷ []) ∷ []
prepend c (line ∷ lines) = (c ∷ line) ∷ lines

-- `text.split(/\r?\n/)`
unfoldable pub split_lines : Text → List Text
split_lines [] = [] ∷ []
split_lines (c ∷ s) =
    let behind = split_lines s in
    if c == 10
    then [] ∷ behind
    else if c == 13
    then (if starts_with_newline s then behind else prepend c behind)
    else prepend c behind

-- `lines.filter(Boolean)`
abbrev pub filled_lines : List Text → List Text
filled_lines [] = []
filled_lines ([] ∷ lines) = filled_lines lines
filled_lines ((c ∷ s) ∷ lines) = (c ∷ s) ∷ filled_lines lines

abbrev pub is_nil {ℓ} : {A : Type ℓ} → List A → Bool
is_nil [] = true
is_nil (x ∷ xs) = false

abbrev pub parsed_or_bad : Option Value → Try BuildError Value
parsed_or_bad none = failed (bad_request invalid_json)
parsed_or_bad (some v) = done v

-- `lines.map((line) => JSON.parse(line))`
unfoldable pub parse_lines : (Text → Option Value) → List Text → Try BuildError Elements
parse_lines json_parse [] = done no_element
parse_lines json_parse (line ∷ lines) = do
  v ← parsed_or_bad (json_parse line)
  vs ← parse_lines json_parse lines
  done (element v vs)

unfoldable pub safe_decode : (Text → Option Value) → Text → Try BuildError Value
unfolding split_lines parse_lines
safe_decode json_parse text =
    let trimmed = trim text in
    let lines = filled_lines (split_lines trimmed) in
    if has_unit 0 text
    then failed (bad_request invalid_encoding)
    else if is_nil trimmed
    then failed (bad_request empty_payload)
    else elim (json_parse trimmed) [
      | some v ↦ done v
      | none ↦
          if is_nil lines
          then failed (bad_request invalid_json)
          else parse_lines json_parse lines >>= λ vs. done (array vs)
    ]

pub record TrustedScope : Type 0 where
  pub service : String
  pub environment : String
  pub version : Option String

abbrev pub indexed : ℕ → Elements → Fields
indexed i no_element = end
indexed i (element v vs) = field (decimal i) v (indexed (suc i) vs)

abbrev pub indexed_chars : ℕ → String → Fields
indexed_chars i String.[] = end
indexed_chars i (String.◌∷◌ c s) =
    field (decimal i) (str (String.◌∷◌ c String.[])) (indexed_chars (suc i) s)

-- `{...value}`
abbrev pub spread : Value → Fields
spread (object fs) = fs
spread (array vs) = indexed 0 vs
spread (str s) = indexed_chars 0 s
spread _ = end

-- `event.version`, a TypeError on null.
abbrev pub version_of : Value → Try BuildError Value
version_of null = failed type_error
version_of undefined = failed type_error
version_of event = done (get "version" event)

abbrev pub scope_version : Option String → Value → Try BuildError Value
scope_version (some v) event = done (str v)
scope_version none event = version_of event

unfoldable pub canonicalize_scope : Option TrustedScope → Value → Try BuildError Value
canonicalize_scope none event = done event
canonicalize_scope (some scope) event = do
  version ← scope_version scope.version event
  done (
      object (
        set_field "version" version (
          set_field "env" (str scope.environment)
            (set_field "service" (str scope.service) (spread event)))))

unfoldable pub canonicalize_all : Option TrustedScope → Elements → Try BuildError Elements
canonicalize_all scope no_element = done no_element
canonicalize_all scope (element v vs) =
    let behind = canonicalize_all scope vs in
    do u ← canonicalize_scope scope v; us ← behind; done (element u us)

abbrev pub signal_text : Signal → String
signal_text rum = "rum"
signal_text logs = "logs"

-- The ids and the time that a message is given.
pub record Stamp : Type 0 where
  pub event_id : String
  pub batch_id : String
  pub received_at : String

abbrev pub message_of : Signal → Stamp → Elements → Value
message_of signal stamp payload = object (
    field "schemaVersion" (str "1.0.0") (
      field "eventId" (str stamp.event_id) (
        field "batchId" (str stamp.batch_id) (
          field "signal" (str (signal_text signal)) (
            field "receivedAt" (str stamp.received_at)
              (field "deliveryAttempt" (num (nat 0)) (field "payload" (array payload) end)))))))

-- A SanitizationError among what is thrown.
abbrev pub as_thrown {ℓ} : {A : Type ℓ} → Try SanitizationCode A → Try BuildError A
as_thrown (done a) = done a
as_thrown (failed code) = failed (sanitizing code)

unfoldable pub build_durable_message :
    (url_without_query : String → Option String) (json_parse : Text → Option Value)
    → Signal
    → Text
    → Stamp
    → Option TrustedScope
    → Try BuildError Value
unfolding safe_decode canonicalize_all
build_durable_message url_without_query json_parse signal raw_body stamp scope = do
  decoded ← safe_decode json_parse raw_body
  sanitized ← as_thrown (sanitize_browser_batch url_without_query decoded signal)
  payload ← canonicalize_all scope sanitized
  done (message_of signal stamp payload)
