-- ===== src/Sanitization/Events.antt =====
-- sanitization/sanitizers/events.js: what is done to an event of the vendor's SDK before it is sent.
--
-- An event is an object of data properties that no other object shares; a function that changes it in
-- place returns it changed, with the results it pushes. A TypeError is none.
use frontend_observability.Base.{
  ℕ, zero, suc, ◌*◌, String, Bool, true, false, not, Option, none, some, List, [], ◌∷◌, ◌++◌,
  str_eq, if◌then◌else◌, includes,
}
use frontend_observability.Base.Json.{
  is_text, is_truthy, is_string, Value, undefined, null, str, array, object, Fields, end, field,
  Elements, no_element, element, get, get_field, set_field,
}
use frontend_observability.Base.Try.{Try, done, failed, ◌>>=◌}
use frontend_observability.Sdk.Counters.{Decision, drop, Counters, record_sanitization}
use frontend_observability.Sanitization.Results.{
  Result, redacted, dropped, is_drop, any_drop, merge_decision, unique_reasons,
}
use frontend_observability.Sanitization.Strings.{sanitize_string}
use frontend_observability.Sanitization.Attributes.{sanitize_attributes}
use frontend_observability.Sanitization.Actions.{sanitize_action_name}
use frontend_observability.Sanitization.Errors.{sanitize_stack}
use frontend_observability.Sanitization.Urls.{UrlFunctions, sanitize_url, sanitize_resource}

abbrev pub known_rum_types : List String
known_rum_types = "view" ∷ "action" ∷ "resource" ∷ "error" ∷ "long_task" ∷ "vital" ∷ []

-- `delete object[k]`; the names of an object's fields are distinct.
abbrev pub delete_field : String → Fields → Fields
delete_field k end = end
delete_field k (field j v fs) = if str_eq j k then fs else field j v (delete_field k fs)

abbrev pub delete_fields : List String → Fields → Fields
delete_fields [] event = event
delete_fields (k ∷ ks) event = delete_fields ks (delete_field k event)

-- A change of a nested object, which is there.
abbrev pub update_object : (Fields → Fields) → Value → Value
update_object f (object fs) = object (f fs)
update_object f v = v

abbrev pub update : String → (Fields → Fields) → Fields → Fields
update k f event = set_field k (update_object f (get_field k event)) event

-- An object, and the results pushed while it was changed.
pub record Changed : Type 0 where
  pub fields : Fields
  pub results : List Result

abbrev pub push : Result → Changed → Changed
push r c = record c { results = c.results ++ r ∷ [] }

abbrev pub change : (Fields → Fields) → Changed → Changed
change f c = record c { fields = f c.fields }

-- `if (isDrop(r)) delete o[k]; else o[k] = r.value; results.push(r);`
abbrev pub store_or_delete :
    ((Fields → Fields) → Fields → Fields) → String → Result → Changed → Changed
store_or_delete at k r c =
    push r (change (at (if is_drop r then delete_field k else set_field k r.value)) c)

-- `if (isDrop(r)) results.push(r); else { o[k] = r.value; results.push(r); }`
abbrev pub store_or_push :
    ((Fields → Fields) → Fields → Fields) → String → Result → Changed → Changed
store_or_push at k r c = push r (if is_drop r then c else change (at (set_field k r.value)) c)

-- `if (isDrop(r)) results.push(r); else o[k] = r.value; results.push(r);`
abbrev pub store_text : ((Fields → Fields) → Fields → Fields) → String → Result → Changed → Changed
store_text at k r c = push r (if is_drop r then push r c else change (at (set_field k r.value)) c)

abbrev pub is_object : Value → Bool
is_object (object fs) = true
is_object _ = false

pub record Outcome : Type 0 where
  pub event : Fields
  pub decision : Decision
  pub reasons : List String

-- `results.find(isDrop)`
abbrev pub first_drop : List Result → Result
first_drop [] = dropped "SANITIZER_FAILURE"
first_drop (r ∷ rs) = let behind = first_drop rs in if is_drop r then r else behind

-- runEventSanitizer returns false for a drop, so that the vendor's SDK discards the event.
abbrev pub is_kept : Decision → Bool
is_kept drop = false
is_kept _ = true

abbrev pub generic_name : Value → String
generic_name (str s) =
    if str_eq s "application_start" then "interaction.submit" else "interaction.click"
generic_name _ = "interaction.click"

abbrev pub removed_fields : List String
removed_fields =
    "usr" ∷ "account" ∷ "user" ∷ "headers" ∷ "request" ∷ "response" ∷ "body" ∷ "payload" ∷ []

abbrev pub is_known_type : Value → Bool
is_known_type (str s) = includes known_rum_types s
is_known_type _ = false

module _ (u : UrlFunctions) (url_without_query : String → Option String) (json_bytes : Value → ℕ)
    (policy : Value) where
  abbrev pub page_url : Value → Result
  page_url v = sanitize_url u v (record { policy = policy; resource = false })

  abbrev pub resource_url : Value → Result
  resource_url v = sanitize_url u v (record { policy = policy; resource = true })

  abbrev pub bounded_text : Value → ℕ → Result
  bounded_text v n = sanitize_string url_without_query v n

  -- The view's address: one that is dropped becomes the root.
  abbrev pub store_view_url : Result → Changed → Changed
  store_view_url r c =
      if is_drop r
      then push (redacted undefined r.reasons)
          (change (update "view" (set_field "url" (str "/"))) c)
      else push r (change (update "view" (set_field "url" r.value)) c)

  unfoldable pub sanitize_view_url : Changed → Changed
  sanitize_view_url c =
      let v = get "url" (get_field "view" c.fields) in
      if is_truthy v then store_view_url (page_url v) c else c

  unfoldable pub sanitize_view_referrer : Changed → Changed
  sanitize_view_referrer c =
      let v = get "referrer" (get_field "view" c.fields) in
      if is_truthy v then store_or_delete (update "view") "referrer" (page_url v) c else c

  unfoldable pub sanitize_view_name : Changed → Changed
  sanitize_view_name c =
      let v = get "name" (get_field "view" c.fields) in
      if is_truthy v then store_or_delete (update "view") "name" (bounded_text v 128) c else c

  unfoldable pub apply_common_event_fields : Fields → Changed
  unfolding sanitize_view_url sanitize_view_referrer sanitize_view_name
  apply_common_event_fields event = sanitize_view_name (
      sanitize_view_referrer
        (sanitize_view_url (record { fields = delete_fields removed_fields event; results = [] })))

  abbrev pub in_lcp : (Fields → Fields) → Fields → Fields
  in_lcp f = update "view" (update "performance" (update "lcp" f))

  unfoldable pub sanitize_view_event : Changed → Changed
  sanitize_view_event c =
      let v = get "resource_url" (get "lcp" (get "performance" (get_field "view" c.fields))) in
      if is_truthy v then store_or_delete in_lcp "resource_url" (resource_url v) c else c

  -- On an event without an action object, a TypeError.
  unfoldable pub sanitize_action_event : Changed → Option Changed
  sanitize_action_event c =
      let action = get_field "action" c.fields in
      let name = sanitize_action_name (get "name" (get "target" action)) in
      if not (is_object action)
      then none
      else if not (is_text "custom" (get "type" action))
      then some (
          push (redacted undefined ("PII_REDACTED" ∷ [])) (
            change
              (update "action" (
                set_field "target"
                  (object (field "name" (str (generic_name (get "type" action))) end))))
              c))
      else some (
          push name (
            if is_drop name
            then c
            else change (update "action" (update "target" (set_field "name" name.value))) c))

  abbrev pub strip_variables : Changed → Changed
  strip_variables c =
      if is_truthy (get "graphql" (get_field "resource" c.fields))
      then push (redacted undefined ("ATTRIBUTE_VALUE_UNSAFE" ∷ []))
          (change (update "resource" (update "graphql" (delete_field "variables"))) c)
      else c

  unfoldable pub sanitize_resource_event : Changed → Changed
  sanitize_resource_event c = strip_variables (
      store_or_push (update "resource") "url"
        (sanitize_resource u (get_field "resource" c.fields) policy) c)

  -- A text of a cause, under a key.
  abbrev pub take_cause_text : Fields → String → Changed → Changed
  take_cause_text cause k c =
      let v = get_field k cause in
      let r =
        if str_eq k "stack"
        then sanitize_stack url_without_query json_bytes v
        else bounded_text v 512 in
      if is_string v then push r (if is_drop r then c else change (set_field k r.value) c) else c

  unfoldable pub sanitize_cause : Value → List Result → Value × List Result
  sanitize_cause (object cause) results =
      let output = take_cause_text cause "source" (
        take_cause_text cause "type" (
          take_cause_text cause "stack"
            (take_cause_text cause "message" (record { fields = end; results = results })))) in
      (object output.fields, output.results)
  sanitize_cause v results = (object end, results)

  -- `causes.slice(0, n).map(...)`
  unfoldable pub sanitize_causes : ℕ → Elements → List Result → Elements × List Result
  unfolding sanitize_cause
  sanitize_causes zero causes results = (no_element, results)
  sanitize_causes (suc n) no_element results = (no_element, results)
  sanitize_causes (suc n) (element v vs) results =
      let (cause, first) = sanitize_cause v results in
      let (causes, all) = sanitize_causes n vs first in (element cause causes, all)

  abbrev pub store_message : Changed → Changed
  store_message c =
      let v = get_field "message" c.fields in
      if is_string v then store_text (λ f. f) "message" (bounded_text v 512) c else c

  abbrev pub store_stack : String → Changed → Changed
  store_stack k c =
      let v = get_field k c.fields in
      if is_string v
      then store_text (λ f. f) k (sanitize_stack url_without_query json_bytes v) c
      else c

  abbrev pub store_resource_url : Changed → Changed
  store_resource_url c =
      let v = get "url" (get_field "resource" c.fields) in
      if is_truthy v then store_text (update "resource") "url" (page_url v) c else c

  abbrev pub store_causes : Changed → Changed
  store_causes c = elim (get_field "causes" c.fields) [
    | array vs ↦
        let (causes, results) = sanitize_causes 3 vs c.results in
        record { fields = set_field "causes" (array causes) c.fields; results = results }
    | _ ↦ c
  ]

  -- Of an error that is an object.
  unfoldable pub sanitize_error_fields : Changed → Changed
  unfolding sanitize_causes
  sanitize_error_fields c = store_causes (
      store_resource_url (
        store_stack "component_stack"
          (store_stack "handling_stack" (store_stack "stack" (store_message c)))))

  unfoldable pub sanitize_error_payload : Value → List Result → Value × List Result
  unfolding sanitize_error_fields
  sanitize_error_payload (object error) results =
      let c = sanitize_error_fields (record { fields = error; results = results }) in
      (object c.fields, c.results)
  sanitize_error_payload error results = (error, results)

  -- `sanitizeErrorPayload(event.error, ...)`
  abbrev pub in_error : Changed → Changed
  in_error c =
      let (error, results) = sanitize_error_payload (get_field "error" c.fields) c.results in
      record {
        fields =
            if is_object (get_field "error" c.fields)
            then set_field "error" error c.fields
            else c.fields;
        results = results;
      }

  abbrev pub store_script_url : Changed → Changed
  store_script_url c =
      let v = get_field "source_url" c.fields in
      if is_truthy v then store_or_delete (λ f. f) "source_url" (resource_url v) c else c

  abbrev pub store_invoker : Changed → Changed
  store_invoker c =
      let v = get_field "invoker" c.fields in
      if is_truthy v then store_or_delete (λ f. f) "invoker" (bounded_text v 128) c else c

  -- The loop over the scripts; null or undefined among them is a TypeError.
  unfoldable pub sanitize_scripts : Elements → List Result → Option (Elements × List Result)
  sanitize_scripts no_element results = some (no_element, results)
  sanitize_scripts (element undefined vs) results = none
  sanitize_scripts (element null vs) results = none
  sanitize_scripts (element (object script) vs) results =
      let c = store_invoker (store_script_url (record { fields = script; results = results })) in
      elim (sanitize_scripts vs c.results) [
        | none ↦ none
        | some (scripts, all) ↦ some (element (object c.fields) scripts, all)
      ]
  sanitize_scripts (element v vs) results = elim (sanitize_scripts vs results) [
    | none ↦ none
    | some (scripts, all) ↦ some (element v scripts, all)
  ]

  abbrev pub with_scripts : Changed → Option (Elements × List Result) → Option Changed
  with_scripts c none = none
  with_scripts c (some (scripts, results)) = some (record {
    fields = update "long_task" (set_field "scripts" (array scripts)) c.fields;
    results = results;
  })

  -- A text is iterated without effect; another value that is there is no iterable, a TypeError.
  unfoldable pub sanitize_long_task_event : Changed → Option Changed
  unfolding sanitize_scripts
  sanitize_long_task_event c = elim (get "scripts" (get_field "long_task" c.fields)) [
    | array vs ↦ with_scripts c (sanitize_scripts vs c.results)
    | undefined ↦ some c
    | null ↦ some c
    | str s ↦ some c
    | _ ↦ none
  ]

  abbrev pub store_vital : String → Changed → Changed
  store_vital k c =
      let v = get k (get_field "vital" c.fields) in
      if is_string v then store_text (update "vital") k (bounded_text v 128) c else c

  unfoldable pub sanitize_vital_event : Changed → Changed
  sanitize_vital_event c = store_vital "description" (
      store_vital "failure_reason"
        (store_vital "operation_key" (store_vital "step_type" (store_vital "name" c))))

  -- By the type of the event.
  unfoldable pub sanitize_by_type : Value → Changed → Option Changed
  unfolding sanitize_view_event sanitize_action_event sanitize_resource_event
      sanitize_long_task_event sanitize_vital_event
  sanitize_by_type type c =
      if is_text "view" type
      then some (sanitize_view_event c)
      else if is_text "action" type
      then sanitize_action_event c
      else if is_text "resource" type
      then some (sanitize_resource_event c)
      else if is_text "error" type
      then some (in_error c)
      else if is_text "long_task" type
      then sanitize_long_task_event c
      else if is_text "vital" type
      then some (sanitize_vital_event c)
      else some c

  -- What the callback of a sanitizer comes to: the event as it is left, the decision and its reasons.
  -- (The fields of a drop's event are not used.)
  unfoldable pub finish_event : Changed → Outcome
  finish_event c =
      let context =
        sanitize_attributes url_without_query json_bytes (get_field "context" c.fields) (4 * 1024)
          12 in
      let results = c.results ++ context ∷ [] in
      record {
        event =
            set_field "_frontend_observability_sanitization_policy"
              (str "telemetry-sanitization-v1") (set_field "context" context.value c.fields);
        decision = merge_decision results;
        reasons = unique_reasons results;
      }

  abbrev pub finish_rum : Option Changed → Fields → Outcome
  finish_rum none event = record {
    event = event;
    decision = drop;
    reasons = "SANITIZER_FAILURE" ∷ [];
  }
  finish_rum (some c) event =
      if any_drop c.results
      then record { event = c.fields; decision = drop; reasons = (first_drop c.results).reasons }
      else finish_event c

  -- The callback of sanitizeRumEvent.
  unfoldable pub sanitize_rum_fields : Fields → Outcome
  unfolding sanitize_by_type apply_common_event_fields finish_event
  sanitize_rum_fields event =
      if not (is_known_type (get_field "type" event))
      then record { event = event; decision = drop; reasons = "UNKNOWN_EVENT_TYPE" ∷ [] }
      else finish_rum (sanitize_by_type (get_field "type" event) (apply_common_event_fields event))
          event

  unfoldable pub sanitize_rum_event : Fields → Counters → Counters × (Bool × Fields)
  unfolding sanitize_rum_fields
  sanitize_rum_event event counters =
      let outcome = sanitize_rum_fields event in
      (
        record_sanitization counters outcome.decision outcome.reasons,
        (is_kept outcome.decision, outcome.event),
      )

  -- The message of a log; one that is dropped is returned.
  unfoldable pub log_message : Changed → Try Result Changed
  log_message c =
      let v = get_field "message" c.fields in
      let r = bounded_text v 512 in
      if not (is_string v)
      then done c
      else if is_drop r
      then failed r
      else done (push r (change (set_field "message" r.value) c))

  unfoldable pub log_error : Changed → Changed
  log_error c = if is_truthy (get_field "error" c.fields) then in_error c else c

  unfoldable pub log_url : Changed → Try Result Changed
  log_url c =
      let v = get "url" (get_field "http" c.fields) in
      let r = page_url v in
      if not (is_truthy v)
      then done c
      else if is_drop r
      then failed r
      else done (push r (change (update "http" (set_field "url" r.value)) c))

  abbrev pub finish_log : Fields → Try Result Changed → Outcome
  finish_log event (failed r) = record { event = event; decision = r.decision; reasons = r.reasons }
  finish_log event (done c) = finish_event (change (delete_fields ("usr" ∷ "account" ∷ [])) c)

  -- The callback of sanitizeLogEvent.
  unfoldable pub sanitize_log_fields : Fields → Outcome
  unfolding apply_common_event_fields log_message log_error log_url finish_event
  sanitize_log_fields event =
      finish_log event
        (log_message (apply_common_event_fields event) >>= λ c. log_url (log_error c))

  unfoldable pub sanitize_log_event : Fields → Counters → Counters × (Bool × Fields)
  unfolding sanitize_log_fields
  sanitize_log_event event counters =
      let outcome = sanitize_log_fields event in
      (
        record_sanitization counters outcome.decision outcome.reasons,
        (is_kept outcome.decision, outcome.event),
      )
