-- ===== src/Sanitization/Kept.antt =====
-- What is kept by the sanitization of actions and events, and how it is counted.
use frontend_observability.Base.{
  ℕ, ◌+◌, ◌≤◌, length, String, Bool, true, false, not, Option, none, some, List, [], ◌∷◌, ◌++◌, ◌≡◌,
  refl, ◌∙◌, ◌⊎◌, inl, inr, if◌then◌else◌, in_either, arith,
}
use frontend_observability.Base.Json.{
  Value, str, object, Fields, end, field, get_field, set_field, utf16_length,
}
use frontend_observability.Base.Regex.{test}
use frontend_observability.Sanitization.Patterns.{action_name_pattern}
use frontend_observability.Base.Fields.{get_field-set_field, get_field-set_field_other}
use frontend_observability.Sdk.Counters.{
  Decision, accept, redact, drop, Counters, count_decision, record_sanitization,
}
use frontend_observability.Sanitization.Results.{
  Result, is_drop, any_drop, merge_decision, unique_reasons,
}
use frontend_observability.Sanitization.Strings.{has_high_risk_identifier}
use frontend_observability.Sanitization.Attributes.{sanitize_attributes, sanitize_action_attributes}
use frontend_observability.Sanitization.Actions.{
  is_action_name, split_at, any_empty, sanitize_action_name, join_action, sanitize_action, trimmed,
}
use frontend_observability.Sanitization.Urls.{UrlFunctions}
use frontend_observability.Sanitization.Bounds.{
  IsBounded, DropsOrIsBounded, sanitize_attributes-DropsOrIsBounded, redact_or_accept-value,
}
use frontend_observability.Sanitization.Events.{
  Changed, Outcome, is_kept, is_known_type, apply_common_event_fields, sanitize_by_type,
  finish_event, finish_rum, sanitize_rum_fields, sanitize_rum_event,
}

-- Of the decision of a result that is not a drop.
not_dropped : {b : Bool} {A : Type 0} → b ≡ false → (b ≡ true) ⊎ A → A
not_dropped e (inl e') = absurd (clash e e')
  where
    clash : {b : Bool} → b ≡ false → b ≡ true → ⊥
    clash e e' = cc
not_dropped e (inr a) = a

any_drop-last :
    (rs : List Result) (r : Result) → any_drop (rs ++ r ∷ []) ≡ false → is_drop r ≡ false
any_drop-last [] r h = ground (arith, h)
any_drop-last (x ∷ rs) r h = any_drop-last rs r (ground (arith, h))

merge_decision-kept : (rs : List Result) → is_kept (merge_decision rs) ≡ true → any_drop rs ≡ false
unfolding merge_decision
merge_decision-kept rs h =
    in_either (λ d. is_kept d ≡ true → any_drop rs ≡ false) (any_drop rs) (λ e h'. cc) (λ e h'. e) h

sanitize_action_name-kept :
    (name : Value)
    → is_drop (sanitize_action_name name) ≡ false
    → (n : String) × ((sanitize_action_name name).value ≡ str n)
      × (is_action_name n ≡ true)
      × (has_high_risk_identifier n ≡ false)
unfolding sanitize_action_name
sanitize_action_name-kept (str s) h =
    in_either
      (λ r.
        is_drop r ≡ false
        → (n : String) × (r.value ≡ str n)
          × (is_action_name n ≡ true)
          × (has_high_risk_identifier n ≡ false))
      (not (is_action_name (trimmed s))) (λ e h'. cc)
      (λ e h'.
        in_either
          (λ r.
            is_drop r ≡ false
            → (n : String) × (r.value ≡ str n)
              × (is_action_name n ≡ true)
              × (has_high_risk_identifier n ≡ false))
          (has_high_risk_identifier (trimmed s)) (λ e' h''. cc)
          (λ e' h''. (trimmed s, refl, ground (arith, e), e')) h')
      h
sanitize_action_name-kept _ h = cc

module _ (url_without_query : String → Option String) (json_bytes : Value → ℕ) where
  -- The value of an action that is kept.
  pub record IsSafeAction (value : Value) : Type 0 where
    pub name : String
    pub attributes : Fields
    pub made_of :
        value ≡ object (field "name" (str name) (field "attributes" (object attributes) end))
    pub long_enough : 3 ≤ utf16_length name
    pub short_enough : utf16_length name ≤ 80
    pub matches : test action_name_pattern name ≡ true
    pub few_segments : length (split_at b'.' name) ≤ 6
    pub filled_segments : any_empty (split_at b'.' name) ≡ false
    pub harmless : has_high_risk_identifier name ≡ false
    pub bounded : IsBounded url_without_query json_bytes 2048 12 attributes

  is_action_name-parts :
      (n : String)
      → is_action_name n ≡ true
      → (3 ≤ utf16_length n)
        × (utf16_length n ≤ 80)
        × (test action_name_pattern n ≡ true)
        × (length (split_at b'.' n) ≤ 6)
        × (any_empty (split_at b'.' n) ≡ false)
  unfolding is_action_name
  is_action_name-parts n h = (ground arith, ground arith, ground arith, ground arith, ground arith)

  join_action-IsSafeAction :
      (name attributes : Result)
      → (is_drop name ≡ false
          → (n : String) × (name.value ≡ str n)
            × (is_action_name n ≡ true)
            × (has_high_risk_identifier n ≡ false))
      → DropsOrIsBounded url_without_query json_bytes 2048 12 attributes
      → is_drop (join_action name attributes) ≡ false
      → IsSafeAction (join_action name attributes).value
  unfolding join_action
  join_action-IsSafeAction name attributes named bounded h =
      in_either (λ r. is_drop r ≡ false → IsSafeAction r.value) (is_drop name)
        (λ e h'. absurd (clash e h'))
        (λ e.
          in_either (λ r. is_drop r ≡ false → IsSafeAction r.value) (is_drop attributes)
            (λ e' h'. absurd (clash e' h'))
            (λ e' h'.
              let (n, valued, ok, harmless) = named e in
              let (long_enough, short_enough, matches, few_segments, filled_segments) =
                is_action_name-parts n ok in
              let (fs, same, within) = not_dropped e' bounded in
              record {
                name = n;
                attributes = fs;
                made_of =
                    redact_or_accept-value _ (unique_reasons (name ∷ attributes ∷ []))
                    ∙ (rw (valued, same) refl);
                long_enough = long_enough;
                short_enough = short_enough;
                matches = matches;
                few_segments = few_segments;
                filled_segments = filled_segments;
                harmless = harmless;
                bounded = within;
              }))
        h
    where
      clash : {b : Bool} → b ≡ true → b ≡ false → ⊥
      clash e e' = cc

  -- Whatever name and attributes are given: an action that is not dropped has a name of 3 to 80 units that
  -- matches the pattern of action names, in one to six segments between dots, none empty, in which no identifier of high risk
  -- is found, and at most 12 attributes and 2048 bytes of safe keys and primitive values.
  pub sanitize_action-IsSafeAction :
      (name attributes : Value)
      → is_drop (sanitize_action url_without_query json_bytes name attributes) ≡ false
      → IsSafeAction (sanitize_action url_without_query json_bytes name attributes).value
  unfolding sanitize_action
  sanitize_action-IsSafeAction name attributes h =
      join_action-IsSafeAction (sanitize_action_name name)
        (sanitize_action_attributes url_without_query json_bytes attributes)
        (sanitize_action_name-kept name)
        (sanitize_attributes-DropsOrIsBounded url_without_query json_bytes 2048 12 attributes) h

module _ (u : UrlFunctions) (url_without_query : String → Option String) (json_bytes : Value → ℕ)
    (policy : Value) where
  -- What is left of an event's context, and the mark of the policy.
  pub record IsMarked (event : Fields) : Type 0 where
    pub context : Fields
    pub held : get_field "context" event ≡ object context
    pub bounded : IsBounded url_without_query json_bytes 4096 12 context
    pub marked :
        get_field "_frontend_observability_sanitization_policy" event
        ≡ str "telemetry-sanitization-v1"

  finish_event-IsMarked :
      (c : Changed)
      → is_kept (finish_event u url_without_query json_bytes policy c).decision ≡ true
      → IsMarked (finish_event u url_without_query json_bytes policy c).event
  unfolding finish_event
  finish_event-IsMarked c kept =
      let raw = get_field "context" c.fields in
      let context = sanitize_attributes url_without_query json_bytes raw 4096 12 in
      let undropped =
        any_drop-last c.results context (merge_decision-kept (c.results ++ context ∷ []) kept) in
      let (fs, same, within) =
        not_dropped undropped
          (sanitize_attributes-DropsOrIsBounded url_without_query json_bytes 4096 12 raw) in
      let inner = set_field "context" context.value c.fields in
      record {
        context = fs;
        held =
            get_field-set_field_other "context" "_frontend_observability_sanitization_policy"
              (str "telemetry-sanitization-v1") inner refl
            ∙ get_field-set_field "context" context.value c.fields
            ∙ same;
        bounded = within;
        marked =
            get_field-set_field "_frontend_observability_sanitization_policy"
              (str "telemetry-sanitization-v1") inner;
      }

  finish_rum-IsMarked :
      (o : Option Changed) (event : Fields)
      → is_kept (finish_rum u url_without_query json_bytes policy o event).decision ≡ true
      → IsMarked (finish_rum u url_without_query json_bytes policy o event).event
  finish_rum-IsMarked none event kept = cc
  finish_rum-IsMarked (some c) event kept =
      in_either (λ (r : Outcome). is_kept r.decision ≡ true → IsMarked r.event) (any_drop c.results)
        (λ e kept'. cc) (λ e kept'. finish_event-IsMarked c kept') kept

  -- Whatever a page hands over: a rum event that is kept for sending has a context of at most 12 fields
  -- and 4096 bytes, of safe keys and primitive values, and is marked with the policy's version.
  pub sanitize_rum_fields-IsMarked :
      (event : Fields)
      → is_kept (sanitize_rum_fields u url_without_query json_bytes policy event).decision ≡ true
      → IsMarked (sanitize_rum_fields u url_without_query json_bytes policy event).event
  unfolding sanitize_rum_fields
  sanitize_rum_fields-IsMarked event kept =
      in_either (λ (r : Outcome). is_kept r.decision ≡ true → IsMarked r.event)
        (not (is_known_type (get_field "type" event))) (λ e kept'. cc)
        (λ e kept'.
          finish_rum-IsMarked
            (sanitize_by_type u url_without_query json_bytes policy (get_field "type" event)
              (apply_common_event_fields u url_without_query json_bytes policy event))
            event kept')
        kept

-- All that were counted.
abbrev pub decided : Counters → ℕ
decided c = c.sanitization.accepted + c.sanitization.redacted + c.sanitization.dropped

record_sanitization-counted :
    (c : Counters) (d : Decision) (reasons : List String)
    → (decided (record_sanitization c d reasons) ≡ decided c + 1)
      × ((record_sanitization c d reasons).sanitization.dropped
          ≡ c.sanitization.dropped + (if is_kept d then 0 else 1))
unfolding record_sanitization count_decision
record_sanitization-counted c accept reasons = (omega arith, omega arith)
record_sanitization-counted c redact reasons = (omega arith, omega arith)
record_sanitization-counted c drop reasons = (omega arith, omega arith)

module _ (u : UrlFunctions) (url_without_query : String → Option String) (json_bytes : Value → ℕ)
    (policy : Value) where
  -- Whatever a page hands over, a fault of the sanitizer included: each rum event is counted once, as
  -- dropped if and only if it is not kept for sending.
  pub sanitize_rum_event-counted :
      (event : Fields) (c : Counters)
      → (decided (sanitize_rum_event u url_without_query json_bytes policy event c).0
          ≡ decided c + 1)
        × ((sanitize_rum_event u url_without_query json_bytes policy event c).0.sanitization.dropped
            ≡ c.sanitization.dropped
              + (if (sanitize_rum_event u url_without_query json_bytes policy event c).1.0
                  then 0
                  else 1))
  unfolding sanitize_rum_event
  sanitize_rum_event-counted event c =
      let outcome = sanitize_rum_fields u url_without_query json_bytes policy event in
      record_sanitization-counted c outcome.decision outcome.reasons
