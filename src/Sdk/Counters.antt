-- ===== src/Sdk/Counters.antt =====
-- diagnostics/counters.js and correlation/counters.js.
--
-- The counters start at 0 and only grow, so the `Math.max(0, …)` and `… || 0` round each read are
-- left out. Of a decision the source also admits its name as a counter ("accepted"); its callers
-- pass the three of SanitizationDecision.
use frontend_observability.Base.{
  ℕ, ◌+◌, String, Bool, true, false, List, [], ◌∷◌, str_eq, if◌then◌else◌,
}

pub record Sanitization : Type 0 where
  pub accepted : ℕ
  pub redacted : ℕ
  pub dropped : ℕ
  pub reasons : List (String × ℕ)

pub record CorrelationCounters : Type 0 where
  pub enriched : ℕ
  pub partial : ℕ
  pub unavailable : ℕ
  pub invalid_native_id : ℕ
  pub reserved_field_removed : ℕ

pub record Counters : Type 0 where
  pub accepted_actions : ℕ
  pub dropped_actions : ℕ
  pub accepted_errors : ℕ
  pub dropped_errors : ℕ
  pub sanitization : Sanitization
  pub correlation : CorrelationCounters

abbrev pub create_correlation_counters : CorrelationCounters
create_correlation_counters = record {
  enriched = 0;
  partial = 0;
  unavailable = 0;
  invalid_native_id = 0;
  reserved_field_removed = 0;
}

abbrev pub create_counters : Counters
create_counters = record {
  accepted_actions = 0;
  dropped_actions = 0;
  accepted_errors = 0;
  dropped_errors = 0;
  sanitization = record { accepted = 0; redacted = 0; dropped = 0; reasons = [] };
  correlation = create_correlation_counters;
}

-- The second part of the result tells whether the key is one of COUNTER_KEYS.
unfoldable pub increment_counter : Counters → String → Counters × Bool
increment_counter c key =
    if str_eq key "acceptedActions"
    then (record c { accepted_actions = c.accepted_actions + 1 }, true)
    else if str_eq key "droppedActions"
    then (record c { dropped_actions = c.dropped_actions + 1 }, true)
    else if str_eq key "acceptedErrors"
    then (record c { accepted_errors = c.accepted_errors + 1 }, true)
    else if str_eq key "droppedErrors"
    then (record c { dropped_errors = c.dropped_errors + 1 }, true)
    else (c, false)

pub data Decision : Type 0 where
  accept redact drop : Decision

-- `reasons[reason] = Math.max(0, reasons[reason] || 0) + 1`
unfoldable pub count_reason : String → List (String × ℕ) → List (String × ℕ)
count_reason reason [] = (reason, 1) ∷ []
count_reason reason ((r, n) ∷ rest) =
    if str_eq r reason then (r, n + 1) ∷ rest else (r, n) ∷ count_reason reason rest

unfoldable pub count_reasons : List String → List (String × ℕ) → List (String × ℕ)
unfolding count_reason
count_reasons [] table = table
count_reasons (reason ∷ rest) table =
    count_reasons rest (if str_eq reason "" then table else count_reason reason table)

unfoldable pub count_decision : Decision → Sanitization → Sanitization
count_decision accept s = record s { accepted = s.accepted + 1 }
count_decision redact s = record s { redacted = s.redacted + 1 }
count_decision drop s = record s { dropped = s.dropped + 1 }

unfoldable pub record_sanitization : Counters → Decision → List String → Counters
unfolding count_decision count_reasons
record_sanitization c decision reasons =
    let s = count_decision decision c.sanitization in
    record c { sanitization = record s { reasons = count_reasons reasons s.reasons } }

-- As for incrementCounter.
unfoldable pub record_correlation : Counters → String → Counters × Bool
record_correlation c key =
    let n = c.correlation in
    if str_eq key "enriched"
    then (record c { correlation = record n { enriched = n.enriched + 1 } }, true)
    else if str_eq key "partial"
    then (record c { correlation = record n { partial = n.partial + 1 } }, true)
    else if str_eq key "unavailable"
    then (record c { correlation = record n { unavailable = n.unavailable + 1 } }, true)
    else if str_eq key "invalidNativeId"
    then (record c { correlation = record n { invalid_native_id = n.invalid_native_id + 1 } }, true)
    else if str_eq key "reservedFieldRemoved"
    then (
      record c { correlation = record n { reserved_field_removed = n.reserved_field_removed + 1 } },
      true,
    )
    else (c, false)
