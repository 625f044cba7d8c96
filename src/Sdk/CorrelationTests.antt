-- ===== src/Sdk/CorrelationTests.antt =====
-- An example for the enrichment of events: a page that writes a field of the correlation itself.
use frontend_observability.Base.{true, false, some, none, [], ◌∷◌, ◌≡◌, refl}
use frontend_observability.Base.Json.{undefined, bool, str, object, Fields, end, field}
use frontend_observability.Sdk.Counters.{create_counters}
use frontend_observability.Sdk.Correlation.{CorrelationContext, create_correlation_context}
use frontend_observability.Sdk.NativeContext.{no_function}
use frontend_observability.Sdk.Enrichment.{enrich_rum_event, enrich_log_event}
use frontend_observability.Sdk.Unforged.{IsUnforged, enrichment-IsUnforged}

abbrev forging_event : Fields
forging_event = field "type" (str "action") (
    field "session" (object (field "id" (str "5f1c7a1e-session") end)) (
      field "context"
        (object (
          field "frontend-observability.correlation.session_id" (object end)
            (field "cart" (bool true) end)))
        end))

abbrev granted_context : CorrelationContext
granted_context = record create_correlation_context {
  epoch_id = some "0123456789abcdef0123456789abcdef";
}

-- The page's field is replaced, its other field is kept.
forging_event_enriched :
    (enrich_rum_event
      (λ s. [])
      (some forging_event)
      undefined
      granted_context
      create_counters).event
    ≡ some (
        field "type" (str "action") (
          field "session" (object (field "id" (str "5f1c7a1e-session") end)) (
            field "context"
              (object (
                field "cart" (bool true) (
                  field "frontend-observability.correlation.schema_version" (str "1") (
                    field "frontend-observability.correlation.epoch_id"
                      (str "0123456789abcdef0123456789abcdef")
                      (field "frontend-observability.correlation.session_id"
                        (str "5f1c7a1e-session")
                        end)))))
              end)))
unfolding enrich_rum_event frontend_observability.Sdk.Enrichment.enrich_rum_fields
    frontend_observability.Sdk.NativeContext.extract_native_context
    frontend_observability.Sdk.NativeContext.first_valid_context
    frontend_observability.Sdk.NativeContext.take_candidates
    frontend_observability.Sdk.NativeContext.is_correlation_id
    frontend_observability.Base.Regex.search_from frontend_observability.Base.Regex.ends
    frontend_observability.Sdk.NativeContext.safe_id_pattern
    frontend_observability.Sanitization.Strings.contains_secret
    frontend_observability.Sanitization.Patterns.secret_patterns
    frontend_observability.Sdk.NativeContext.strip_reserved_fields
    frontend_observability.Sdk.NativeContext.keep_free_fields
    frontend_observability.Sdk.NativeContext.is_reserved_correlation_key
    frontend_observability.Base.includes
    frontend_observability.Sanitization.Strings.normalize_key_for_policy
forging_event_enriched = refl

enrichment-IsUnforged_example :
    IsUnforged
      (enrich_rum_event
        (λ s. [])
        (some forging_event)
        undefined
        granted_context
        create_counters).event
    × IsUnforged
        (enrich_log_event
          (λ s. [])
          (some forging_event)
          undefined
          no_function
          granted_context
          create_counters).event
enrichment-IsUnforged_example =
    enrichment-IsUnforged (λ s. []) forging_event undefined no_function
      "0123456789abcdef0123456789abcdef" granted_context create_counters refl refl refl
