-- ===== src/Sdk/Unforged.antt =====
-- What the context of an enriched event holds under the keys that are reserved for correlation
-- (correlation/enrich-rum-event.js and enrich-log-event.js).
use frontend_observability.Base.{
  String, Bool, true, false, Option, none, some, List, ◌≡◌, refl, sym, subst, arith, eq_iff, ◌⊎◌,
  inl, inr, in_either, ◌==◌, str_eq,
}
use frontend_observability.Base.Json.{
  Value, undefined, null, bool, num, str, array, object, Fields, end, field, get_field, set_field,
  utf16_length,
}
use frontend_observability.Base.Fields.{get_field-set_field}
use frontend_observability.Sdk.Counters.{Counters}
use frontend_observability.Sdk.Correlation.{CorrelationContext}
use frontend_observability.Sdk.NativeContext.{
  Native, is_correlation_id, is_reserved_correlation_key, keep_free_fields, strip_reserved_fields,
  SdkContext,
}
use frontend_observability.Sdk.Enrichment.{
  put_id, put_metadata, Enriched, spread, enrich_rum_fields, enrich_rum_with, enrich_rum_event,
  enrich_log_fields, enrich_log_with, enrich_log_event,
}

-- A reserved key holds the schema's version or a valid identifier.
abbrev pub IsOurs : String → Value → Type 0
IsOurs key v =
    is_reserved_correlation_key key ≡ true
    → (v ≡ str "1") ⊎ ((s : String) × (v ≡ str s) × (is_correlation_id s ≡ true))

-- So it is with every field.
pub data Unforged : Fields → Type 0 where
  unforged_end : Unforged end
  unforged_field :
      {key : String} {v : Value} {fs : Fields}
      → IsOurs key v
      → Unforged fs
      → Unforged (field key v fs)

keep_free_fields-Unforged : (fs : Fields) → Unforged (keep_free_fields fs)
unfolding keep_free_fields
keep_free_fields-Unforged end = unforged_end
keep_free_fields-Unforged (field key item fs) =
    in_either Unforged (is_reserved_correlation_key key) (λ e. keep_free_fields-Unforged fs)
      (λ e.
        unforged_field (λ reserved. absurd (ground (arith, e, reserved)))
          (keep_free_fields-Unforged fs))

set_field-Unforged :
    (key : String) (v : Value) (fs : Fields)
    → IsOurs key v
    → Unforged fs
    → Unforged (set_field key v fs)
set_field-Unforged key v end ours h = unforged_field ours unforged_end
set_field-Unforged key v (field j w fs) ours (unforged_field its rest) =
    in_either Unforged (str_eq j key)
      (λ e. unforged_field (subst (λ k. IsOurs k v) (sym ((eq_iff j key).0 e)) ours) rest)
      (λ e. unforged_field its (set_field-Unforged key v fs ours rest))

put_id-Unforged :
    (key : String) (id : Option String) (fs : Fields) → Unforged fs → Unforged (put_id key id fs)
put_id-Unforged key none fs h = h
put_id-Unforged key (some s) fs h =
    in_either Unforged (is_correlation_id s)
      (λ e. set_field-Unforged key (str s) fs (λ reserved. inr (s, refl, e)) h) (λ e. h)

put_metadata-Unforged :
    (epoch : String) (native : Native) (context : Fields)
    → Unforged context
    → Unforged (put_metadata epoch native context)
unfolding put_metadata
put_metadata-Unforged epoch native context h = put_id-Unforged _ native.action_id _ (
    put_id-Unforged _ native.view_id _ (
      put_id-Unforged _ native.session_id _ (
        put_id-Unforged _ (some epoch) _
          (set_field-Unforged _ (str "1") context (λ reserved. inl refl) h))))

-- `Array.isArray(value) || typeof value === "string"`: what has no fields but is spread by index.
abbrev pub is_indexed : Value → Bool
is_indexed (array vs) = true
is_indexed (str s) = true
is_indexed _ = false

-- The event is kept, and its context has only what is ours under the reserved keys.
pub record IsUnforged (event : Option Fields) : Type 0 where
  pub fields : Fields
  pub context : Fields
  pub kept : event ≡ some fields
  pub in_context : get_field "context" fields ≡ object context
  pub unforged : Unforged context

module _ (code_units : String → List String) where
  stripped-Unforged :
      (context : Value) (counters : Counters)
      → is_indexed context ≡ false
      → Unforged (spread code_units (strip_reserved_fields context counters).0)
  unfolding strip_reserved_fields
  stripped-Unforged (object fs) counters h = keep_free_fields-Unforged fs
  stripped-Unforged undefined counters h = unforged_end
  stripped-Unforged null counters h = unforged_end
  stripped-Unforged (bool b) counters h = unforged_end
  stripped-Unforged (num n) counters h = unforged_end
  stripped-Unforged (array vs) counters h = cc
  stripped-Unforged (str s) counters h = cc

  rum_fields-IsUnforged :
      (event : Fields) (domain : Value) (epoch : String) (correlation : CorrelationContext)
      (counters : Counters)
      → is_indexed (get_field "context" event) ≡ false
      → IsUnforged (enrich_rum_fields code_units event domain epoch correlation counters).event
  unfolding enrich_rum_fields
  rum_fields-IsUnforged event domain epoch correlation counters h = record {
    fields = _;
    context = _;
    kept = refl;
    in_context = get_field-set_field "context" _ event;
    unforged = put_metadata-Unforged epoch _ _ (stripped-Unforged _ counters h);
  }

  log_fields-IsUnforged :
      (event : Fields) (domain : Value) (sdk : SdkContext) (epoch : String)
      (correlation : CorrelationContext) (counters : Counters)
      → is_indexed (get_field "context" event) ≡ false
      → IsUnforged (enrich_log_fields code_units event domain sdk epoch correlation counters).event
  unfolding enrich_log_fields
  log_fields-IsUnforged event domain sdk epoch correlation counters h = record {
    fields = _;
    context = _;
    kept = refl;
    in_context = get_field-set_field "context" _ event;
    unforged = put_metadata-Unforged epoch _ _ (stripped-Unforged _ counters h);
  }

  -- While a page has a consent epoch that is not empty, enrichRumEvent and enrichLogEvent keep every
  -- event that is an object whose context is no array and no text. Under a key that is reserved for
  -- correlation, whatever the page put there, the event's new context holds the version of the
  -- schema, "1", or a valid identifier, and nothing else.
  pub enrichment-IsUnforged :
      (event : Fields) (domain : Value) (sdk : SdkContext) (epoch : String)
      (correlation : CorrelationContext) (counters : Counters)
      → correlation.epoch_id ≡ some epoch
      → (utf16_length epoch == 0) ≡ false
      → is_indexed (get_field "context" event) ≡ false
      → IsUnforged (enrich_rum_event code_units (some event) domain correlation counters).event
        × IsUnforged
            (enrich_log_event code_units (some event) domain sdk correlation counters).event
  unfolding enrich_rum_event enrich_log_event
  enrichment-IsUnforged event domain sdk epoch correlation counters granted long h =
      let rum : Option String → Enriched =
        λ o. enrich_rum_with code_units (some event) o domain correlation counters in
      let log : Option String → Enriched =
        λ o. enrich_log_with code_units (some event) o domain sdk correlation counters in
      (
        subst (λ o. IsUnforged (rum o).event) (sym granted)
            (rw long (rum_fields-IsUnforged event domain epoch correlation counters h)),
        subst (λ o. IsUnforged (log o).event) (sym granted)
            (rw long (log_fields-IsUnforged event domain sdk epoch correlation counters h)),
      )
