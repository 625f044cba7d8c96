-- ===== src/Sanitization/Tests.antt =====
-- Examples for the sanitization in the browser.
use frontend_observability.Base.{
  ℕ, String, true, false, Option, none, some, [], ◌∷◌, ◌≡◌, refl, All, includes,
}
use frontend_observability.Base.Json.{Value, undefined, num, nat, str, object, Fields, end, field}
use frontend_observability.Base.Regex.{search_from, ends, many_from, replace_from}
use frontend_observability.Base.Text.{is_space}
use frontend_observability.Sanitization.Patterns.{
  email_pattern, uuid_pattern, long_numeric_pattern, phone_pattern, iban_pattern, card_pattern,
  jwt_pattern, base64_token_pattern, secret_patterns, url_pattern, path_query_pattern,
  safe_key_pattern, action_name_pattern,
}
use frontend_observability.Sanitization.Results.{
  redacted, dropped, is_drop, truncate_by_chars, merge_decision, unique_reasons,
}
use frontend_observability.Sanitization.Strings.{
  sanitize_text, contains_secret, strip_url_query_and_fragment, is_forbidden_key, is_secret_key,
  normalize_key_for_policy, has_high_risk_identifier,
}
use frontend_observability.Sanitization.Attributes.{sanitize_attributes, is_safe_attribute_key}
use frontend_observability.Sanitization.Actions.{sanitize_action}
use frontend_observability.Sanitization.Urls.{UrlFunctions, sanitize_url}
use frontend_observability.Sanitization.Bounds.{
  DropsOrIsBounded, sanitize_attributes-DropsOrIsBounded,
}
use frontend_observability.Sanitization.Events.{removed_fields, is_kept, sanitize_rum_fields}
use frontend_observability.Sanitization.Removed.{Lacks, sanitize_rum_fields-Lacks}
use frontend_observability.Sanitization.Kept.{
  IsSafeAction, IsMarked, sanitize_action-IsSafeAction, sanitize_rum_fields-IsMarked,
}

abbrev no_url : String → Option String
no_url s = none

abbrev no_bytes : Value → ℕ
no_bytes v = 4

abbrev functions : UrlFunctions
functions = record {
  parse_url = λ s. none;
  decode_uri = λ s. some s;
  encode_uri_component = λ s. some s;
  lower_case = λ s. s;
}

-- A key of a forbidden category is left out.
abbrev attributes : Value
attributes = object (field "a" (num (nat 1)) (field "Card-No" (str "x") end))

forbidden_key_is_left_out :
    sanitize_attributes no_url no_bytes attributes 2048 12
    ≡ redacted (object (field "a" (num (nat 1)) end)) ("ATTRIBUTE_KEY_FORBIDDEN" ∷ [])
unfolding sanitize_attributes is_forbidden_key is_secret_key normalize_key_for_policy
    is_safe_attribute_key safe_key_pattern search_from ends many_from includes
forbidden_key_is_left_out = refl

sanitize_attributes-DropsOrIsBounded_example :
    DropsOrIsBounded no_url no_bytes 2048 12
      (sanitize_attributes no_url no_bytes attributes 2048 12)
sanitize_attributes-DropsOrIsBounded_example =
    sanitize_attributes-DropsOrIsBounded no_url no_bytes 2048 12 attributes

mail_is_redacted :
    sanitize_text no_url "by a@b.co" 128
    ≡ redacted (str "by [REDACTED_EMAIL]") ("PII_REDACTED" ∷ [])
unfolding sanitize_text contains_secret secret_patterns search_from ends many_from replace_from
    strip_url_query_and_fragment url_pattern path_query_pattern email_pattern uuid_pattern
    long_numeric_pattern phone_pattern iban_pattern card_pattern jwt_pattern base64_token_pattern
    truncate_by_chars includes is_space
mail_is_redacted = refl

secret_is_dropped : sanitize_text no_url "token: x" 128 ≡ dropped "SECRET_DETECTED"
unfolding sanitize_text contains_secret secret_patterns search_from ends many_from replace_from
    strip_url_query_and_fragment url_pattern path_query_pattern email_pattern uuid_pattern
    long_numeric_pattern phone_pattern iban_pattern card_pattern jwt_pattern base64_token_pattern
    truncate_by_chars includes is_space
secret_is_dropped = refl

action_is_kept : is_drop (sanitize_action no_url no_bytes (str " cart.add ") undefined) ≡ false
unfolding sanitize_action has_high_risk_identifier action_name_pattern search_from ends many_from
    email_pattern uuid_pattern long_numeric_pattern jwt_pattern base64_token_pattern secret_patterns
    is_space unique_reasons sanitize_attributes
action_is_kept = refl

sanitize_action-IsSafeAction_example :
    IsSafeAction no_url no_bytes
      (sanitize_action no_url no_bytes (str " cart.add ") undefined).value
sanitize_action-IsSafeAction_example =
    sanitize_action-IsSafeAction no_url no_bytes (str " cart.add ") undefined action_is_kept

abbrev event : Fields
event =
    field "type" (str "view")
      (field "usr" (object (field "id" (str "7") end)) (field "view" (object end) end))

event_is_kept :
    is_kept (sanitize_rum_fields functions no_url no_bytes undefined event).decision ≡ true
unfolding sanitize_rum_fields includes merge_decision sanitize_attributes
event_is_kept = refl

sanitize_rum_fields-Lacks_example :
    All
      (λ k. Lacks k (sanitize_rum_fields functions no_url no_bytes undefined event).event)
      removed_fields
sanitize_rum_fields-Lacks_example =
    sanitize_rum_fields-Lacks functions no_url no_bytes undefined event
      ((refl, (refl, tt)), ((refl, tt), (tt, tt))) event_is_kept

sanitize_rum_fields-IsMarked_example :
    IsMarked functions no_url no_bytes undefined
      (sanitize_rum_fields functions no_url no_bytes undefined event).event
sanitize_rum_fields-IsMarked_example =
    sanitize_rum_fields-IsMarked functions no_url no_bytes undefined event event_is_kept

-- A view with a referrer that is no address of the web: the referrer is deleted, and the event dropped.
abbrev referred : Fields
referred =
    field "type" (str "view") (field "view" (object (field "referrer" (str "data:,") end)) end)

referrer_drops_event :
    is_kept (sanitize_rum_fields functions no_url no_bytes undefined referred).decision ≡ false
unfolding sanitize_rum_fields includes merge_decision sanitize_attributes sanitize_url
referrer_drops_event = refl
