-- ===== src/Sanitization/Strings.antt =====
-- sanitization/detectors (keys.js, sensitive-values.js) and sanitizers/string.js.
--
-- The URL class is a parameter: what an address prints as once its user, password, query and fragment
-- are cleared, none where the constructor throws.
use Prim.Native.Char.{code}
use frontend_observability.Base.{
  ℕ, ◌+◌, String, Bool, true, false, not, ◌&&◌, ◌||◌, Option, List, [], ◌∷◌, ◌++◌, str_eq, ◌==◌,
  ltb, leb, if◌then◌else◌, includes, or_else,
}
use frontend_observability.Base.Json.{Value, str}
use frontend_observability.Base.Regex.{Regex, test, test_any, replace_all}
use frontend_observability.Sanitization.Patterns.{
  email_pattern, uuid_pattern, long_numeric_pattern, phone_pattern, iban_pattern, card_pattern,
  jwt_pattern, base64_token_pattern, secret_patterns, url_pattern, path_query_pattern,
}
use frontend_observability.Sanitization.Results.{
  Result, accepted, dropped, redact_or_accept, unique, byte_length, truncate_by_chars,
}

abbrev pub secret_key_categories : List String
secret_key_categories =
    "password" ∷ "secret" ∷ "token" ∷ "authorization" ∷ "cookie" ∷ "session" ∷ "csrf" ∷ []

abbrev pub forbidden_key_categories : List String
forbidden_key_categories =
    "password" ∷ "secret" ∷ "token" ∷ "authorization" ∷ "cookie" ∷ "session" ∷ "csrf" ∷ "body"
    ∷ "payload" ∷ "request" ∷ "response" ∷ "header" ∷ "card" ∷ "cvv" ∷ "pin" ∷ "iban" ∷ "email"
    ∷ "phone" ∷ "address" ∷ []

abbrev pub is_reserved_object_key : String → Bool
is_reserved_object_key key = includes ("__proto__" ∷ "constructor" ∷ "prototype" ∷ []) key

-- The code of a letter in lower case; the Kelvin sign and the capital I with a dot are the two letters
-- beyond ASCII that have one there.
abbrev pub lower_code : ℕ → ℕ
lower_code c =
    if leb b'A' c && leb c b'Z'
    then c + 32
    else if c == 8490
    then b'k'
    else if c == 304
    then b'i'
    else c

abbrev pub is_policy_code : ℕ → Bool
is_policy_code c = (leb b'a' c && leb c b'z') || (leb b'0' c && leb c b'9')

-- The codes of `String(key).toLowerCase().replace(/[^a-z0-9]/g, "")`.
unfoldable pub normalize_key_for_policy : String → List ℕ
normalize_key_for_policy String.[] = []
normalize_key_for_policy (String.◌∷◌ c s) =
    let rest = normalize_key_for_policy s in
    if is_policy_code (lower_code (code c)) then lower_code (code c) ∷ rest else rest

abbrev pub starts_with_codes : String → List ℕ → Bool
starts_with_codes String.[] codes = true
starts_with_codes (String.◌∷◌ c w) [] = false
starts_with_codes (String.◌∷◌ c w) (x ∷ xs) = x == code c && starts_with_codes w xs

-- `normalized.includes(category)`
abbrev pub has_word : String → List ℕ → Bool
has_word w [] = starts_with_codes w []
has_word w (x ∷ xs) = starts_with_codes w (x ∷ xs) || has_word w xs

abbrev pub has_any_word : List String → List ℕ → Bool
has_any_word [] codes = false
has_any_word (w ∷ ws) codes = has_word w codes || has_any_word ws codes

-- forbiddenKeyReason is not null; its only reason is ATTRIBUTE_KEY_FORBIDDEN.
unfoldable pub is_forbidden_key : String → Bool
is_forbidden_key key =
    is_reserved_object_key key
    || has_any_word forbidden_key_categories (normalize_key_for_policy key)

unfoldable pub is_secret_key : String → Bool
is_secret_key key = has_any_word secret_key_categories (normalize_key_for_policy key)

unfoldable pub contains_secret : String → Bool
contains_secret value = test_any secret_patterns value

-- A text with the reasons found so far.
pub record Redacting : Type 0 where
  pub text : String
  pub reasons : List String

unfoldable pub replace_and_reason : Regex → String → Redacting → Redacting
replace_and_reason pattern placeholder r = if not (test pattern r.text) then r else record {
  text = replace_all pattern (λ m. placeholder) r.text;
  reasons = r.reasons ++ "PII_REDACTED" ∷ [];
}

-- redactSensitiveText behind its test for a secret.
unfoldable pub redact_identifiers : String → Redacting
unfolding replace_and_reason
redact_identifiers value = replace_and_reason base64_token_pattern "[REDACTED_TOKEN]" (
    replace_and_reason long_numeric_pattern "[REDACTED_ID]" (
      replace_and_reason uuid_pattern "[REDACTED_UUID]" (
        replace_and_reason jwt_pattern "[REDACTED_TOKEN]" (
          replace_and_reason phone_pattern "[REDACTED_PHONE]" (
            replace_and_reason card_pattern "[REDACTED_CARD]" (
              replace_and_reason iban_pattern "[REDACTED_IBAN]" (
                replace_and_reason email_pattern "[REDACTED_EMAIL]"
                  (record { text = value; reasons = [] }))))))))

unfoldable pub has_high_risk_identifier : String → Bool
unfolding contains_secret
has_high_risk_identifier value =
    test email_pattern value
    || test uuid_pattern value
    || test long_numeric_pattern value
    || test jwt_pattern value
    || test base64_token_pattern value
    || contains_secret value

abbrev pub max_sanitizer_scan_length : ℕ
max_sanitizer_scan_length = 4096

-- `$1$2`: the part of a match before its `?` or `#`.
abbrev pub path_of_match : String → String
path_of_match String.[] = String.[]
path_of_match (String.◌∷◌ c s) =
    if code c == b'?' || code c == b'#' then String.[] else String.◌∷◌ c (path_of_match s)

module _ (url_without_query : String → Option String) where
  unfoldable pub strip_url_query_and_fragment : String → String
  strip_url_query_and_fragment value =
      replace_all path_query_pattern path_of_match (
        replace_all url_pattern (λ match. or_else (url_without_query match) "[REDACTED_URL]") value)

  -- sanitizeString of a text.
  unfoldable pub sanitize_text : String → ℕ → Result
  unfolding redact_identifiers
  sanitize_text value max_length =
      let scannable = truncate_by_chars value max_sanitizer_scan_length in
      let stripped = strip_url_query_and_fragment scannable in
      let redacted = redact_identifiers stripped in
      let text = truncate_by_chars redacted.text max_length in
      if contains_secret stripped
      then dropped "SECRET_DETECTED"
      else redact_or_accept (str text) (
          unique (
            redacted.reasons
            ++ (if str_eq stripped scannable then [] else "PII_REDACTED" ∷ [])
            ++ (if ltb (byte_length text) (byte_length value)
                then "PAYLOAD_TOO_LARGE" ∷ []
                else [])))

  -- Other values are accepted as they are.
  unfoldable pub sanitize_string : Value → ℕ → Result
  unfolding sanitize_text
  sanitize_string (str s) max_length = sanitize_text s max_length
  sanitize_string value max_length = accepted value
