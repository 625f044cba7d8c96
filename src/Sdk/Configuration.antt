-- ===== src/Sdk/Configuration.antt =====
-- config/load-config.js, validate-lifetime.js and merge-policy.js: the runtime configuration.
--
-- The response or the exception is an argument, as for a control document, and the reading of a body is
-- the same code. `Date.parse` of a text is the platform's, none for NaN, and
-- counts milliseconds from the earliest date there is.
use frontend_observability.Base.{
  ℕ, ◌+◌, ◌*◌, min, String, Bool, true, false, not, ◌&&◌, ◌||◌, Option, none, some, List, [], ◌∷◌,
  ◌==◌, ltb, leb, if◌then◌else◌, includes, length,
}
use frontend_observability.Base.Json.{
  Value, undefined, bool, num, Num, nat, negative, fraction, not_a_number, infinite, str, array,
  object, end, Elements, no_element, element, get, field_names, items, is_plain_object,
  has_unknown_key, utf16_length, is_text,
}
use frontend_observability.Base.Regex.{
  Regex, one, then_also, many, sequence, at_start, at_end, option, lit, between, test,
}
use frontend_observability.Base.Try.{Try, done, failed}
use frontend_observability.Sanitization.Patterns.{is_digit, is_alphanumeric}
use frontend_observability.Sdk.Options.{NormalizedOptions}
use frontend_observability.RuntimeControl.Fetch.{
  Platform, Thrown, Attempt, responded, threw, BodyResult, body_text, body_too_large, body_threw,
  is_json_content_type, read_bounded_body,
}

abbrev pub max_config_body_bytes : ℕ
max_config_body_bytes = 64 * 1024

abbrev pub config_keys : List String
config_keys =
    "schemaVersion" ∷ "configVersion" ∷ "enabled" ∷ "issuedAt" ∷ "expiresAt" ∷ "killSwitch"
    ∷ "privacyProfile" ∷ "sampling" ∷ "rum" ∷ "browserLogs" ∷ "sessionReplay" ∷ "sensitiveRoutes"
    ∷ []

-- `typeof value === "string" && value.length >= m && value.length <= n`
abbrev pub is_bounded_string : ℕ → ℕ → Value → Bool
is_bounded_string m n (str s) = leb m (utf16_length s) && leb (utf16_length s) n
is_bounded_string m n _ = false

-- `value === undefined || isString(value, m, n)`
abbrev pub is_optional_string : ℕ → ℕ → Value → Bool
is_optional_string m n undefined = true
is_optional_string m n value = is_bounded_string m n value

abbrev pub is_boolean_value : Value → Bool
is_boolean_value (bool b) = true
is_boolean_value _ = false

abbrev pub is_false_value : Value → Bool
is_false_value (bool b) = not b
is_false_value _ = false

abbrev pub has_one_key : Value → Bool
has_one_key (object fs) = length (field_names fs) == 1
has_one_key _ = false

-- 0, 1, and what lies strictly between.
abbrev pub is_rate : Value → Bool
is_rate (num (nat n)) = leb n 1
is_rate (num (fraction below_zero n p)) = not below_zero && n == 0
is_rate _ = false

unfoldable pub is_sampling : Value → Bool
is_sampling value =
    is_plain_object value
    && not (has_unknown_key value ("sessionSampleRate" ∷ []))
    && is_rate (get "sessionSampleRate" value)

-- `^[a-zA-Z0-9]([a-zA-Z0-9.-]*[a-zA-Z0-9])?(:[0-9]{1,5})?$`
unfoldable pub rum_site_pattern : Regex
rum_site_pattern = sequence (
    at_start
    ∷ one is_alphanumeric
    ∷ option (
        then_also (many (one (λ c. is_alphanumeric c || c == b'.' || c == b'-')))
          (one is_alphanumeric))
    ∷ option (then_also (lit ":") (between 1 4 (one is_digit)))
    ∷ at_end
    ∷ [])

abbrev pub rum_keys : List String
rum_keys = "site" ∷ "organizationIdentifier" ∷ "applicationId" ∷ "clientToken" ∷ "apiVersion" ∷ []

abbrev pub is_site : Value → Bool
is_site (str s) = test rum_site_pattern s
is_site _ = false

abbrev pub has_no_keys : Value → Bool
has_no_keys (object end) = true
has_no_keys _ = false

unfoldable pub is_rum_config : Value → Value → Bool
is_rum_config value enabled =
    let named =
      is_bounded_string 1 256 (get "site" value)
      && is_site (get "site" value)
      && is_bounded_string 1 128 (get "organizationIdentifier" value)
      && is_bounded_string 1 128 (get "applicationId" value)
      && is_bounded_string 16 256 (get "clientToken" value)
      && is_text "v1" (get "apiVersion" value) in
    is_plain_object value
    && not (has_unknown_key value rum_keys)
    && (if is_false_value enabled && has_no_keys value then true else named)

abbrev pub all_bounded_strings : ℕ → ℕ → List Value → Bool
all_bounded_strings m n [] = true
all_bounded_strings m n (v ∷ vs) = is_bounded_string m n v && all_bounded_strings m n vs

unfoldable pub is_string_array : ℕ → ℕ → Value → Bool
is_string_array max_items max_length (array vs) =
    leb (length (items vs)) max_items && all_bounded_strings 1 max_length (items vs)
is_string_array max_items max_length _ = false

unfoldable pub is_kill_switch : Value → Bool
is_kill_switch value =
    is_plain_object value
    && is_boolean_value (get "engaged" value)
    && not (has_unknown_key value ("engaged" ∷ "reason" ∷ []))
    && is_optional_string 0 256 (get "reason" value)

-- The early returns of validateRuntimeConfigShape, each a test that must hold.
unfoldable pub validate_runtime_config_shape : Value → Bool
unfolding is_sampling is_rum_config is_string_array is_kill_switch
validate_runtime_config_shape config =
    is_plain_object config
    && not (has_unknown_key config config_keys)
    && is_text "1.0.0" (get "schemaVersion" config)
    && is_optional_string 1 64 (get "configVersion" config)
    && is_boolean_value (get "enabled" config)
    && is_bounded_string 1 64 (get "issuedAt" config)
    && is_bounded_string 1 64 (get "expiresAt" config)
    && is_kill_switch (get "killSwitch" config)
    && is_text "strict" (get "privacyProfile" config)
    && is_sampling (get "sampling" config)
    && is_rum_config (get "rum" config) (get "enabled" config)
    && is_plain_object (get "browserLogs" config)
    && is_boolean_value (get "enabled" (get "browserLogs" config))
    && has_one_key (get "browserLogs" config)
    && is_plain_object (get "sessionReplay" config)
    && is_false_value (get "enabled" (get "sessionReplay" config))
    && has_one_key (get "sessionReplay" config)
    && is_string_array 100 256 (get "sensitiveRoutes" config)

abbrev pub clock_skew_tolerance_ms : ℕ
clock_skew_tolerance_ms = 5 * 60 * 1000

abbrev pub parse_date_of : (String → Option ℕ) → Value → Option ℕ
parse_date_of parse_date (str s) = parse_date s
parse_date_of parse_date _ = none

-- The reason for which a lifetime is not valid.
unfoldable pub config_lifetime : Option ℕ → Option ℕ → ℕ → Option String
config_lifetime (some issued) (some expires) now =
    if leb expires issued
    then some "CONFIG_SCHEMA_INVALID"
    else if leb expires now
    then some "CONFIG_EXPIRED"
    else if ltb (now + clock_skew_tolerance_ms) issued
    then some "CONFIG_NOT_YET_VALID"
    else none
config_lifetime _ _ now = some "CONFIG_SCHEMA_INVALID"

-- The `catch` block.
abbrev pub config_failure : Thrown → String
config_failure t =
    if t.controller_aborted && not t.parent_aborted
    then "CONFIG_TIMEOUT"
    else if t.is_abort_error
    then "CONFIG_TIMEOUT"
    else "CONFIG_UNAVAILABLE"

abbrev pub refused_or {ℓ} : {A : Type ℓ} → A → Option String → Try String A
refused_or a none = done a
refused_or a (some why) = failed why

module _ (p : Platform) where
  unfoldable pub check_config : Value → ℕ → Try String Value
  check_config config now =
      if not (validate_runtime_config_shape config)
      then failed "CONFIG_SCHEMA_INVALID"
      else refused_or config (
          config_lifetime (parse_date_of p.parse_date (get "issuedAt" config))
            (parse_date_of p.parse_date (get "expiresAt" config)) now)

  unfoldable pub parse_config : Option Value → ℕ → Try String Value
  unfolding check_config
  parse_config none now = failed "CONFIG_JSON_INVALID"
  parse_config (some config) now = check_config config now

  unfoldable pub check_config_body : BodyResult → ℕ → Try String Value
  unfolding parse_config
  check_config_body (body_text text) now = parse_config (p.parse_json text) now
  check_config_body body_too_large now = failed "CONFIG_TOO_LARGE"
  check_config_body (body_threw t) now = failed (config_failure t)

  unfoldable pub load_config : Attempt → ℕ → Try String Value
  unfolding check_config_body
  load_config (threw t) now = failed (config_failure t)
  load_config (responded r) now =
      if not (r.status == 200) || r.redirected
      then failed "CONFIG_HTTP_ERROR"
      else if not (is_json_content_type r.content_type)
      then failed "CONFIG_CONTENT_TYPE_INVALID"
      else check_config_body (read_bounded_body p max_config_body_bytes r.body) now

-- What mergePrivacyPolicy returns.
pub record PrivacyPolicy : Type 0 where
  pub service : String
  pub environment : Value
  pub version : String
  pub capture_bodies : Bool
  pub capture_cookies : Bool
  pub capture_headers : Bool
  pub privacy_mode : String
  pub telemetry_enabled : Bool
  pub session_sample_rate : Num
  pub rum_config : Value
  pub browser_logs_enabled : Bool
  pub session_replay_enabled : Bool
  pub excluded_routes : List String

abbrev pub is_true_value : Value → Bool
is_true_value (bool b) = b
is_true_value _ = false

-- `Math.min(1, rate)`
abbrev pub min_one : Value → Num
min_one (num (nat n)) = nat (min 1 n)
min_one (num (negative n)) = negative n
min_one (num (fraction below_zero n p)) =
    if not below_zero && ltb 0 n then nat 1 else fraction below_zero n p
min_one (num (infinite below_zero)) = if below_zero then infinite true else nat 1
min_one _ = not_a_number

abbrev pub snoc : List String → String → List String
snoc [] x = x ∷ []
snoc (y ∷ ys) x = y ∷ snoc ys x

-- `new Set(routes)`, with what is in the set already.
abbrev pub add_new : List String → List String → List String
add_new seen [] = seen
add_new seen (x ∷ xs) = add_new (if includes seen x then seen else snoc seen x) xs

abbrev pub texts_in : Elements → List String
texts_in no_element = []
texts_in (element (str s) vs) = s ∷ texts_in vs
texts_in (element v vs) = texts_in vs

abbrev pub route_texts : Value → List String
route_texts (array vs) = texts_in vs
route_texts _ = []

-- Of a configuration that validateRuntimeConfigShape has passed; the identity is of the options.
unfoldable pub merge_privacy_policy : NormalizedOptions → Value → PrivacyPolicy
merge_privacy_policy identity config =
    let enabled =
      is_true_value (get "enabled" config)
      && not (is_true_value (get "engaged" (get "killSwitch" config))) in
    record {
      service = identity.service;
      environment = identity.environment;
      version = identity.version;
      capture_bodies = false;
      capture_cookies = false;
      capture_headers = false;
      privacy_mode = "strict";
      telemetry_enabled = enabled;
      session_sample_rate = min_one (get "sessionSampleRate" (get "sampling" config));
      rum_config = get "rum" config;
      browser_logs_enabled = enabled && is_true_value (get "enabled" (get "browserLogs" config));
      session_replay_enabled = false;
      excluded_routes = add_new [] (route_texts (get "sensitiveRoutes" config));
    }
