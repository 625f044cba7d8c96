-- ===== src/Sdk/Options.antt =====
-- config/validate-options.js: the options that the page passes to the SDK.
--
-- The URL class and the page's origin are parameters. Options have data properties only. The schemes
-- that are refused have no letter that another character becomes in lower case, so they are compared
-- without case.
use frontend_observability.Base.{
  ℕ, String, Bool, true, false, not, ◌&&◌, ◌||◌, Option, none, some, List, [], ◌∷◌, ◌++◌, str_eq,
  ◌==◌, ltb, leb, if◌then◌else◌, includes,
}
use frontend_observability.Base.Json.{
  Value, undefined, null, str, object, field_names, get, utf16_length,
}
use frontend_observability.Base.Regex.{
  Regex, one, then_also, many, sequence, at_start, at_end, lit_i, between, test,
}
use frontend_observability.Sanitization.Actions.{trimmed}
use frontend_observability.Sanitization.Patterns.{is_digit, is_lower, hex, dash}

-- What the URL class tells of an address.
pub record ConfigUrl : Type 0 where
  pub protocol : String
  pub origin : String
  pub pathname : String
  pub href : String
  pub search : String
  pub hash : String

pub record Page : Type 0 where
  pub runtime_origin : String
  -- `new URL(address, base)`, none where it throws
  pub parse_url : String → String → Option ConfigUrl

pub data OptionError : Type 0 where
  not_plain_object : OptionError
  unknown_option : String → OptionError
  config_url_empty config_url_too_long config_url_scheme config_url_not_url : OptionError
  config_url_query config_url_origin config_url_protocol : OptionError
  service_missing service_length service_characters service_is_uuid : OptionError
  environment_unknown : OptionError
  version_missing version_too_long : OptionError

abbrev pub default_config_url : String
default_config_url = "/observability/config.json"

abbrev pub max_config_url_length : ℕ
max_config_url_length = 256

abbrev pub valid_environments : List String
valid_environments = "development" ∷ "test" ∷ "staging" ∷ "production" ∷ "lab" ∷ []

abbrev pub option_keys : List String
option_keys = "configUrl" ∷ "service" ∷ "environment" ∷ "version" ∷ []

-- `^[a-z0-9][a-z0-9-]*[a-z0-9]$`
unfoldable pub service_pattern : Regex
service_pattern = sequence (
    at_start
    ∷ one (λ c. is_lower c || is_digit c)
    ∷ many (one (λ c. is_lower c || is_digit c || c == b'-'))
    ∷ one (λ c. is_lower c || is_digit c)
    ∷ at_end
    ∷ [])

unfoldable pub service_uuid_pattern : Regex
service_uuid_pattern = sequence (
    at_start
    ∷ between 8 0 hex
    ∷ dash
    ∷ between 4 0 hex
    ∷ dash
    ∷ one (λ c. leb b'1' c && leb c b'5')
    ∷ between 3 0 hex
    ∷ dash
    ∷ one (λ c. c == b'8' || c == b'9' || c == b'a' || c == b'b' || c == b'A' || c == b'B')
    ∷ between 3 0 hex
    ∷ dash
    ∷ between 12 0 hex
    ∷ at_end
    ∷ [])

-- `if (test) errors.push(error)`
abbrev pub when : Bool → OptionError → List OptionError
when true e = e ∷ []
when false e = []

abbrev pub is_empty : String → Bool
is_empty String.[] = true
is_empty (String.◌∷◌ c s) = false

abbrev pub has_refused_scheme : String → Bool
has_refused_scheme s =
    test (then_also at_start (lit_i "javascript:")) s
    || test (then_also at_start (lit_i "data:")) s
    || test (then_also at_start (lit_i "file:")) s

abbrev pub unknown_options : List String → List OptionError
unknown_options [] = []
unknown_options (key ∷ keys) =
    when (not (includes option_keys key)) (unknown_option key) ++ unknown_options keys

-- `options.configUrl ?? DEFAULT_CONFIG_URL`
abbrev pub config_url_of : Value → Value
config_url_of undefined = str default_config_url
config_url_of null = str default_config_url
config_url_of v = v

abbrev pub service_text_errors : String → List OptionError
service_text_errors service =
    when (ltb (utf16_length service) 2 || ltb 64 (utf16_length service)) service_length
    ++ when (not (test service_pattern service)) service_characters
    ++ when (test service_uuid_pattern service) service_is_uuid

unfoldable pub service_errors : Value → List OptionError
service_errors (str s) = service_text_errors (trimmed s)
service_errors _ = service_missing ∷ []

abbrev pub is_environment : Value → Bool
is_environment (str s) = includes valid_environments s
is_environment _ = false

unfoldable pub version_errors : Value → List OptionError
version_errors (str s) =
    if is_empty (trimmed s)
    then version_missing ∷ []
    else when (ltb 64 (utf16_length s)) version_too_long
version_errors _ = version_missing ∷ []

-- What normalizeOptions returns.
pub record NormalizedOptions : Type 0 where
  pub config_url : String
  pub service : String
  pub environment : Value
  pub version : String

module _ (page : Page) where
  unfoldable pub parsed_url_errors : Option ConfigUrl → List OptionError
  parsed_url_errors none = config_url_not_url ∷ []
  parsed_url_errors (some url) =
      when (not (is_empty url.search) || not (is_empty url.hash)) config_url_query
      ++ when (not (str_eq url.origin page.runtime_origin)) config_url_origin
      ++ when (not (includes ("http:" ∷ "https:" ∷ []) url.protocol)) config_url_protocol

  unfoldable pub validate_config_url : Value → List OptionError
  unfolding parsed_url_errors
  validate_config_url (str s) =
      if is_empty (trimmed s)
      then config_url_empty ∷ []
      else when (ltb max_config_url_length (utf16_length s)) config_url_too_long
        ++ when (has_refused_scheme (trimmed s)) config_url_scheme
        ++ parsed_url_errors (page.parse_url s page.runtime_origin)
  validate_config_url _ = config_url_empty ∷ []

  -- The errors; the options are valid when there are none.
  unfoldable pub validate_options : Value → List OptionError
  unfolding validate_config_url service_errors version_errors
  validate_options (object fs) =
      let options = object fs in
      unknown_options (field_names fs)
      ++ validate_config_url (config_url_of (get "configUrl" options))
      ++ service_errors (get "service" options)
      ++ when (not (is_environment (get "environment" options))) environment_unknown
      ++ version_errors (get "version" options)
  validate_options _ = not_plain_object ∷ []

  abbrev pub normalized_config_url : ConfigUrl → String
  normalized_config_url url =
      if str_eq url.origin page.runtime_origin then url.pathname else url.href

  abbrev pub normalized_parts : Option ConfigUrl → Value → Value → Value → Option NormalizedOptions
  normalized_parts (some url) (str service) environment (str version) = some (record {
    config_url = normalized_config_url url;
    service = trimmed service;
    environment = environment;
    version = trimmed version;
  })
  normalized_parts _ _ _ _ = none

  abbrev pub parse_config_url : Value → Option ConfigUrl
  parse_config_url (str s) = page.parse_url s page.runtime_origin
  parse_config_url _ = none

  -- None where the source throws; a configUrl that is not a string is refused before.
  unfoldable pub normalize_options : Value → Option NormalizedOptions
  normalize_options options =
      normalized_parts (parse_config_url (config_url_of (get "configUrl" options)))
        (get "service" options) (get "environment" options) (get "version" options)
