-- ===== src/Sdk/Accepted.antt =====
-- What the options are that validateOptions finds no error in (config/validate-options.js).
use frontend_observability.Base.{
  ◌≤◌, String, Bool, true, false, not, ◌||◌, Option, none, some, List, [], ◌∷◌, ◌++◌, ◌≡◌, refl, ap,
  ◌∙◌, str_eq, eq_iff, ltb, if◌then◌else◌, includes, arith,
}
use mathlib.Core.List.{append-eq-nil_iff}
use frontend_observability.Base.Json.{Value, str, object, field_names, get, utf16_length}
use frontend_observability.Base.Regex.{test}
use frontend_observability.Sanitization.Actions.{trimmed}
use frontend_observability.Sdk.Options.{
  ConfigUrl, Page, OptionError, service_pattern, service_uuid_pattern, when, is_empty,
  config_url_query, config_url_origin, config_url_protocol, config_url_empty, version_missing,
  service_length, service_characters, service_is_uuid, unknown_options, config_url_of,
  service_text_errors, service_errors, is_environment, version_errors, environment_unknown,
  NormalizedOptions, parsed_url_errors, validate_config_url, validate_options, normalized_parts,
  parse_config_url, normalize_options,
}

pub record IsPageUrl (page : Page) (url : ConfigUrl) : Type 0 where
  pub no_query : (is_empty url.search ≡ true) × (is_empty url.hash ≡ true)
  pub same_origin : url.origin ≡ page.runtime_origin
  pub web : includes ("http:" ∷ "https:" ∷ []) url.protocol ≡ true

pub record IsAccepted (page : Page) (options : Value) (n : NormalizedOptions) : Type 0 where
  pub url : ConfigUrl
  pub parsed : parse_config_url page (config_url_of (get "configUrl" options)) ≡ some url
  pub safe : IsPageUrl page url
  pub relative : n.config_url ≡ url.pathname
  pub service_bounds : (2 ≤ utf16_length n.service) × (utf16_length n.service ≤ 64)
  pub service_form :
      (test service_pattern n.service ≡ true) × (test service_uuid_pattern n.service ≡ false)
  pub known_environment :
      (n.environment ≡ get "environment" options) × (is_environment n.environment ≡ true)
  pub has_version : is_empty n.version ≡ false

left : (xs ys : List OptionError) → xs ++ ys ≡ [] → xs ≡ []
left xs ys h = ((append-eq-nil_iff {p = xs}).0 h).0

right : (xs ys : List OptionError) → xs ++ ys ≡ [] → ys ≡ []
right xs ys h = ((append-eq-nil_iff {p = xs}).0 h).1

when-none : (b : Bool) (e : OptionError) → when b e ≡ [] → b ≡ false
when-none true e h = cc
when-none false e h = refl

either_error :
    (b : Bool) (e : OptionError) (xs : List OptionError)
    → (if b then e ∷ [] else xs) ≡ []
    → (b ≡ false) × (xs ≡ [])
either_error true e xs h = cc
either_error false e xs h = (refl, h)

parsed_url_errors-IsPageUrl :
    (page : Page) (url : Option ConfigUrl)
    → parsed_url_errors page url ≡ []
    → (u : ConfigUrl) × (url ≡ some u) × IsPageUrl page u
unfolding parsed_url_errors
parsed_url_errors-IsPageUrl page none h = cc
parsed_url_errors-IsPageUrl page (some u) h =
    let query = not (is_empty u.search) || not (is_empty u.hash) in
    let elsewhere = not (str_eq u.origin page.runtime_origin) in
    let other = not (includes ("http:" ∷ "https:" ∷ []) u.protocol) in
    let h' = left _ (when other config_url_protocol) h in
    let plain = when-none query config_url_query (left _ (when elsewhere config_url_origin) h') in
    let origin = when-none elsewhere config_url_origin (right (when query config_url_query) _ h') in
    let protocol =
      when-none other config_url_protocol
        (right (when query config_url_query ++ when elsewhere config_url_origin) _ h) in
    (
      u,
      refl,
      record {
        no_query = (ground (arith, plain), ground (arith, plain));
        same_origin = (eq_iff u.origin page.runtime_origin).0 (ground (arith, origin));
        web = ground (arith, protocol);
      },
    )

validate_config_url-text :
    (page : Page) (v : Value)
    → validate_config_url page v ≡ []
    → (s : String) × (v ≡ str s)
      × (parsed_url_errors page (page.parse_url s page.runtime_origin) ≡ [])
unfolding validate_config_url
validate_config_url-text page (str s) h =
    (s, refl, right _ _ (either_error (is_empty (trimmed s)) config_url_empty _ h).1)
validate_config_url-text page _ h = cc

service_errors-text :
    (v : Value)
    → service_errors v ≡ []
    → (s : String) × (v ≡ str s) × (service_text_errors (trimmed s) ≡ [])
unfolding service_errors
service_errors-text (str s) h = (s, refl, h)
service_errors-text _ h = cc

version_errors-text :
    (v : Value)
    → version_errors v ≡ []
    → (s : String) × (v ≡ str s) × (is_empty (trimmed s) ≡ false)
unfolding version_errors
version_errors-text (str s) h =
    (s, refl, (either_error (is_empty (trimmed s)) version_missing _ h).0)
version_errors-text _ h = cc

service_text_errors-bounds :
    (s : String)
    → service_text_errors s ≡ []
    → (2 ≤ utf16_length s)
      × (utf16_length s ≤ 64)
      × (test service_pattern s ≡ true)
      × (test service_uuid_pattern s ≡ false)
service_text_errors-bounds s h =
    let size = ltb (utf16_length s) 2 || ltb 64 (utf16_length s) in
    let other = not (test service_pattern s) in
    let uuid = test service_uuid_pattern s in
    let h' = left _ (when uuid service_is_uuid) h in
    let sized = when-none size service_length (left _ (when other service_characters) h') in
    let formed = when-none other service_characters (right (when size service_length) _ h') in
    let unlike =
      when-none uuid service_is_uuid
        (right (when size service_length ++ when other service_characters) _ h) in
    (ground (arith, sized), ground (arith, sized), ground (arith, formed), unlike)

-- Of a text whose parts have no errors.
accept :
    (page : Page) (options : Value) (address service version : String)
    → config_url_of (get "configUrl" options) ≡ str address
    → get "service" options ≡ str service
    → get "version" options ≡ str version
    → parsed_url_errors page (page.parse_url address page.runtime_origin) ≡ []
    → service_text_errors (trimmed service) ≡ []
    → is_environment (get "environment" options) ≡ true
    → is_empty (trimmed version) ≡ false
    → (n : NormalizedOptions) × (normalize_options page options ≡ some n)
      × IsAccepted page options n
unfolding normalize_options
accept page options address service version ha hs hv url_ok service_ok environment_ok version_ok =
    let (u, parsed, safe) = parsed_url_errors-IsPageUrl page _ url_ok in
    let bounds = service_text_errors-bounds _ service_ok in
    let addressed = ap (parse_config_url page) ha ∙ parsed in
    let env = get "environment" options in
    let here : str_eq u.origin page.runtime_origin ≡ true =
      (eq_iff u.origin page.runtime_origin).1 safe.same_origin in
    let named : normalize_options page options
        ≡ normalized_parts page (some u) (str service) env (str version) =
      ap (λ x. normalized_parts page x (get "service" options) env (get "version" options))
        addressed
      ∙ ap (λ x. normalized_parts page (some u) x env (get "version" options)) hs
      ∙ ap (λ x. normalized_parts page (some u) (str service) env x) hv in
    (
      record {
        config_url = u.pathname;
        service = trimmed service;
        environment = get "environment" options;
        version = trimmed version;
      },
      named
          ∙ ap
              (λ b. some (record {
                config_url = if b then u.pathname else u.href;
                service = trimmed service;
                environment = env;
                version = trimmed version;
              }))
              here,
      record {
        url = u;
        parsed = addressed;
        safe = safe;
        relative = refl;
        service_bounds = (bounds.0, bounds.1);
        service_form = (bounds.2, bounds.3);
        known_environment = (refl, environment_ok);
        has_version = version_ok;
      },
    )

-- Where validateOptions finds no error, normalizeOptions does not throw. The URL class parses the
-- options' configUrl, or the default where there is none, to an address of the page's own origin, of
-- the protocol http: or https: and with no query and no fragment; the normalized configUrl is its
-- path. The normalized service has 2 to 64 characters, matches the pattern of a service and is not a
-- UUID; the environment is the options' own and one of the five known; the version is not empty.
pub validate_options-IsAccepted :
    (page : Page) (options : Value)
    → validate_options page options ≡ []
    → (n : NormalizedOptions) × (normalize_options page options ≡ some n)
      × IsAccepted page options n
unfolding validate_options
validate_options-IsAccepted page (object fs) h =
    let options = object fs in
    let unknown = unknown_options (field_names fs) in
    let addressed = validate_config_url page (config_url_of (get "configUrl" options)) in
    let serviced = service_errors (get "service" options) in
    let foreign = when (not (is_environment (get "environment" options))) environment_unknown in
    let versioned = version_errors (get "version" options) in
    let h3 = left (unknown ++ addressed ++ serviced ++ foreign) versioned h in
    let h2 = left (unknown ++ addressed ++ serviced) foreign h3 in
    let h1 = left (unknown ++ addressed) serviced h2 in
    let (address, ha, url_ok) = validate_config_url-text page _ (right unknown addressed h1) in
    let (service, hs, service_ok) =
      service_errors-text _ (right (unknown ++ addressed) serviced h2) in
    let (version, hv, version_ok) =
      version_errors-text _ (right (unknown ++ addressed ++ serviced ++ foreign) versioned h) in
    let known =
      when-none _ environment_unknown (right (unknown ++ addressed ++ serviced) foreign h3) in
    accept page options address service version ha hs hv url_ok service_ok (ground (arith, known))
      version_ok
validate_options-IsAccepted page _ h = cc
