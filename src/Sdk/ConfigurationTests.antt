-- ===== src/Sdk/ConfigurationTests.antt =====
-- Examples for the configuration: a response with one that is in force, and a page's options.
use frontend_observability.Base.{
  ℕ, String, Bool, true, false, Option, none, some, [], ◌∷◌, ◌≡◌, refl, str_eq, if◌then◌else◌,
}
use frontend_observability.Base.Json.{
  Value, bool, num, nat, fraction, str, array, object, end, field, element, no_element,
}
use frontend_observability.Base.Try.{done}
use frontend_observability.RuntimeControl.Fetch.{
  Platform, Response, Attempt, responded, whole, application_json,
}
use frontend_observability.Sdk.Configuration.{load_config, merge_privacy_policy}
use frontend_observability.Sdk.Options.{
  Page, validate_options, NormalizedOptions, normalize_options,
}
use frontend_observability.Sdk.Accepted.{IsAccepted, validate_options-IsAccepted}
use frontend_observability.Sdk.Governed.{IsCurrent, IsGoverned, load_config-IsGoverned}

abbrev current_config : Value
current_config = object (
    field "schemaVersion" (str "1.0.0") (
      field "enabled" (bool true) (
        field "issuedAt" (str "2026-01-01T00:00:00Z") (
          field "expiresAt" (str "2026-01-02T00:00:00Z") (
            field "killSwitch" (object (field "engaged" (bool false) end)) (
              field "privacyProfile" (str "strict") (
                field "sampling" (object (field "sessionSampleRate" (num (nat 1)) end)) (
                  field "rum"
                    (object (
                      field "site" (str "rum.example.org:443") (
                        field "organizationIdentifier" (str "shop") (
                          field "applicationId" (str "web") (
                            field "clientToken" (str "0123456789abcdef")
                              (field "apiVersion" (str "v1") end))))))
                    (field "browserLogs" (object (field "enabled" (bool true) end)) (
                      field "sessionReplay" (object (field "enabled" (bool false) end)) (
                        field "sensitiveRoutes" (array (element (str "/checkout") no_element))
                          end)))))))))))

abbrev shop_identity : NormalizedOptions
shop_identity = record {
  config_url = "/observability/config.json";
  service = "web-shop";
  environment = str "production";
  version = "1.4.0";
}

abbrev config_platform : Platform
config_platform = record {
  parse_json = λ text. some current_config;
  parse_date = λ s. if str_eq s "2026-01-01T00:00:00Z" then some 1000 else some 90000;
  decode_utf8 = λ bytes. bytes;
  encoded_length = λ text. 600;
}

abbrev config_response : Response
config_response = record {
  status = 200;
  redirected = false;
  content_type = some application_json;
  body = whole [];
}

current_config_loaded :
    load_config config_platform (responded config_response) 5000 ≡ done current_config
unfolding load_config frontend_observability.RuntimeControl.Fetch.is_json_content_type
    frontend_observability.Base.Text.text_eq frontend_observability.Base.Text.to_lower
    frontend_observability.Base.Text.trim frontend_observability.Base.Text.before_unit
    frontend_observability.RuntimeControl.Fetch.read_bounded_body
    frontend_observability.Sdk.Configuration.validate_runtime_config_shape
    frontend_observability.Base.Json.any_not_included frontend_observability.Base.includes
    frontend_observability.Base.Regex.search_from frontend_observability.Base.Regex.ends
    frontend_observability.Sdk.Configuration.rum_site_pattern
    frontend_observability.Sdk.Configuration.config_lifetime
current_config_loaded = refl

load_config-IsGoverned_example :
    IsCurrent config_platform.parse_date current_config 5000
    × IsGoverned current_config (merge_privacy_policy shop_identity current_config)
load_config-IsGoverned_example =
    load_config-IsGoverned config_platform (responded config_response) 5000 shop_identity
      current_config current_config_loaded

abbrev shop_page : Page
shop_page = record {
  runtime_origin = "https://shop.example";
  parse_url = λ address base. some (record {
    protocol = "https:";
    origin = "https://shop.example";
    pathname = "/observability/config.json";
    href = "https://shop.example/observability/config.json";
    search = "";
    hash = "";
  });
}

abbrev shop_options : Value
shop_options = object (
    field "service" (str " web-shop ")
      (field "environment" (str "production") (field "version" (str "1.4.0") end)))

shop_options_valid : validate_options shop_page shop_options ≡ []
unfolding validate_options frontend_observability.Base.includes
    frontend_observability.Base.Text.is_space frontend_observability.Base.Regex.search_from
    frontend_observability.Base.Regex.ends frontend_observability.Sdk.Options.service_pattern
    frontend_observability.Sdk.Options.service_uuid_pattern
shop_options_valid = refl

validate_options-IsAccepted_example :
    (n : NormalizedOptions) × (normalize_options shop_page shop_options ≡ some n)
    × IsAccepted shop_page shop_options n
validate_options-IsAccepted_example =
    validate_options-IsAccepted shop_page shop_options shop_options_valid
