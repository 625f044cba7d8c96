-- ===== src/Sanitization/Urls.antt =====
-- sanitization/sanitizers/url.js and resource.js, and policy/baseline.js.
--
-- The URL class is a parameter: of a text and the page's address, what it parses to, none where the
-- constructor throws. So are decodeURI and encodeURIComponent, none where they throw. Letters beyond
-- ASCII are left as they are by `toLowerCase`.
use Prim.Native.Char.{code}
use Prim.Native.String
use frontend_observability.Base.{
  String, Bool, true, false, not, ◌&&◌, ◌||◌, Option, none, some, List, [], ◌∷◌, ◌++◌, str_eq, ◌==◌,
  ltb, if◌then◌else◌, includes,
}
use frontend_observability.Base.Json.{Value, str, array, Elements, no_element, element, get}
use frontend_observability.Base.Regex.{
  Regex, one, sequence, at_start, at_end, at_least, between, test, replace_all,
}
use frontend_observability.Base.Try.{Try, done, failed, ◌>>=◌}
use frontend_observability.Sanitization.Patterns.{
  is_digit, is_hex_digit, is_jwt_unit, uuid_pattern, base64_token_pattern, asset_hash_pattern,
}
use frontend_observability.Sanitization.Results.{
  Result, dropped, redact_or_accept, unique, byte_length,
}
use frontend_observability.Sanitization.Actions.{is_empty, split_at}

abbrev pub default_sensitive_routes : List String
default_sensitive_routes =
    "/login" ∷ "/auth" ∷ "/password" ∷ "/reset-password" ∷ "/payment" ∷ "/checkout" ∷ "/card"
    ∷ "/identity" ∷ "/kyc" ∷ "/document" ∷ "/upload" ∷ []

abbrev pub observability_resource_paths : List String
observability_resource_paths =
    "/rum/v1/default/rum" ∷ "/rum/v1/default/logs" ∷ "/observability/config.json"
    ∷ "/observability/control.json" ∷ []

abbrev pub forbidden_url_schemes : List String
forbidden_url_schemes = "data:" ∷ "blob:" ∷ "javascript:" ∷ "file:" ∷ []

abbrev pub starts_with_slash : String → Bool
starts_with_slash String.[] = false
starts_with_slash (String.◌∷◌ c s) = code c == b'/'

-- The routes of `policy.excludedRoutes` that are kept.
abbrev pub kept_routes : (String → String) → Elements → List String
kept_routes lower_case no_element = []
kept_routes lower_case (element (str s) vs) =
    if starts_with_slash s
    then lower_case s ∷ kept_routes lower_case vs
    else kept_routes lower_case vs
kept_routes lower_case (element v vs) = kept_routes lower_case vs

abbrev pub routes_of : (String → String) → Value → List String
routes_of lower_case (array vs) = kept_routes lower_case vs
routes_of lower_case _ = []

-- The field sensitiveRoutes of buildSanitizationPolicy.
unfoldable pub sensitive_routes : (String → String) → Value → List String
sensitive_routes lower_case runtime_policy =
    unique (default_sensitive_routes ++ routes_of lower_case (get "excludedRoutes" runtime_policy))

abbrev pub has_prefix : String → String → Bool
has_prefix String.[] s = true
has_prefix (String.◌∷◌ c p) String.[] = false
has_prefix (String.◌∷◌ c p) (String.◌∷◌ d s) = code c == code d && has_prefix p s

abbrev pub is_under_any : String → List String → Bool
is_under_any path [] = false
is_under_any path (route ∷ routes) =
    str_eq path route || has_prefix (String.◌++◌ route "/") path || is_under_any path routes

abbrev pub filled : List String → List String
filled [] = []
filled (s ∷ ss) = if is_empty s then filled ss else s ∷ filled ss

-- `parts.join("/")`
abbrev pub join_slashes : List String → String
join_slashes [] = ""
join_slashes (s ∷ []) = s
join_slashes (s ∷ t ∷ ss) = String.◌++◌ s (String.◌++◌ "/" (join_slashes (t ∷ ss)))

unfoldable pub normalize_path : String → String
normalize_path pathname = String.◌++◌ "/" (join_slashes (filled (split_at b'/' pathname)))

abbrev pub has_first_point : String → Bool
has_first_point String.[] = false
has_first_point (String.◌∷◌ c s) = code c == b'.'

-- `segment.slice(0, segment.lastIndexOf("."))`, none where the last point is missing or comes first.
abbrev pub before_last_point : String → Option String
before_last_point String.[] = none
before_last_point (String.◌∷◌ c s) = elim (before_last_point s) [
  | some name ↦ some (String.◌∷◌ c name)
  | none ↦ if has_first_point s then some (String.◌∷◌ c String.[]) else none
]

-- `^\d{9,}$` and `^[A-Za-z0-9_-]{24,}$`
abbrev pub long_number : Regex
long_number = sequence (at_start ∷ at_least 9 (one is_digit) ∷ at_end ∷ [])

abbrev pub opaque_token : Regex
opaque_token = sequence (at_start ∷ at_least 24 (one is_jwt_unit) ∷ at_end ∷ [])

-- `[.-][A-Fa-f0-9]{8,64}$`
abbrev pub hash_suffix : Regex
hash_suffix =
    sequence (one (λ c. c == b'.' || c == b'-') ∷ between 8 56 (one is_hex_digit) ∷ at_end ∷ [])

unfoldable pub looks_like_asset_hash : String → Bool
looks_like_asset_hash segment = elim (before_last_point segment) [
  | none ↦ test asset_hash_pattern segment
  | some name ↦ test hash_suffix name
]

-- What `new URL(value, base)` has, and what of it is compared with the page's own address.
pub record ParsedUrl : Type 0 where
  pub protocol : String
  pub origin : String
  pub pathname : String
  pub has_search : Bool
  pub has_hash : Bool
  pub has_user : Bool
  pub same_origin : Bool

pub record UrlFunctions : Type 0 where
  pub parse_url : String → Option ParsedUrl
  pub decode_uri : String → Option String
  pub encode_uri_component : String → Option String
  pub lower_case : String → String

pub record UrlOptions : Type 0 where
  pub policy : Value
  pub resource : Bool

-- An exception, or a drop that is returned early, is the drop's reason.
abbrev pub reason_or {ℓ} : {A : Type ℓ} → String → Option A → Try String A
reason_or reason none = failed reason
reason_or reason (some a) = done a

module _ (u : UrlFunctions) where
  unfoldable pub sanitize_segment : String → Try String String
  unfolding looks_like_asset_hash
  sanitize_segment segment =
      if is_empty segment
      then done ""
      else if test long_number segment
      then done ":id"
      else if test uuid_pattern segment
      then done ":uuid"
      else if looks_like_asset_hash segment
      then done (replace_all asset_hash_pattern (λ match. ":hash") segment)
      else if test base64_token_pattern segment || test opaque_token segment
      then done ":opaque"
      else reason_or "URL_INVALID" (u.encode_uri_component segment)

  unfoldable pub sanitize_segments : List String → Try String (List String)
  unfolding sanitize_segment
  sanitize_segments [] = done []
  sanitize_segments (s ∷ ss) = do
    first ← sanitize_segment s
    rest ← sanitize_segments ss
    done (first ∷ rest)

  unfoldable pub normalize_segments : String → Try String String
  unfolding sanitize_segments
  normalize_segments pathname = do
    segments ← sanitize_segments (split_at b'/' pathname)
    done (join_slashes segments)

  unfoldable pub is_sensitive_route : String → List String → Bool
  is_sensitive_route pathname routes = is_under_any (u.lower_case pathname) routes

  -- The path that is reported, and the reasons for a change of it.
  unfoldable pub reported_path : UrlOptions → String → Try String (String × List String)
  unfolding is_sensitive_route normalize_segments
  reported_path options pathname =
      if is_sensitive_route pathname (sensitive_routes u.lower_case options.policy)
      then done ("/__sensitive__", "SENSITIVE_ROUTE_REDACTED" ∷ [])
      else normalize_segments pathname >>= λ normalized.
          done (normalized, (if str_eq normalized pathname then [] else "PII_REDACTED" ∷ []))

  unfoldable pub check_scheme : ParsedUrl → Try String (Unit {0})
  check_scheme parsed =
      if includes forbidden_url_schemes parsed.protocol
      then failed "URL_SCHEME_FORBIDDEN"
      else if not (str_eq parsed.protocol "http:") && not (str_eq parsed.protocol "https:")
      then failed "URL_SCHEME_FORBIDDEN"
      else done tt

  -- A resource of the observability itself is not reported.
  unfoldable pub check_resource : UrlOptions → String → Try String (Unit {0})
  check_resource options pathname =
      if options.resource && includes observability_resource_paths pathname
      then failed "URL_INVALID"
      else done tt

  abbrev pub reported_url : ParsedUrl → String × List String → Result
  reported_url parsed (pathname, reasons) =
      redact_or_accept
        (str (if parsed.same_origin then pathname else String.◌++◌ parsed.origin pathname))
        (unique (
          reasons
          ++ (if parsed.has_search || parsed.has_hash || parsed.has_user
              then "PII_REDACTED" ∷ []
              else [])))

  -- sanitizeUrl of a text, its drops as reasons.
  unfoldable pub try_url : String → UrlOptions → Try String Result
  unfolding check_scheme check_resource reported_path
  try_url value options =
      if is_empty value
      then failed "URL_INVALID"
      else if ltb 1024 (byte_length value)
      then failed "PAYLOAD_TOO_LARGE"
      else do
        parsed ← reason_or "URL_INVALID" (u.parse_url value)
        checked ← check_scheme parsed
        decoded ← reason_or "URL_INVALID" (u.decode_uri parsed.pathname)
        allowed ← check_resource options (normalize_path decoded)
        path ← reported_path options (normalize_path decoded)
        done (reported_url parsed path)

  abbrev pub result_of_try : Try String Result → Result
  result_of_try (done r) = r
  result_of_try (failed reason) = dropped reason

  unfoldable pub sanitize_url : Value → UrlOptions → Result
  unfolding try_url
  sanitize_url (str value) options = result_of_try (try_url value options)
  sanitize_url _ options = dropped "URL_INVALID"

  unfoldable pub sanitize_resource : Value → Value → Result
  unfolding sanitize_url
  sanitize_resource resource policy =
      sanitize_url (get "url" resource) (record { policy = policy; resource = true })
