-- ===== src/Delivery/Patterns.antt =====
-- packages/telemetry-delivery-core/src/redaction.js: the patterns, and the tests on keys and texts.
--
-- The flag i concerns the letters of ASCII. A group that captures nothing is a sequence.
use frontend_observability.Base.{
  ℕ, String, Bool, false, not, ◌&&◌, ◌||◌, List, [], ◌∷◌, ◌==◌, leb, includes, if◌then◌else◌,
}
use frontend_observability.Base.Text.{is_space}
use frontend_observability.Base.Regex.{
  Regex, one, then_also, either, many, word_boundary, at_start, at_end, test, test_any, lit, lit_i,
  option, some_of, at_least, units_at_least, between, one_of_words, sequence,
}

-- The classes of units: `\d`, `[A-Za-z]`, `[a-f0-9]` under the flag i, `\S`, `[^\s?#]`.
abbrev pub is_digit : ℕ → Bool
is_digit c = leb b'0' c && leb c b'9'

abbrev pub is_letter : ℕ → Bool
is_letter c = (leb b'a' c && leb c b'z') || (leb b'A' c && leb c b'Z')

abbrev pub is_hex_digit : ℕ → Bool
is_hex_digit c = is_digit c || (leb b'a' c && leb c b'f') || (leb b'A' c && leb c b'F')

abbrev pub is_not_space : ℕ → Bool
is_not_space c = not (is_space c)

abbrev pub is_path_unit : ℕ → Bool
is_path_unit c = not (is_space c) && not (c == b'?') && not (c == b'#')

-- `(^|[_-])` and `([_-]|$)`
abbrev pub key_start : Regex
key_start = either at_start (one (λ c. c == b'_' || c == b'-'))

abbrev pub key_end : Regex
key_end = either (one (λ c. c == b'_' || c == b'-')) at_end

-- `[_-]?`
abbrev pub dash : Regex
dash = option (one (λ c. c == b'_' || c == b'-'))

abbrev pub spaces : Regex
spaces = some_of (one is_space)

abbrev pub api_key : Regex
api_key = sequence (lit_i "api" ∷ dash ∷ lit_i "key" ∷ [])

abbrev pub private_key : Regex
private_key = sequence (lit_i "private" ∷ dash ∷ lit_i "key" ∷ [])

unfoldable pub secret_key_pattern : Regex
secret_key_pattern = sequence (
    key_start
    ∷ either
        (one_of_words
          ("authorization" ∷ "cookie" ∷ "password" ∷ "passwd" ∷ "secret" ∷ "token" ∷ []))
        (either api_key (either private_key (one_of_words ("credential" ∷ "jwt" ∷ []))))
    ∷ key_end
    ∷ [])

unfoldable pub unsafe_field_pattern : Regex
unsafe_field_pattern = sequence (
    key_start
    ∷ either (then_also (lit_i "header") (option (lit_i "s"))) (
        one_of_words (
          "request" ∷ "response" ∷ "body" ∷ "payload" ∷ "form" ∷ "forms" ∷ "dom" ∷ "document"
          ∷ "html" ∷ "input" ∷ "textarea" ∷ "cookie" ∷ "authorization" ∷ "replay" ∷ "segment"
          ∷ "video" ∷ "rrweb" ∷ "snapshot" ∷ "user" ∷ "usr" ∷ "account" ∷ "email" ∷ "phone" ∷ "ip"
          ∷ "client_ip" ∷ "remote_addr" ∷ []))
    ∷ key_end
    ∷ [])

abbrev pub is_bearer_unit : ℕ → Bool
is_bearer_unit c =
    is_letter c
    || is_digit c
    || c == b'.'
    || c == b'_'
    || c == b'~'
    || c == b'+'
    || c == b'/'
    || c == b'='
    || c == b'-'

abbrev pub is_basic_unit : ℕ → Bool
is_basic_unit c = is_letter c || is_digit c || c == b'+' || c == b'/' || c == b'='

abbrev pub is_jwt_unit : ℕ → Bool
is_jwt_unit c = is_letter c || is_digit c || c == b'_' || c == b'-'

unfoldable pub secret_value_patterns : List Regex
secret_value_patterns =
    sequence (
      lit_i "-----begin "
      ∷ many (one (λ c. is_letter c || c == b' '))
      ∷ lit_i "private key-----"
      ∷ [])
    ∷ sequence (word_boundary ∷ lit_i "bearer" ∷ spaces ∷ at_least 12 (one is_bearer_unit) ∷ [])
    ∷ sequence (word_boundary ∷ lit_i "basic" ∷ spaces ∷ at_least 12 (one is_basic_unit) ∷ [])
    ∷ sequence (
        word_boundary
        ∷ either (one_of_words ("token" ∷ "secret" ∷ "password" ∷ [])) api_key
        ∷ lit "="
        ∷ units_at_least 6 is_not_space
        ∷ [])
    ∷ sequence (
        word_boundary
        ∷ lit "eyJ"
        ∷ at_least 8 (one is_jwt_unit)
        ∷ lit "."
        ∷ at_least 8 (one is_jwt_unit)
        ∷ lit "."
        ∷ at_least 8 (one is_jwt_unit)
        ∷ word_boundary
        ∷ [])
    ∷ []

-- `25[0-5]|2[0-4]\d|1?\d?\d`
abbrev pub octet : Regex
octet = either (then_also (lit "25") (one (λ c. leb b'0' c && leb c b'5'))) (
    either (sequence (lit "2" ∷ one (λ c. leb b'0' c && leb c b'4') ∷ one is_digit ∷ []))
      (sequence (option (lit "1") ∷ option (one is_digit) ∷ one is_digit ∷ [])))

unfoldable pub ipv4_pattern : Regex
ipv4_pattern =
    sequence (word_boundary ∷ between 3 0 (then_also octet (lit ".")) ∷ octet ∷ word_boundary ∷ [])

unfoldable pub ipv6_pattern : Regex
ipv6_pattern = sequence (
    word_boundary
    ∷ between 2 5 (then_also (between 1 3 (one is_hex_digit)) (lit ":"))
    ∷ between 1 3 (one is_hex_digit)
    ∷ word_boundary
    ∷ [])

abbrev pub is_mailbox_unit : ℕ → Bool
is_mailbox_unit c =
    is_letter c || is_digit c || c == b'.' || c == b'_' || c == b'%' || c == b'+' || c == b'-'

abbrev pub is_host_unit : ℕ → Bool
is_host_unit c = is_letter c || is_digit c || c == b'.' || c == b'-'

unfoldable pub email_pattern : Regex
email_pattern = sequence (
    word_boundary
    ∷ some_of (one is_mailbox_unit)
    ∷ lit "@"
    ∷ some_of (one is_host_unit)
    ∷ lit "."
    ∷ at_least 2 (one is_letter)
    ∷ word_boundary
    ∷ [])

unfoldable pub long_numeric_id_pattern : Regex
long_numeric_id_pattern = sequence (word_boundary ∷ at_least 12 (one is_digit) ∷ word_boundary ∷ [])

-- `https?:\/\/[^\s?#]+[^\s]*`
unfoldable pub url_pattern : Regex
url_pattern = sequence (
    lit_i "http"
    ∷ option (lit_i "s")
    ∷ lit "://"
    ∷ some_of (one is_path_unit)
    ∷ many (one is_not_space)
    ∷ [])

-- `(^|\s)(\/[^\s?#]*)[?#][^\s]*`
unfoldable pub path_query_pattern : Regex
path_query_pattern = sequence (
    either at_start (one is_space)
    ∷ lit "/"
    ∷ many (one is_path_unit)
    ∷ one (λ c. c == b'?' || c == b'#')
    ∷ many (one is_not_space)
    ∷ [])

-- `"?(authorization|...|rrweb)"?\s*:`
unfoldable pub unsafe_text_pattern : Regex
unsafe_text_pattern = sequence (
    option (lit "\"")
    ∷ either (one_of_words ("authorization" ∷ "cookie" ∷ "password" ∷ [])) (
        either private_key (
          either (sequence (one_of_words ("request" ∷ "response" ∷ []) ∷ dash ∷ lit_i "body" ∷ []))
            (one_of_words ("replay" ∷ "segment" ∷ "video" ∷ "rrweb" ∷ []))))
    ∷ option (lit "\"")
    ∷ many (one is_space)
    ∷ lit ":"
    ∷ [])

-- `^[A-Za-z0-9_.-]{1,96}$`
unfoldable pub safe_key_pattern : Regex
safe_key_pattern = sequence (
    at_start
    ∷ between 1 95 (one (λ c. is_letter c || is_digit c || c == b'_' || c == b'.' || c == b'-'))
    ∷ at_end
    ∷ [])

abbrev pub safe_measurement_keys : List String
safe_measurement_keys =
    "decoded_body_size" ∷ "document_version" ∷ "dom_complete" ∷ "dom_content_loaded"
    ∷ "dom_interactive" ∷ "encoded_body_size" ∷ "first_input_delay" ∷ "first_input_time"
    ∷ "first_input_target_selector" ∷ []

abbrev pub drop_telemetry_keys : List String
drop_telemetry_keys =
    "beta_encode_cookie_options" ∷ "replay_level" ∷ "sampled_for_replay"
    ∷ "session_replay_sample_rate" ∷ "start_session_replay_recording_manually" ∷ "user_action" ∷ []

unfoldable pub should_drop_key : String → Bool
should_drop_key key = includes drop_telemetry_keys key || test secret_key_pattern key

unfoldable pub should_reject_key : String → Bool
should_reject_key key =
    if includes safe_measurement_keys key then false else test unsafe_field_pattern key

unfoldable pub is_safe_key : String → Bool
is_safe_key key = test safe_key_pattern key

-- `SECRET_VALUE_PATTERNS.some((pattern) => pattern.test(text))`
unfoldable pub has_secret : String → Bool
has_secret text = test_any secret_value_patterns text
