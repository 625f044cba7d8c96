-- ===== src/Sanitization/Patterns.antt =====
-- sanitization/detectors/patterns.js, and the patterns that the sanitizers hold themselves.
--
-- The flag i concerns the letters of ASCII. A group that captures nothing is a sequence.
use frontend_observability.Base.{ℕ, Bool, not, ◌&&◌, ◌||◌, List, [], ◌∷◌, ◌==◌, leb}
use frontend_observability.Base.Text.{is_space}
use frontend_observability.Base.Regex.{
  Regex, one, then_also, either, many, word_boundary, at_start, at_end, lit, lit_i, option, some_of,
  at_least, at_most, between, one_of_words, sequence,
}

abbrev pub is_digit : ℕ → Bool
is_digit c = leb b'0' c && leb c b'9'

abbrev pub is_upper : ℕ → Bool
is_upper c = leb b'A' c && leb c b'Z'

abbrev pub is_lower : ℕ → Bool
is_lower c = leb b'a' c && leb c b'z'

abbrev pub is_alphanumeric : ℕ → Bool
is_alphanumeric c = is_digit c || is_upper c || is_lower c

abbrev pub is_hex_digit : ℕ → Bool
is_hex_digit c = is_digit c || (leb b'a' c && leb c b'f') || (leb b'A' c && leb c b'F')

abbrev pub is_jwt_unit : ℕ → Bool
is_jwt_unit c = is_alphanumeric c || c == b'_' || c == b'-'

abbrev pub digit : Regex
digit = one is_digit

abbrev pub hex : Regex
hex = one is_hex_digit

abbrev pub dash : Regex
dash = lit "-"

unfoldable pub email_pattern : Regex
email_pattern = sequence (
    some_of (
      one (λ c. is_alphanumeric c || c == b'.' || c == b'_' || c == b'%' || c == b'+' || c == b'-'))
    ∷ lit "@"
    ∷ some_of (one (λ c. is_alphanumeric c || c == b'.' || c == b'-'))
    ∷ lit "."
    ∷ at_least 2 (one (λ c. is_upper c || is_lower c))
    ∷ [])

unfoldable pub uuid_pattern : Regex
uuid_pattern = sequence (
    word_boundary
    ∷ between 8 0 hex
    ∷ dash
    ∷ between 4 0 hex
    ∷ dash
    ∷ one (λ c. leb b'1' c && leb c b'5')
    ∷ between 3 0 hex
    ∷ dash
    ∷ one (λ c. c == b'8' || c == b'9' || c == b'a' || c == b'b' || c == b'A' || c == b'B')
    ∷ between 3 0 hex
    ∷ dash
    ∷ between 12 0 hex
    ∷ word_boundary
    ∷ [])

unfoldable pub long_numeric_pattern : Regex
long_numeric_pattern = sequence (word_boundary ∷ at_least 9 digit ∷ word_boundary ∷ [])

unfoldable pub phone_pattern : Regex
phone_pattern = sequence (
    option (lit "+")
    ∷ word_boundary
    ∷ between 10 5 (
        then_also digit
          (option (one (λ c. is_space c || c == b'(' || c == b')' || c == b'.' || c == b'-'))))
    ∷ digit
    ∷ word_boundary
    ∷ [])

unfoldable pub iban_pattern : Regex
iban_pattern = sequence (
    word_boundary
    ∷ between 2 0 (one is_upper)
    ∷ between 2 0 digit
    ∷ between 11 19 (one (λ c. is_upper c || is_digit c))
    ∷ word_boundary
    ∷ [])

unfoldable pub card_pattern : Regex
card_pattern = sequence (
    word_boundary
    ∷ between 13 6 (then_also digit (option (one (λ c. c == b' ' || c == b'-'))))
    ∷ word_boundary
    ∷ [])

unfoldable pub jwt_pattern : Regex
jwt_pattern = sequence (
    word_boundary
    ∷ lit "eyJ"
    ∷ at_least 8 (one is_jwt_unit)
    ∷ lit "."
    ∷ at_least 8 (one is_jwt_unit)
    ∷ lit "."
    ∷ at_least 8 (one is_jwt_unit)
    ∷ word_boundary
    ∷ [])

unfoldable pub base64_token_pattern : Regex
base64_token_pattern = sequence (
    word_boundary
    ∷ at_least 32 (one (λ c. is_alphanumeric c || c == b'+' || c == b'/' || c == b'_' || c == b'-'))
    ∷ at_most 2 (lit "=")
    ∷ word_boundary
    ∷ [])

unfoldable pub asset_hash_pattern : Regex
asset_hash_pattern = sequence (word_boundary ∷ between 8 56 hex ∷ word_boundary ∷ [])

abbrev pub spaces : Regex
spaces = many (one is_space)

abbrev pub is_bearer_unit : ℕ → Bool
is_bearer_unit c =
    is_alphanumeric c
    || c == b'.'
    || c == b'_'
    || c == b'~'
    || c == b'+'
    || c == b'/'
    || c == b'='
    || c == b'-'

unfoldable pub secret_patterns : List Regex
secret_patterns =
    sequence (word_boundary ∷ lit_i "authorization" ∷ spaces ∷ lit ":" ∷ [])
    ∷ sequence (
        word_boundary
        ∷ lit_i "bearer"
        ∷ some_of (one is_space)
        ∷ at_least 16 (one is_bearer_unit)
        ∷ [])
    ∷ sequence (word_boundary ∷ lit_i "cookie" ∷ spaces ∷ lit ":" ∷ [])
    ∷ sequence (word_boundary ∷ lit_i "set-cookie" ∷ spaces ∷ lit ":" ∷ [])
    ∷ sequence (
        word_boundary
        ∷ either
            (sequence (lit_i "api" ∷ option (one (λ c. c == b'_' || c == b'-')) ∷ lit_i "key" ∷ []))
            (one_of_words ("secret" ∷ "password" ∷ "token" ∷ []))
        ∷ spaces
        ∷ one (λ c. c == b':' || c == b'=')
        ∷ [])
    ∷ sequence (
        lit "-----BEGIN " ∷ many (one (λ c. is_upper c || c == b' ')) ∷ lit "PRIVATE KEY-----" ∷ [])
    ∷ []

abbrev pub is_path_unit : ℕ → Bool
is_path_unit c = not (is_space c) && not (c == b'?') && not (c == b'#')

-- `https?:\/\/[^\s?#]+[^\s]*`
unfoldable pub url_pattern : Regex
url_pattern = sequence (
    lit_i "http"
    ∷ option (lit_i "s")
    ∷ lit "://"
    ∷ some_of (one is_path_unit)
    ∷ many (one (λ c. not (is_space c)))
    ∷ [])

-- `(^|\s)(\/[^\s?#]+)[?#][^\s]*`
unfoldable pub path_query_pattern : Regex
path_query_pattern = sequence (
    either at_start (one is_space)
    ∷ lit "/"
    ∷ some_of (one is_path_unit)
    ∷ one (λ c. c == b'?' || c == b'#')
    ∷ many (one (λ c. not (is_space c)))
    ∷ [])

-- `^[a-zA-Z0-9_.:-]+$`
unfoldable pub safe_key_pattern : Regex
safe_key_pattern = sequence (
    at_start
    ∷ some_of (one (λ c. is_alphanumeric c || c == b'_' || c == b'.' || c == b':' || c == b'-'))
    ∷ at_end
    ∷ [])

-- `^[a-z0-9.-]+$`
unfoldable pub action_name_pattern : Regex
action_name_pattern = sequence (
    at_start
    ∷ some_of (one (λ c. is_lower c || is_digit c || c == b'.' || c == b'-'))
    ∷ at_end
    ∷ [])

-- `^[A-Za-z0-9_. -]{1,128}$`
unfoldable pub error_name_pattern : Regex
error_name_pattern = sequence (
    at_start
    ∷ between 1 127
        (one (λ c. is_alphanumeric c || c == b'_' || c == b'.' || c == b' ' || c == b'-'))
    ∷ at_end
    ∷ [])
