-- ===== src/Sessions/Rows.antt =====
-- apps/session-metadata-sync/src/sync.js: what is read of a row.
--
-- `Number(value)`, `value * 1000` and the printing of a number are parameters of the modules that use
-- them. A timestamp is a whole number of either sign or NaN.
use Prim.Native.String
use frontend_observability.Base.{
  ℕ, zero, suc, String, Bool, false, not, ◌&&◌, ◌||◌, Option, none, some, List, [], ◌∷◌, ◌++◌, ◌==◌,
  if◌then◌else◌, includes,
}
use frontend_observability.Base.Json.{
  is_text, is_truthy, Value, undefined, null, bool, str, array, object, Fields, end, field,
  Elements, no_element, element, get, get_field, utf16_length, slice_units, decimal,
}
use frontend_observability.Base.Regex.{
  Regex, one, either, sequence, option, lit_i, one_of_words, test,
}

-- A row of a search's hits, which are objects.
abbrev pub Row : Type 0
Row = Fields

abbrev pub is_line_end : ℕ → Bool
is_line_end c = c == 10 || c == 13 || c == 8232 || c == 8233

unfoldable pub unsafe_key_pattern : Regex
unsafe_key_pattern =
    either
      (one_of_words (
        "replay" ∷ "segment" ∷ "dom" ∷ "html" ∷ "video" ∷ "canvas" ∷ "input" ∷ "form" ∷ "body"
        ∷ "header" ∷ "cookie" ∷ "authorization" ∷ "token" ∷ "password" ∷ []))
      (either
        (sequence (lit_i "private" ∷ option (one (λ c. not (is_line_end c))) ∷ lit_i "key" ∷ []))
        (one_of_words ("ip" ∷ "email" ∷ "usr" ∷ "user" ∷ "account" ∷ "query" ∷ "fragment" ∷ [])))

abbrev pub safe_source_keys : List String
safe_source_keys =
    "_timestamp" ∷ "date" ∷ "type" ∷ "session_id" ∷ "view_id" ∷ "action_id" ∷ "error_id" ∷ "view"
    ∷ "action" ∷ "error" ∷ "frustration" ∷ "user_agent_user_agent_family" ∷ "user_agent_os_family"
    ∷ "user_agent_device_family" ∷ "browser" ∷ "os" ∷ "device" ∷ "device_type" ∷ "service" ∷ "env"
    ∷ "version" ∷ "tags" ∷ "source" ∷ []

abbrev pub is_unsafe_key : String → Bool
is_unsafe_key key = not (includes safe_source_keys key) && test unsafe_key_pattern key

abbrev pub under : String → Option String → Option String
under key none = none
under key (some nested) = some (String.◌++◌ key (String.◌++◌ "." nested))

abbrev pub first_of : Option String → Option String → Option String
first_of none other = other
first_of (some found) other = some found

-- The path of the first unsafe key; the entries of an array are named by their indices.
unfoldable mutual
  pub find_unsafe_key : Value → Option String
  find_unsafe_key (object fs) = find_unsafe_field fs
  find_unsafe_key (array vs) = find_unsafe_element 0 vs
  find_unsafe_key _ = none

  pub find_unsafe_field : Fields → Option String
  find_unsafe_field end = none
  find_unsafe_field (field key child fs) =
      let nested = find_unsafe_key child in
      let behind = find_unsafe_field fs in
      if is_unsafe_key key then some key else first_of (under key nested) behind

  pub find_unsafe_element : ℕ → Elements → Option String
  find_unsafe_element i no_element = none
  find_unsafe_element i (element child vs) =
      let nested = find_unsafe_key child in
      let behind = find_unsafe_element (suc i) vs in
      if is_unsafe_key (decimal i)
      then some (decimal i)
      else first_of (under (decimal i) nested) behind

-- `a ?? b`
abbrev pub nullish : Value → Value → Value
nullish undefined b = b
nullish null b = b
nullish a b = a

abbrev pub is_true : Value → Bool
is_true (bool b) = b
is_true _ = false

unfoldable pub is_frustration : Row → Bool
is_frustration row =
    is_true (get_field "frustration" row)
    || is_truthy (get "type" (get "frustration" (get_field "action" row)))
    || is_text "long_task" (get_field "type" row)

-- A set of texts: a value joins it if it is a text that is not empty, and not there yet.
unfoldable pub add_unique : List String → Value → List String
add_unique set (str s) = if utf16_length s == 0 || includes set s then set else set ++ s ∷ []
add_unique set _ = set

unfoldable pub bounded : Value → Option String
bounded (str s) = some (slice_units 80 s)
bounded _ = none

abbrev pub is_filled_text : Option String → Bool
is_filled_text none = false
is_filled_text (some s) = not (utf16_length s == 0)

unfoldable pub canonical : Value → Option String
unfolding bounded
canonical value = if is_filled_text (bounded value) then bounded value else none

-- `current ||= next`
abbrev pub or_set : Option String → Option String → Option String
or_set current next = if is_filled_text current then current else next

-- `tags.filter((tag) => typeof tag === "string").slice(0, n)`
abbrev pub take_texts : ℕ → Elements → List String
take_texts n no_element = []
take_texts zero (element v vs) = []
take_texts (suc n) (element (str s) vs) = s ∷ take_texts n vs
take_texts (suc n) (element v vs) = take_texts (suc n) vs
