-- ===== src/Sanitization/Actions.antt =====
-- sanitization/sanitizers/action.js: the sanitization of an action.
use Prim.Native.Char.{Char, code}
use frontend_observability.Base.{
  ℕ, String, Bool, true, false, not, ◌&&◌, ◌||◌, Option, List, [], ◌∷◌, ◌==◌, ltb, if◌then◌else◌,
  length,
}
use frontend_observability.Base.Json.{Value, str, object, end, field, utf16_length}
use frontend_observability.Base.Regex.{test}
use frontend_observability.Base.Text.{is_space}
use frontend_observability.Sanitization.Patterns.{action_name_pattern}
use frontend_observability.Sanitization.Results.{
  Result, accepted, dropped, is_drop, redact_or_accept, unique_reasons,
}
use frontend_observability.Sanitization.Strings.{has_high_risk_identifier}
use frontend_observability.Sanitization.Attributes.{sanitize_action_attributes}

-- `text.trim()`
abbrev pub trim_left : String → String
trim_left String.[] = String.[]
trim_left (String.◌∷◌ c s) = if is_space (code c) then trim_left s else String.◌∷◌ c s

abbrev pub is_empty : String → Bool
is_empty String.[] = true
is_empty (String.◌∷◌ c s) = false

abbrev pub trim_right : String → String
trim_right String.[] = String.[]
trim_right (String.◌∷◌ c s) =
    let rest = trim_right s in
    if is_space (code c) && is_empty rest then String.[] else String.◌∷◌ c rest

abbrev pub trimmed : String → String
trimmed s = trim_right (trim_left s)

abbrev pub prepend_to_first : Char → List String → List String
prepend_to_first c [] = String.◌∷◌ c String.[] ∷ []
prepend_to_first c (s ∷ ss) = String.◌∷◌ c s ∷ ss

-- `text.split(separator)`
abbrev pub split_at : ℕ → String → List String
split_at u String.[] = String.[] ∷ []
split_at u (String.◌∷◌ c s) =
    let rest = split_at u s in if code c == u then String.[] ∷ rest else prepend_to_first c rest

abbrev pub any_empty : List String → Bool
any_empty [] = false
any_empty (s ∷ ss) = is_empty s || any_empty ss

-- The test of a name that has been trimmed.
unfoldable pub is_action_name : String → Bool
is_action_name name =
    not (ltb (utf16_length name) 3)
    && not (ltb 80 (utf16_length name))
    && test action_name_pattern name
    && not (ltb 6 (length (split_at b'.' name)))
    && not (any_empty (split_at b'.' name))

unfoldable pub sanitize_action_name : Value → Result
unfolding is_action_name
sanitize_action_name (str s) =
    if not (is_action_name (trimmed s))
    then dropped "ACTION_NAME_INVALID"
    else if has_high_risk_identifier (trimmed s)
    then dropped "ACTION_NAME_INVALID"
    else accepted (str (trimmed s))
sanitize_action_name _ = dropped "ACTION_NAME_INVALID"

unfoldable pub join_action : Result → Result → Result
join_action name attributes =
    if is_drop name
    then name
    else if is_drop attributes
    then attributes
    else redact_or_accept
        (object (field "name" name.value (field "attributes" attributes.value end)))
        (unique_reasons (name ∷ attributes ∷ []))

module _ (url_without_query : String → Option String) (json_bytes : Value → ℕ) where
  unfoldable pub sanitize_action : Value → Value → Result
  unfolding join_action sanitize_action_name
  sanitize_action name attributes =
      join_action (sanitize_action_name name)
        (sanitize_action_attributes url_without_query json_bytes attributes)
