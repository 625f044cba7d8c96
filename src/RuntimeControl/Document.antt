-- ===== src/RuntimeControl/Document.antt =====
-- runtime-control/validate-document.js and document-lifetime.js: the shape and the lifetime of a
-- control document. `Date.parse` is the parameter `parse_date`, `none` for NaN.
use frontend_observability.Base.{
  ℕ, ◌+◌, ◌-◌, String, Bool, true, false, not, ◌&&◌, ◌||◌, Option, none, some, List, ltb, leb, ◌==◌,
  if◌then◌else◌, includes,
}
use frontend_observability.Base.Json.{
  Value, bool, num, nat, str, get, is_plain_object, has_unknown_key, utf16_length,
}
use frontend_observability.RuntimeControl.Registry.{
  Document, control_schema_version, max_control_ttl_ms, control_clock_skew_tolerance_ms,
  kill_switch_reason_codes, control_top_level_keys, control_kill_switch_keys,
}

pub data ControlReason : Type 0 where
  no_reason schema_invalid duplicate_key unknown_key revision_invalid : ControlReason
  rollback lifetime_invalid ttl_exceeded document_expired not_yet_valid : ControlReason

pub record Verdict : Type 0 where
  pub valid : Bool
  pub reason_code : ControlReason

abbrev pub invalid : ControlReason → Verdict
invalid r = record { valid = false; reason_code = r }

abbrev pub accepted : Verdict
accepted = record { valid = true; reason_code = no_reason }

-- `value === CONTROL_SCHEMA_VERSION`
abbrev pub is_schema_version : Value → Bool
is_schema_version (num (nat n)) = n == control_schema_version
is_schema_version _ = false

abbrev pub is_non_negative_integer : Value → Bool
is_non_negative_integer (num (nat n)) = true
is_non_negative_integer _ = false

abbrev pub is_iso_string : Value → Bool
is_iso_string (str s) = ltb 0 (utf16_length s) && leb (utf16_length s) 64
is_iso_string _ = false

abbrev pub is_boolean : Value → Bool
is_boolean (bool b) = true
is_boolean _ = false

abbrev pub is_listed_text : List String → Value → Bool
is_listed_text allowed (str s) = includes allowed s
is_listed_text allowed _ = false

unfoldable pub validate_control_document_shape : Value → Verdict
validate_control_document_shape doc =
    if not (is_plain_object doc)
    then invalid schema_invalid
    else if has_unknown_key doc control_top_level_keys
    then invalid unknown_key
    else if not (is_schema_version (get "schemaVersion" doc))
    then invalid schema_invalid
    else if not (is_non_negative_integer (get "revision" doc))
    then invalid revision_invalid
    else if not (is_iso_string (get "issuedAt" doc)) || not (is_iso_string (get "expiresAt" doc))
    then invalid lifetime_invalid
    else if not (is_plain_object (get "killSwitch" doc))
    then invalid schema_invalid
    else if has_unknown_key (get "killSwitch" doc) control_kill_switch_keys
    then invalid unknown_key
    else if not (is_boolean (get "active" (get "killSwitch" doc)))
    then invalid schema_invalid
    else if not (is_listed_text kill_switch_reason_codes (get "reasonCode" (get "killSwitch" doc)))
    then invalid schema_invalid
    else accepted

-- The times that `Date.parse` gives, `none` for NaN.
unfoldable pub validate_control_lifetime : Option ℕ → Option ℕ → ℕ → Verdict
validate_control_lifetime none expires_at now = invalid lifetime_invalid
validate_control_lifetime (some issued_at) none now = invalid lifetime_invalid
validate_control_lifetime (some issued_at) (some expires_at) now =
    if leb expires_at issued_at
    then invalid lifetime_invalid
    else if ltb max_control_ttl_ms (expires_at - issued_at)
    then invalid ttl_exceeded
    else if ltb (now + control_clock_skew_tolerance_ms) issued_at
    then invalid not_yet_valid
    else if leb expires_at now
    then invalid document_expired
    else accepted

abbrev pub text_of : Value → String
text_of (str s) = s
text_of _ = ""

abbrev pub number_of : Value → ℕ
number_of (num (nat n)) = n
number_of _ = 0

abbrev pub flag_of : Value → Bool
flag_of (bool b) = b
flag_of _ = false

-- The fields that the rest of the package reads. The defaults stand for values of another type,
-- which the shape test excludes.
unfoldable pub document_of : (String → Option ℕ) → Value → Document
document_of parse_date doc = record {
  revision = number_of (get "revision" doc);
  issued_at = record {
    text = text_of (get "issuedAt" doc);
    parsed = parse_date (text_of (get "issuedAt" doc));
  };
  expires_at = record {
    text = text_of (get "expiresAt" doc);
    parsed = parse_date (text_of (get "expiresAt" doc));
  };
  kill_switch = record {
    active = flag_of (get "active" (get "killSwitch" doc));
    reason_code = text_of (get "reasonCode" (get "killSwitch" doc));
  };
}

unfoldable pub is_live_at : Option ℕ → ℕ → Bool
is_live_at none now = false
is_live_at (some expires_at) now = ltb now expires_at

unfoldable pub is_document_live : Option Document → ℕ → Bool
unfolding is_live_at
is_document_live none now = false
is_document_live (some document) now = is_live_at document.expires_at.parsed now
