-- ===== src/Ingest/Guard.antt =====
-- apps/telemetry-ingest/src/runtime-control.js: the kill switch's guard before each publication.
-- `Date.parse` on a value is the parameter `parse_date`, none for NaN.
use frontend_observability.Base.{
  ℕ, Bool, false, not, ◌&&◌, ◌||◌, Option, none, some, ltb, leb, ◌==◌, if◌then◌else◌,
}
use frontend_observability.Base.Json.{Value, bool, str, get, is_plain_object, utf16_length}
use frontend_observability.RuntimeControl.Registry.{kill_switch_reason_codes}
use frontend_observability.RuntimeControl.Document.{
  is_schema_version, is_non_negative_integer, is_boolean, is_listed_text,
}

pub data Refusal : Type 0 where
  runtime_control_unavailable runtime_control_invalid : Refusal
  runtime_control_expired runtime_control_disabled : Refusal

-- The length of the text lies between 1 and 64.
abbrev pub is_bounded_text : Value → Bool
is_bounded_text (str s) = not (utf16_length s == 0) && not (ltb 64 (utf16_length s))
is_bounded_text _ = false

-- The two dates of a document; `none` where it is valid.
unfoldable pub date_refusal : Option ℕ → Option ℕ → Option Refusal
date_refusal none expires_at = some runtime_control_invalid
date_refusal (some issued_at) none = some runtime_control_invalid
date_refusal (some issued_at) (some expires_at) =
    if leb expires_at issued_at then some runtime_control_invalid else none

abbrev pub expired_refusal : Option ℕ → ℕ → Option Refusal
expired_refusal none now = none
expired_refusal (some expires_at) now =
    if leb expires_at now then some runtime_control_expired else none

-- `a ?? b` on refusals: the first test that fails decides.
abbrev pub first_of : Option Refusal → Option Refusal → Option Refusal
first_of none b = b
first_of (some r) b = some r

abbrev pub is_true : Value → Bool
is_true (bool b) = b
is_true _ = false

-- What the request for the document met, with the body that `response.json()` gives, none where it
-- throws.
pub data ControlResponse : Type 0 where
  unreachable : ControlResponse
  responded : (status : ℕ) → (body : Option Value) → ControlResponse

module _ (parse_date : Value → Option ℕ) where
  unfoldable pub validate_control_document : Value → ℕ → Option Refusal
  unfolding date_refusal
  validate_control_document document now =
      let switch = get "killSwitch" document in
      let issued_at = parse_date (get "issuedAt" document) in
      let expires_at = parse_date (get "expiresAt" document) in
      if not (is_plain_object document)
        || not (is_schema_version (get "schemaVersion" document))
        || not (is_non_negative_integer (get "revision" document))
      then some runtime_control_invalid
      else first_of (date_refusal issued_at expires_at) (
          if not (is_plain_object switch)
            || not (is_boolean (get "active" switch))
            || not (is_bounded_text (get "reasonCode" switch))
            || not (is_listed_text kill_switch_reason_codes (get "reasonCode" switch))
          then some runtime_control_invalid
          else expired_refusal expires_at now)

  unfoldable pub check_control : Value → ℕ → Option Refusal
  unfolding validate_control_document
  check_control document now = first_of (validate_control_document document now) (
      if is_true (get "active" (get "killSwitch" document))
      then some runtime_control_disabled
      else none)

  -- `none` where the guard lets the request pass.
  unfoldable pub assert_runtime_control_open : ControlResponse → ℕ → Option Refusal
  unfolding check_control
  assert_runtime_control_open unreachable now = some runtime_control_unavailable
  assert_runtime_control_open (responded status none) now =
      if not (status == 200) then some runtime_control_unavailable else some runtime_control_invalid
  assert_runtime_control_open (responded status (some document)) now =
      if not (status == 200) then some runtime_control_unavailable else check_control document now
