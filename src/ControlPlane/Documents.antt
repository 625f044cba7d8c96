-- ===== src/ControlPlane/Documents.antt =====
-- apps/observability-control-plane/src/io.js: building and validating control documents.
--
-- `Date.parse` on a value is the parameter `parse_date`, none for NaN, and `toISOString` the parameter
-- `to_iso`. A revision is a whole number of either sign.
use frontend_observability.Base.{
  ℕ, zero, suc, ◌+◌, ◌-◌, ◌*◌, String, Bool, true, false, not, Option, none, some, ltb, leb,
  if◌then◌else◌,
}
use frontend_observability.Base.Json.{
  Value, Num, nat, negative, num, bool, str, object, field, end, get, is_plain_object,
  has_unknown_key,
}
use frontend_observability.RuntimeControl.Registry.{
  control_top_level_keys, control_kill_switch_keys, kill_switch_reason_codes, max_control_ttl_ms,
}
use frontend_observability.RuntimeControl.Document.{
  is_schema_version, is_non_negative_integer, is_boolean, is_listed_text,
}

pub data Rejection : Type 0 where
  schema_invalid unknown_key revision_invalid revision_not_monotonic : Rejection
  reason_invalid lifetime_invalid ttl_exceeded not_yet_valid expired : Rejection

abbrev pub max_clock_skew_ms : ℕ
max_clock_skew_ms = 5 * 60 * 1000

-- A whole number: n, or -(n + 1).
pub data Whole : Type 0 where
  at below_zero : ℕ → Whole

-- `a <= b`
abbrev pub whole_le : Whole → Whole → Bool
whole_le (below_zero a) (below_zero b) = leb b a
whole_le (below_zero a) (at b) = true
whole_le (at a) (below_zero b) = false
whole_le (at a) (at b) = leb a b

-- `n + 1`
abbrev pub next_whole : Whole → Whole
next_whole (at n) = at (suc n)
next_whole (below_zero zero) = at 0
next_whole (below_zero (suc n)) = below_zero n

abbrev pub number_of_whole : Whole → Num
number_of_whole (at n) = nat n
number_of_whole (below_zero n) = negative n

-- `document.revision <= previousRevision` on a revision that is not negative; with none the previous
-- revision is the document's less one.
abbrev pub is_stale : Value → Option Whole → Bool
is_stale (num (nat n)) (some previous) = whole_le (at n) previous
is_stale _ _ = false

unfoldable pub validate_lifetime : Option ℕ → Option ℕ → ℕ → ℕ → Option Rejection
validate_lifetime none expires_at now max_ttl_ms = some lifetime_invalid
validate_lifetime (some issued_at) none now max_ttl_ms = some lifetime_invalid
validate_lifetime (some issued_at) (some expires_at) now max_ttl_ms =
    if leb expires_at issued_at
    then some lifetime_invalid
    else if ltb max_ttl_ms (expires_at - issued_at)
    then some ttl_exceeded
    else if ltb (now + max_clock_skew_ms) issued_at
    then some not_yet_valid
    else if leb expires_at now
    then some expired
    else none

-- `none` where the document is valid.
unfoldable pub document_rejection : (Value → Option ℕ) → Value → ℕ → Option Whole → Option Rejection
unfolding validate_lifetime
document_rejection parse_date document now previous =
    let switch = get "killSwitch" document in
    if not (is_plain_object document)
    then some schema_invalid
    else if has_unknown_key document control_top_level_keys
    then some unknown_key
    else if not (is_schema_version (get "schemaVersion" document))
    then some schema_invalid
    else if not (is_non_negative_integer (get "revision" document))
    then some revision_invalid
    else if is_stale (get "revision" document) previous
    then some revision_not_monotonic
    else if not (is_plain_object switch)
    then some schema_invalid
    else if has_unknown_key switch control_kill_switch_keys
    then some unknown_key
    else if not (is_boolean (get "active" switch))
    then some schema_invalid
    else if not (is_listed_text kill_switch_reason_codes (get "reasonCode" switch))
    then some reason_invalid
    else validate_lifetime (parse_date (get "issuedAt" document))
        (parse_date (get "expiresAt" document)) now max_control_ttl_ms

unfoldable pub build_control_document : (ℕ → String) → Bool → String → Whole → ℕ → Value
build_control_document to_iso active reason_code previous now = object (
    field "schemaVersion" (num (nat 1)) (
      field "revision" (num (number_of_whole (next_whole previous))) (
        field "issuedAt" (str (to_iso now)) (
          field "expiresAt" (str (to_iso (now + max_control_ttl_ms))) (
            field "killSwitch"
              (object (
                field "active" (bool active)
                  (field "reasonCode" (str (if active then reason_code else "none")) end)))
              end)))))
