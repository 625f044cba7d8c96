-- ===== src/Ingest/Agreement.antt =====
-- What the ingest's guard lets pass, and that it agrees with the browser package's validation
-- (apps/telemetry-ingest/src/runtime-control.js; runtime-control/validate-document.js of the browser
-- package).
use frontend_observability.Base.{
  ℕ, ◌<◌, ◌≡◌, inl, inr, refl, String, true, false, Option, none, some, arith, if◌then◌else◌, ap,
  ◌∙◌,
}
use frontend_observability.Base.Json.{Value, bool, num, nat, str, get}
use frontend_observability.RuntimeControl.Registry.{kill_switch_reason_codes}
use frontend_observability.RuntimeControl.Document.{
  is_schema_version, is_non_negative_integer, is_boolean, is_listed_text, is_iso_string,
  validate_control_document_shape, validate_control_lifetime, document_of, text_of,
}
use frontend_observability.RuntimeControl.Validation.{
  IsOneOf, includes_iff, version_of, natural_of, listed_of, shape-PassesTests,
  validate_lifetime_iff,
}
use frontend_observability.Ingest.Guard.{
  runtime_control_disabled, is_bounded_text, is_true, date_refusal, expired_refusal,
  ControlResponse, unreachable, responded, check_control, assert_runtime_control_open,
}

one_of-bounded : (s : String) → IsOneOf kill_switch_reason_codes s → is_bounded_text (str s) ≡ true
one_of-bounded s (inl e) = rw⁻¹ e refl
one_of-bounded s (inr (inl e)) = rw⁻¹ e refl
one_of-bounded s (inr (inr (inl e))) = rw⁻¹ e refl
one_of-bounded s (inr (inr (inr (inl e)))) = rw⁻¹ e refl
one_of-bounded s (inr (inr (inr (inr (inl e))))) = rw⁻¹ e refl
one_of-bounded s (inr (inr (inr (inr (inr (inl e)))))) = rw⁻¹ e refl
one_of-bounded s (inr (inr (inr (inr (inr (inr never)))))) = absurd never

listed-bounded :
    (v : Value) → is_listed_text kill_switch_reason_codes v ≡ true → is_bounded_text v ≡ true
listed-bounded (str s) h = one_of-bounded s ((includes_iff kill_switch_reason_codes s).0 h)
listed-bounded _ h = cc

module _ (parse_value : Value → Option ℕ) where
  -- All that the guard asks of a response.
  pub record PassesGuard (response : ControlResponse) (now : ℕ) : Type 0 where
    pub document : Value
    pub is_response : response ≡ responded 200 (some document)
    pub version : get "schemaVersion" document ≡ num (nat 1)
    pub revision : ℕ
    pub is_revision : get "revision" document ≡ num (nat revision)
    pub issued_at : ℕ
    pub expires_at : ℕ
    pub is_issued : parse_value (get "issuedAt" document) ≡ some issued_at
    pub is_expires : parse_value (get "expiresAt" document) ≡ some expires_at
    pub ordered : issued_at < expires_at
    pub live : now < expires_at
    pub inactive : get "active" (get "killSwitch" document) ≡ bool false
    pub reason : String
    pub is_reason : get "reasonCode" (get "killSwitch" document) ≡ str reason
    pub is_listed : IsOneOf kill_switch_reason_codes reason

  -- The guard's tests, as facts.
  record PassesCheck (v : Value) (now : ℕ) : Type 0 where
    version_ok : is_schema_version (get "schemaVersion" v) ≡ true
    revision_ok : is_non_negative_integer (get "revision" v) ≡ true
    dates_ok :
        date_refusal (parse_value (get "issuedAt" v)) (parse_value (get "expiresAt" v)) ≡ none
    active_ok : is_boolean (get "active" (get "killSwitch" v)) ≡ true
    reason_ok :
        is_listed_text kill_switch_reason_codes (get "reasonCode" (get "killSwitch" v)) ≡ true
    live_ok : expired_refusal (parse_value (get "expiresAt" v)) now ≡ none
    inactive_ok : is_true (get "active" (get "killSwitch" v)) ≡ false

  check-PassesCheck :
      (v : Value) (now : ℕ) → check_control parse_value v now ≡ none → PassesCheck v now
  unfolding check_control
  check-PassesCheck v now h = ground arith

  dates_of :
      (issued expires : Option ℕ) (now : ℕ)
      → date_refusal issued expires ≡ none
      → expired_refusal expires now ≡ none
      → (i : ℕ) × (e : ℕ) × (issued ≡ some i) × (expires ≡ some e) × (i < e) × (now < e)
  unfolding date_refusal
  dates_of none expires now h k = cc
  dates_of (some i) none now h k = cc
  dates_of (some i) (some e) now h k = (i, e, refl, refl, ground arith, ground arith)

  false_of : (v : Value) → is_boolean v ≡ true → is_true v ≡ false → v ≡ bool false
  false_of (bool b) h k = ap bool k
  false_of _ h k = cc

  open_document :
      (response : ControlResponse) (now : ℕ)
      → assert_runtime_control_open parse_value response now ≡ none
      → (v : Value) × (response ≡ responded 200 (some v)) × (check_control parse_value v now ≡ none)
  unfolding assert_runtime_control_open
  open_document unreachable now h = cc
  open_document (responded status none) now h = absurd (ground arith)
  open_document (responded status (some v)) now h =
      let ok : status ≡ 200 = ground arith in (v, rw ok refl, ground arith)

  -- A request passes the guard only on a response with status 200 and a document of version 1 with a
  -- natural revision, dates of which the second lies behind the first and behind the clock, an inactive
  -- kill switch and a reason of the closed list.
  pub guard-PassesGuard :
      (response : ControlResponse) (now : ℕ)
      → assert_runtime_control_open parse_value response now ≡ none
      → PassesGuard response now
  guard-PassesGuard response now h =
      let (v, is_response, checked) = open_document response now h in
      let c = check-PassesCheck v now checked in
      let (revision, is_revision) = natural_of _ c.revision_ok in
      let (i, e, is_issued, is_expires, ordered, live) = dates_of _ _ now c.dates_ok c.live_ok in
      let (reason, is_reason, is_listed) = listed_of kill_switch_reason_codes _ c.reason_ok in
      record {
        document = v;
        is_response = is_response;
        version = version_of _ c.version_ok;
        revision = revision;
        is_revision = is_revision;
        issued_at = i;
        expires_at = e;
        is_issued = is_issued;
        is_expires = is_expires;
        ordered = ordered;
        live = live;
        inactive = false_of _ c.active_ok c.inactive_ok;
        reason = reason;
        is_reason = is_reason;
        is_listed = is_listed;
      }

  module _ (parse_date : String → Option ℕ)
      (same : (s : String) → parse_value (str s) ≡ parse_date s) where
    same_date : (v : Value) → is_iso_string v ≡ true → parse_value v ≡ parse_date (text_of v)
    same_date (str s) h = same s
    same_date _ h = cc

    -- The two programs agree: a document that the browser package takes as valid and unexpired is valid
    -- to the guard at the same time, which lets requests pass exactly if its kill switch is inactive.
    pub browser_document-guard :
        (v : Value) (now : ℕ)
        → (validate_control_document_shape v).valid ≡ true
        → (validate_control_lifetime
            (document_of parse_date v).issued_at.parsed
            (document_of parse_date v).expires_at.parsed
            now).valid
          ≡ true
        → assert_runtime_control_open parse_value (responded 200 (some v)) now ≡ (
            if (document_of parse_date v).kill_switch.active
            then some runtime_control_disabled
            else none)
    unfolding assert_runtime_control_open document_of date_refusal
    browser_document-guard v now shape lifetime =
        let p = shape-PassesTests v shape in
        let (i, e, is_issued, is_expires, order, ttl, skew, live) =
          (validate_lifetime_iff _ _ now).0 lifetime in
        let issued = same_date (get "issuedAt" v) p.issued_ok ∙ is_issued in
        let expires = same_date (get "expiresAt" v) p.expires_ok ∙ is_expires in
        let bounded = listed-bounded (get "reasonCode" (get "killSwitch" v)) p.reason_ok in
        ground (
          arith, issued, expires, bounded, p.object_ok, p.version_ok, p.revision_ok, p.switch_ok,
          p.active_ok, p.reason_ok,
        )
