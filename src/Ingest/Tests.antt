-- ===== src/Ingest/Tests.antt =====
-- Examples for the ingest service.
use frontend_observability.Base.{
  ℕ, ◌≡◌, refl, String, Bool, true, false, Option, none, some, [], ◌∷◌, arith, if◌then◌else◌,
  str_eq, includes,
}
use frontend_observability.Base.Json.{
  Value, num, nat, str, bool, object, end, field, any_not_included,
}
use frontend_observability.Base.Text.{to_lower, is_space}
use frontend_observability.RuntimeControl.Document.{
  validate_control_document_shape, validate_control_lifetime, document_of,
}
use frontend_observability.Delivery.Routing.{rum}
use frontend_observability.Ingest.Guard.{
  runtime_control_disabled, responded, validate_control_document, check_control, date_refusal,
  assert_runtime_control_open,
}
use frontend_observability.Ingest.Admission.{
  Request, Server, Scope, text_plain, trusted_scope, bounded_scope, is_plain_content_type,
}
use frontend_observability.Ingest.Agreement.{PassesGuard, guard-PassesGuard, browser_document-guard}
use frontend_observability.Ingest.Admitted.{MayPublish}

abbrev control : Bool → Value
control active = object (
    field "schemaVersion" (num (nat 1)) (
      field "revision" (num (nat 7)) (
        field "issuedAt" (str "T1") (
          field "expiresAt" (str "T2") (
            field "killSwitch"
              (object (field "active" (bool active) (field "reasonCode" (str "maintenance") end)))
              end)))))

abbrev dates : String → Option ℕ
dates s = if str_eq s "T1" then some 1000000 else if str_eq s "T2" then some 1300000 else none

abbrev value_dates : Value → Option ℕ
value_dates (str s) = dates s
value_dates _ = none

guard-PassesGuard_example : PassesGuard value_dates (responded 200 (some (control false))) 1000100
unfolding assert_runtime_control_open check_control validate_control_document date_refusal includes
guard-PassesGuard_example =
    guard-PassesGuard value_dates (responded 200 (some (control false))) 1000100 refl

browser_document-guard_example :
    assert_runtime_control_open value_dates (responded 200 (some (control true))) 1000100
    ≡ some runtime_control_disabled
unfolding validate_control_document_shape validate_control_lifetime document_of any_not_included
    includes
browser_document-guard_example =
    browser_document-guard value_dates dates (λ s. refl) (control true) 1000100 refl refl

abbrev server : Server
server = record {
  ready = true;
  blocked = false;
  has_channel = true;
  max_rum_bytes = 65536;
  max_log_bytes = 32768;
}

abbrev request : Request
request = record {
  url = "/rum/v1/default/rum";
  route = some rum;
  has_search = false;
  method = "POST";
  size = 512;
  content_type = text_plain;
  service = some (b'a' ∷ []);
  environment = some (b'p' ∷ []);
  version = none;
}

abbrev scope : Scope
scope = record { service = b'a' ∷ []; environment = b'p' ∷ []; version = none }

request-MayPublish : MayPublish server request none none scope
unfolding is_plain_content_type trusted_scope bounded_scope to_lower is_space
request-MayPublish = record {
  not_health = refl;
  routed = refl;
  no_search = refl;
  is_post = refl;
  fits = omega arith;
  plain = refl;
  scoped = refl;
  ready = refl;
  not_blocked = refl;
  connected = refl;
  guard_open = refl;
  built = refl;
}
