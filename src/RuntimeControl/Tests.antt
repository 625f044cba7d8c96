-- ===== src/RuntimeControl/Tests.antt =====
-- Examples for runtime control: documents, fetches and pages at concrete times.
use Prim.Native.Char.{code}
use frontend_observability.Base.{
  ℕ, ◌+◌, ◌≤◌, ◌≡◌, ◌↔◌, refl, String, true, false, Option, none, some, List, [], ◌∷◌, includes,
  str_eq, if◌then◌else◌, length, arith,
}
use frontend_observability.Base.Json.{
  Value, Fields, end, field, num, nat, str, bool, object, any_not_included,
}
use frontend_observability.Base.Text.{
  Text, text_eq, trim, trim_start, is_space, to_lower, ends_with, before_unit, has_text,
}
use frontend_observability.RuntimeControl.Registry.{
  DateText, KillSwitch, Document, Registry, create_initial_registry, kill_switched,
}
use frontend_observability.RuntimeControl.Document.{
  document_of, validate_control_document_shape, validate_control_lifetime,
}
use frontend_observability.RuntimeControl.Apply.{
  FetchResult, fetched, failed, transport, timeout, apply_fetch_outcome, apply_document,
  accept_document, apply_kill_switch, is_collection_gate_open, compute_runtime_control_state,
  revision_rank,
}
use frontend_observability.RuntimeControl.Engine.{
  Engine, Flight, new_page, perform_initial_control_fetch, run_refresh_cycle, settle, resume,
  start_runtime_control_loop, stop_runtime_control_loop, abort, Reach, here, next, initial, settled,
  started,
}
use frontend_observability.RuntimeControl.DuplicateKeys.{
  has_duplicate_object_keys, scan, scan_unit, read_json_string,
}
use frontend_observability.RuntimeControl.Fetch.{
  Platform, Attempt, responded, stream, done, read_bounded_body, read_chunks, check_body,
  check_parsed, check_document, is_json_content_type, application_json, fetch_control_document,
}
use frontend_observability.RuntimeControl.Latch.{
  run_outcomes, latch_is_final, run_outcomes-revision,
}
use frontend_observability.RuntimeControl.GateAgreement.{admits, gate_agrees_with_state}
use frontend_observability.RuntimeControl.Validation.{IsControlShape, validate_shape_iff}
use frontend_observability.RuntimeControl.Loop.{IsSound, Reach-IsSound, stop_is_quiet}
use frontend_observability.RuntimeControl.FailClosed.{
  Cycle, outcomes_of, IsAccepted, fetch-IsAccepted, stale_page_fails_closed,
}

abbrev doc_fields : Fields
doc_fields = field "schemaVersion" (num (nat 1)) (
    field "revision" (num (nat 7)) (
      field "issuedAt" (str "T1") (
        field "expiresAt" (str "T2") (
          field "killSwitch"
            (object (field "active" (bool false) (field "reasonCode" (str "none") end))) end))))

abbrev doc_value : Value
doc_value = object doc_fields

-- The dates T1 and T2 lie five minutes apart.
abbrev dates : String → Option ℕ
dates s = if str_eq s "T1" then some 1000000 else if str_eq s "T2" then some 1300000 else none

abbrev units : String → Text
units String.[] = []
units (String.◌∷◌ c s) = code c ∷ units s

abbrev doc_text : Text
doc_text =
    units
      "{\"schemaVersion\":1,\"revision\":7,\"issuedAt\":\"T1\",\"expiresAt\":\"T2\",\"killSwitch\":{\"active\":false,\"reasonCode\":\"none\"}}"

abbrev platform : Platform
platform = record {
  parse_json = λ text. if text_eq text doc_text then some doc_value else none;
  parse_date = dates;
  decode_utf8 = λ bytes. bytes;
  encoded_length = length;
}

abbrev attempt : Attempt
attempt = responded (record {
  status = 200;
  redirected = false;
  content_type = some application_json;
  body = stream (doc_text ∷ []) done;
})

abbrev live : Document
live = record {
  revision = 7;
  issued_at = record { text = "T1"; parsed = some 1000000 };
  expires_at = record { text = "T2"; parsed = some 1300000 };
  kill_switch = record { active = false; reason_code = "none" };
}

abbrev killing : Document
killing = record live {
  revision = 8;
  kill_switch = record { active = true; reason_code = "maintenance" };
}

abbrev revived : Document
revived = record live { revision = 9 }

abbrev outcomes : List (FetchResult × ℕ)
outcomes = (fetched live, 1000100) ∷ (failed (transport timeout), 1030000) ∷ []

-- A page on which the kill switch has latched.
abbrev latched_page : Registry
latched_page = record create_initial_registry {
  current_document = some killing;
  has_applied_once = true;
  kill_switch_active = true;
  kill_switch_latched = true;
  kill_switch_reason_code = "maintenance";
}

applying_latches : apply_fetch_outcome create_initial_registry (fetched killing) 1000100 ≡ (
  record latched_page {
    last_checked_at = some 1000100;
    last_applied_at = some 1000100;
    last_outcome_state = some frontend_observability.RuntimeControl.Registry.fresh;
    counters = record (create_initial_registry.counters) {
      refresh_succeeded = 1;
      kill_switch_activated = 1;
    };
  },
  false,
)
unfolding apply_fetch_outcome apply_document accept_document apply_kill_switch
applying_latches = refl

latch_is_final_example :
    (is_collection_gate_open (run_outcomes latched_page ((fetched revived, 1000200) ∷ [])) 1000300
      ≡ false)
    × (compute_runtime_control_state
          (run_outcomes latched_page ((fetched revived, 1000200) ∷ []))
          1000300
        ≡ kill_switched)
latch_is_final_example = latch_is_final latched_page ((fetched revived, 1000200) ∷ []) 1000300 refl

run_outcomes-revision_example :
    8 + 1 ≤ revision_rank (run_outcomes latched_page outcomes).current_document
run_outcomes-revision_example = run_outcomes-revision latched_page outcomes

gate_agrees_with_state_example :
    let r : Registry = record (run_outcomes create_initial_registry outcomes) {
      currently_refreshing = true;
    } in
    is_collection_gate_open r 1040000
    ≡ admits (compute_runtime_control_state r 1040000) r.has_applied_once
gate_agrees_with_state_example = gate_agrees_with_state outcomes true 1040000 (omega arith)

validate_shape_iff_example :
    ((validate_control_document_shape doc_value).valid ≡ true) ↔ IsControlShape doc_value
validate_shape_iff_example = validate_shape_iff doc_value

doc_shape : IsControlShape doc_value
doc_shape =
    (validate_shape_iff doc_value).0
      (unfold validate_control_document_shape any_not_included includes in refl)

abbrev first_flight : Flight
first_flight = record { waiters = 0; aborted = false }

abbrev running : Engine
running =
    start_runtime_control_loop
      (settle (perform_initial_control_fetch new_page) first_flight (fetched live) 1000100) true

running-Reach : Reach running
unfolding perform_initial_control_fetch run_refresh_cycle settle resume apply_fetch_outcome
    apply_document accept_document apply_kill_switch
running-Reach =
    next (next (next here initial) (settled first_flight (fetched live) 1000100 refl))
      (started true refl)

Reach-IsSound_example : IsSound running
Reach-IsSound_example = Reach-IsSound running-Reach

stop_is_quiet_example :
    let s = stop_runtime_control_loop running in
    (s.armed ≡ [])
    × (s.listener_pairs ≡ 0)
    × (s.in_flight ≡ abort running.in_flight)
    × ((settle s first_flight (fetched live) 1000200).armed ≡ [])
stop_is_quiet_example = stop_is_quiet first_flight (fetched live) 1000200 running-Reach

fetches_live : fetch_control_document platform attempt 1000100 ≡ fetched live
unfolding fetch_control_document check_body check_parsed check_document read_bounded_body
    read_chunks is_json_content_type has_duplicate_object_keys scan scan_unit read_json_string
    text_eq trim trim_start is_space to_lower ends_with before_unit validate_control_document_shape
    validate_control_lifetime document_of any_not_included has_text includes
fetches_live = refl

fetch-IsAccepted_example : IsAccepted platform attempt 1000100 live
fetch-IsAccepted_example = fetch-IsAccepted platform attempt 1000100 live fetches_live

abbrev cycles : List Cycle
cycles = record { attempt = attempt; began = 1000100; applied_at = 1000150 } ∷ []

stale_page_fails_closed_example :
    is_collection_gate_open
      (run_outcomes create_initial_registry (outcomes_of platform cycles))
      1660100
    ≡ false
stale_page_fails_closed_example =
    stale_page_fails_closed platform cycles 1000100 1660100 (λ d e. omega arith, tt) (omega arith)
