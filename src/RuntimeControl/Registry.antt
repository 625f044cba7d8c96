-- ===== src/RuntimeControl/Registry.antt =====
-- runtime-control/registry.js and constants.js: the state that lives as long as the page.
--
-- A time is a count of milliseconds from the earliest date that `Date` represents, so that it is a
-- natural number; only differences and comparisons of times are used. A date text is kept as the
-- text and the value that `Date.parse` gives for it, `none` for NaN.
use frontend_observability.Base.{ℕ, ◌*◌, String, Bool, false, Option, none, List, [], ◌∷◌}

pub record DateText : Type 0 where
  pub text : String
  pub parsed : Option ℕ

pub record KillSwitch : Type 0 where
  pub active : Bool
  pub reason_code : String

-- A control document that passed validation.
pub record Document : Type 0 where
  pub revision : ℕ
  pub issued_at : DateText
  pub expires_at : DateText
  pub kill_switch : KillSwitch

pub data RuntimeControlState : Type 0 where
  fresh refreshing degraded expired invalid rollback_rejected kill_switched : RuntimeControlState

pub record ControlCounters : Type 0 where
  pub refresh_succeeded : ℕ
  pub refresh_failed : ℕ
  pub invalid_rejected : ℕ
  pub rollback_rejected_count : ℕ
  pub expired_fail_closed : ℕ
  pub kill_switch_activated : ℕ

-- What applyFetchOutcome and the gate read and write.
pub record Registry : Type 0 where
  pub current_document : Option Document
  pub last_checked_at : Option ℕ
  pub last_applied_at : Option ℕ
  pub consecutive_failures : ℕ
  pub has_applied_once : Bool
  pub kill_switch_active : Bool
  pub kill_switch_latched : Bool
  pub kill_switch_reason_code : String
  pub counters : ControlCounters
  pub currently_refreshing : Bool
  pub refresh_attempt_count : ℕ
  pub last_outcome_state : Option RuntimeControlState

abbrev pub create_initial_registry : Registry
create_initial_registry = record {
  current_document = none;
  last_checked_at = none;
  last_applied_at = none;
  consecutive_failures = 0;
  has_applied_once = false;
  kill_switch_active = false;
  kill_switch_latched = false;
  kill_switch_reason_code = "none";
  counters = record {
    refresh_succeeded = 0;
    refresh_failed = 0;
    invalid_rejected = 0;
    rollback_rejected_count = 0;
    expired_fail_closed = 0;
    kill_switch_activated = 0;
  };
  currently_refreshing = false;
  refresh_attempt_count = 0;
  last_outcome_state = none;
}

abbrev pub control_schema_version : ℕ
control_schema_version = 1

abbrev pub max_control_body_bytes : ℕ
max_control_body_bytes = 8 * 1024

abbrev pub max_control_ttl_ms : ℕ
max_control_ttl_ms = 10 * 60 * 1000

abbrev pub control_clock_skew_tolerance_ms : ℕ
control_clock_skew_tolerance_ms = 60 * 1000

abbrev pub refresh_interval_ms : ℕ
refresh_interval_ms = 30 * 1000

abbrev pub min_refresh_interval_ms : ℕ
min_refresh_interval_ms = 15 * 1000

abbrev pub max_refresh_interval_ms : ℕ
max_refresh_interval_ms = 300 * 1000

abbrev pub kill_switch_reason_codes : List String
kill_switch_reason_codes =
    "none" ∷ "security_incident" ∷ "privacy_incident" ∷ "service_degradation" ∷ "maintenance"
    ∷ "operator_request" ∷ []

abbrev pub control_top_level_keys : List String
control_top_level_keys = "schemaVersion" ∷ "revision" ∷ "issuedAt" ∷ "expiresAt" ∷ "killSwitch" ∷ []

abbrev pub control_kill_switch_keys : List String
control_kill_switch_keys = "active" ∷ "reasonCode" ∷ []
