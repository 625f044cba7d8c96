-- ===== src/RuntimeControl/Apply.antt =====
-- runtime-control/apply-document.js, gate.js and status.js: a fetch outcome applied to the registry,
-- and what the registry says from outside.
use frontend_observability.Base.{
  ℕ, suc, ◌+◌, Bool, true, false, ◌&&◌, Option, none, some, ltb, ◌==◌, if◌then◌else◌, or_else, not,
}
use frontend_observability.RuntimeControl.Registry.{
  Document, DateText, KillSwitch, Registry, ControlCounters, RuntimeControlState, fresh, refreshing,
  degraded, expired, invalid, rollback_rejected, kill_switched,
}
use frontend_observability.RuntimeControl.Document.{ControlReason, is_document_live}

pub data TransportReason : Type 0 where
  http_error content_type_invalid too_large json_invalid timeout unavailable : TransportReason

-- The reason of a failed fetch. A reason of the first kind is a value of ControlReasonCodes, the set
-- DOCUMENT_INVALID_REASON_CODES; one of the second kind is not.
pub data FailureReason : Type 0 where
  document_invalid : ControlReason → FailureReason
  transport : TransportReason → FailureReason

pub data FetchResult : Type 0 where
  fetched : Document → FetchResult
  failed : FailureReason → FetchResult

-- The revision on file plus one, and 0 for the -1 that stands for none.
abbrev pub revision_rank : Option Document → ℕ
revision_rank none = 0
revision_rank (some d) = suc d.revision

unfoldable pub apply_kill_switch : Registry → KillSwitch → Registry
apply_kill_switch r k =
    if r.kill_switch_latched
    then r
    else if k.active
    then record r {
      kill_switch_active = k.active;
      kill_switch_reason_code = k.reason_code;
      kill_switch_latched = true;
      counters = record (r.counters) {
        kill_switch_activated = r.counters.kill_switch_activated + 1;
      };
    }
    else record r { kill_switch_active = k.active; kill_switch_reason_code = k.reason_code }

-- The Boolean is `shouldBackoff`.
unfoldable pub handle_failure : Registry → FailureReason → ℕ → Registry × Bool
handle_failure r (document_invalid why) now = (
  record r {
    consecutive_failures = r.consecutive_failures + 1;
    counters = record (r.counters) { invalid_rejected = r.counters.invalid_rejected + 1 };
    last_outcome_state = some invalid;
  },
  true,
)
handle_failure r (transport why) now =
    if r.has_applied_once && is_document_live r.current_document now
    then (
      record r {
        consecutive_failures = r.consecutive_failures + 1;
        counters = record (r.counters) { refresh_failed = r.counters.refresh_failed + 1 };
        last_outcome_state = some degraded;
      },
      true,
    )
    else (
      record r {
        consecutive_failures = r.consecutive_failures + 1;
        counters = record (r.counters) {
          refresh_failed = r.counters.refresh_failed + 1;
          expired_fail_closed = r.counters.expired_fail_closed + 1;
        };
        last_outcome_state = some expired;
      },
      true,
    )

-- A newer document takes the place of the one on file.
unfoldable pub accept_document : Registry → Document → ℕ → Registry
unfolding apply_kill_switch
accept_document r d now =
    apply_kill_switch
      (record r {
        current_document = some d;
        last_applied_at = some now;
        has_applied_once = true;
        last_outcome_state = some fresh;
      })
      d.kill_switch

unfoldable pub apply_document : Registry → Document → ℕ → Registry × Bool
unfolding accept_document
apply_document r d now =
    if ltb (suc d.revision) (revision_rank r.current_document)
    then (
      record r {
        consecutive_failures = r.consecutive_failures + 1;
        counters = record (r.counters) {
          rollback_rejected_count = r.counters.rollback_rejected_count + 1;
        };
        last_outcome_state = some rollback_rejected;
      },
      true,
    )
    else let s : Registry = record r {
      consecutive_failures = 0;
      counters = record (r.counters) { refresh_succeeded = r.counters.refresh_succeeded + 1 };
    } in
      if suc d.revision == revision_rank r.current_document
      then (record s { last_outcome_state = some fresh }, false)
      else (accept_document s d now, false)

unfoldable pub apply_fetch_outcome : Registry → FetchResult → ℕ → Registry × Bool
unfolding apply_document handle_failure
apply_fetch_outcome r (fetched d) now =
    apply_document (record r { last_checked_at = some now }) d now
apply_fetch_outcome r (failed why) now =
    handle_failure (record r { last_checked_at = some now }) why now

unfoldable pub compute_runtime_control_state : Registry → ℕ → RuntimeControlState
compute_runtime_control_state r now =
    if r.kill_switch_latched
    then kill_switched
    else if not r.has_applied_once
    then or_else r.last_outcome_state expired
    else if not (is_document_live r.current_document now)
    then expired
    else if r.currently_refreshing
    then refreshing
    else or_else r.last_outcome_state fresh

unfoldable pub is_collection_gate_open : Registry → ℕ → Bool
is_collection_gate_open r now =
    if not r.has_applied_once
    then false
    else if r.kill_switch_latched
    then false
    else is_document_live r.current_document now

pub record ControlSnapshot : Type 0 where
  pub state : RuntimeControlState
  pub revision : Option ℕ
  pub expires_at : Option DateText
  pub last_checked_at : Option ℕ
  pub last_applied_at : Option ℕ
  pub consecutive_failures : ℕ
  pub kill_switch : KillSwitch
  pub latched : Bool
  pub counters : ControlCounters

abbrev pub revision_of : Option Document → Option ℕ
revision_of none = none
revision_of (some d) = some d.revision

abbrev pub expiry_of : Option Document → Option DateText
expiry_of none = none
expiry_of (some d) = some d.expires_at

unfoldable pub snapshot_runtime_control : Registry → ℕ → ControlSnapshot
unfolding compute_runtime_control_state
snapshot_runtime_control r now = record {
  state = compute_runtime_control_state r now;
  revision = revision_of r.current_document;
  expires_at = expiry_of r.current_document;
  last_checked_at = r.last_checked_at;
  last_applied_at = r.last_applied_at;
  consecutive_failures = r.consecutive_failures;
  kill_switch = record { active = r.kill_switch_active; reason_code = r.kill_switch_reason_code };
  latched = r.kill_switch_latched;
  counters = r.counters;
}
