-- ===== src/Delivery/Control.antt =====
-- apps/telemetry-delivery-worker/src/control-state.js: the control file that holds the worker.
use frontend_observability.Base.{String, Bool, true, false, not, ◌&&◌, ◌||◌, str_eq, if◌then◌else◌}
use frontend_observability.Base.Json.{Value, bool, get, is_plain_object}

pub record ControlState : Type 0 where
  pub ready : Bool
  pub held : Bool
  pub reason : String

-- The variable that names the file, and what reading and parsing the file comes to.
pub data ControlFile : Type 0 where
  env_missing file_missing file_unreadable file_malformed : ControlFile
  parsed : Value → ControlFile

abbrev pub fail_closed : String → ControlState
fail_closed reason = record { ready = false; held = true; reason = reason }

abbrev pub hold_of : Value → ControlState
hold_of (bool true) = record { ready = true; held = true; reason = "hold_requested" }
hold_of (bool false) = record { ready = true; held = false; reason = "hold_clear" }
hold_of _ = fail_closed "control_document_invalid"

unfoldable pub read_control_state : ControlFile → ControlState
read_control_state env_missing = fail_closed "control_env_missing"
read_control_state file_missing = fail_closed "control_file_missing"
read_control_state file_unreadable = fail_closed "control_file_unreadable"
read_control_state file_malformed = fail_closed "control_file_malformed"
read_control_state (parsed value) =
    if not (is_plain_object value)
    then fail_closed "control_document_invalid"
    else hold_of (get "hold" value)

abbrev pub is_consumption_allowed : ControlState → Bool
is_consumption_allowed c = c.ready && not c.held

abbrev pub is_delivery_ready : Bool → ControlState → Bool
is_delivery_ready connection_ready c = connection_ready && is_consumption_allowed c

abbrev pub differ : Bool → Bool → Bool
differ true b = not b
differ false b = b

unfoldable pub control_state_changed : ControlState → ControlState → Bool
control_state_changed current next =
    differ current.ready next.ready
    || differ current.held next.held
    || not (str_eq current.reason next.reason)
