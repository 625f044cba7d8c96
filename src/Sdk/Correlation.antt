-- ===== src/Sdk/Correlation.antt =====
-- correlation/correlation-context.js and capabilities.js. The epoch that createConsentEpoch draws,
-- or none where the page has no random source, is an argument.
use frontend_observability.Base.{String, Bool, false, ◌&&◌, Option, none, is_some}

pub record CorrelationCapabilities : Type 0 where
  pub epoch : Bool
  pub session : Bool
  pub view : Bool
  pub action : Bool
  pub cross_stream : Bool

unfoldable pub create_correlation_capabilities : Bool → Bool → Bool → CorrelationCapabilities
create_correlation_capabilities epoch native_context logs = record {
  epoch = epoch;
  session = native_context;
  view = native_context;
  action = native_context;
  cross_stream = epoch && logs;
}

pub record CorrelationContext : Type 0 where
  pub epoch_id : Option String
  pub native_session_id : Option String
  pub native_view_id : Option String
  pub capabilities : CorrelationCapabilities

abbrev pub create_correlation_context : CorrelationContext
create_correlation_context = record {
  epoch_id = none;
  native_session_id = none;
  native_view_id = none;
  capabilities = record {
    epoch = false;
    session = false;
    view = false;
    action = false;
    cross_stream = false;
  };
}

unfoldable pub grant_correlation_epoch :
    CorrelationContext → Option String → CorrelationContext × Bool
grant_correlation_epoch context drawn = (record context { epoch_id = drawn }, is_some drawn)

unfoldable pub clear_correlation_context : CorrelationContext → CorrelationContext
clear_correlation_context context = record context {
  epoch_id = none;
  native_session_id = none;
  native_view_id = none;
}
