-- ===== src/Sdk/Consent.antt =====
-- consent/consent-manager.js.
--
-- What the adapter does is an argument: the epoch drawn, and whether each of its two calls throws.
-- The calls that are made are listed in their order.
use frontend_observability.Base.{
  ℕ, String, Bool, true, false, not, ◌&&◌, ◌||◌, Option, none, some, List, [], ◌∷◌, str_eq,
  if◌then◌else◌, is_some, ◌++◌,
}
use frontend_observability.Base.Json.{Value, str}
use frontend_observability.Sdk.Correlation.{grant_correlation_epoch, clear_correlation_context}
use frontend_observability.Sdk.Lifecycle.{
  Runtime, Consent, granted, not_granted, active, degraded, same_state, degrade_runtime,
}

pub data AdapterCall : Type 0 where
  stop_session_replay : AdapterCall
  set_tracking_consent : Consent → AdapterCall

-- VALID_CONSENT, with the value that is meant.
abbrev pub valid_consent : Value → Option Consent
valid_consent (str s) =
    if str_eq s "granted"
    then some granted
    else if str_eq s "not-granted"
    then some not_granted
    else none
valid_consent _ = none

abbrev pub is_granted : Consent → Bool
is_granted granted = true
is_granted not_granted = false

unfoldable pub has_adapter : Runtime → Bool
has_adapter r =
    (same_state r.state active || same_state r.state degraded) && is_some r.adapter_instance

-- After the call `fn`, which throws or not.
unfoldable pub safe_adapter_call : Runtime → Bool → ℕ → Runtime
unfolding degrade_runtime
safe_adapter_call r throws now =
    if throws
    then (if same_state r.state active then (degrade_runtime r "ADAPTER_ERROR" now).0 else r)
    else r

pub record ConsentResult : Type 0 where
  pub ok : Bool
  pub reason_code : String
  pub calls : List AdapterCall

-- The part behind the correlation context: the calls of the adapter.
unfoldable pub tell_adapter :
    Runtime → Consent → Consent → Bool → Bool → ℕ → Runtime × List AdapterCall
tell_adapter r previous consent stop_throws set_throws now =
    let stops = is_granted previous && not (is_granted consent) && has_adapter r in
    let r' = if stops then safe_adapter_call r stop_throws now else r in
    if has_adapter r'
    then (
      safe_adapter_call r' set_throws now,
      (if stops then stop_session_replay ∷ [] else []) ++ set_tracking_consent consent ∷ [],
    )
    else (r', if stops then stop_session_replay ∷ [] else [])

-- The consent and the correlation context after the change from `previous`, which is the consent on
-- file; none where a grant could draw no epoch.
unfoldable pub switch_consent : Runtime → Consent → Consent → Option String → Option Runtime
switch_consent r not_granted granted drawn =
    let (context, drew) = grant_correlation_epoch r.correlation drawn in
    if not drew then none else some (record r { consent = granted; correlation = context })
switch_consent r granted not_granted drawn =
    some (record r { consent = not_granted; correlation = clear_correlation_context r.correlation })
switch_consent r previous consent drawn = some (record r { consent = consent })

unfoldable pub apply_consent :
    Runtime → Consent → Option String → Bool → Bool → ℕ → Runtime × ConsentResult
apply_consent r consent drawn stop_throws set_throws now =
    elim (switch_consent r r.consent consent drawn) [
      | none ↦ (
        record r { correlation = clear_correlation_context r.correlation },
        record { ok = false; reason_code = "CORRELATION_CONTEXT_UNAVAILABLE"; calls = [] },
      )
      | some switched ↦
          let (told, calls) = tell_adapter switched r.consent consent stop_throws set_throws now in
          (told, record { ok = true; reason_code = "NONE"; calls = calls })
    ]

unfoldable pub set_consent :
    Runtime → Value → Option String → Bool → Bool → ℕ → Runtime × ConsentResult
set_consent r value drawn stop_throws set_throws now = elim (valid_consent value) [
  | none ↦ (r, record { ok = false; reason_code = "INVALID_CONSENT"; calls = [] })
  | some consent ↦ apply_consent r consent drawn stop_throws set_throws now
]
