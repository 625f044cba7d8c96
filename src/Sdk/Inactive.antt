-- ===== src/Sdk/Inactive.antt =====
-- Which operations leave an inactive runtime inactive (lifecycle/state-machine.js,
-- consent/consent-manager.js, actions/record-action.js, errors/record-error.js).
use frontend_observability.Base.{
  ℕ, String, ◌≡◌, ◌≢◌, inl, inr, Bool, Option, some, arith, sym, ◌∙◌, Option-cases,
}
use frontend_observability.Base.Json.{Value}
use frontend_observability.RuntimeControl.Registry.{Registry}
use frontend_observability.Sdk.Consent.{
  switch_consent, safe_adapter_call, tell_adapter, apply_consent, set_consent, valid_consent,
}
use frontend_observability.Sdk.Recording.{Sanitized, record_action, record_error}
use frontend_observability.Sdk.Lifecycle.{
  LifecycleState, active, Runtime, Consent, granted, not_granted, transition, disable_runtime,
  degrade_runtime, can_transition,
}

-- A step of a runtime that does not make it active.
abbrev pub NotActivated : Runtime → Runtime → Type 0
NotActivated r r' = r'.state ≡ active → r.state ≡ active

pub disable-NotActivated :
    (r : Runtime) (code : String) (now : ℕ) → NotActivated r (disable_runtime r code now).0
unfolding disable_runtime
disable-NotActivated r code now h = ground arith

degrade-NotActivated :
    (r : Runtime) (code : String) (now : ℕ) → NotActivated r (degrade_runtime r code now).0
unfolding degrade_runtime
degrade-NotActivated r code now h = ground arith

safe_adapter_call-NotActivated :
    (r : Runtime) (throws : Bool) (now : ℕ) → NotActivated r (safe_adapter_call r throws now)
unfolding safe_adapter_call
safe_adapter_call-NotActivated r throws now h = ground arith

tell_adapter-NotActivated :
    (r : Runtime) (previous consent : Consent) (stop_throws set_throws : Bool) (now : ℕ)
    → NotActivated r (tell_adapter r previous consent stop_throws set_throws now).0
unfolding tell_adapter
tell_adapter-NotActivated r previous consent stop_throws set_throws now h = ground (
  arith,
  safe_adapter_call-NotActivated r stop_throws now,
  safe_adapter_call-NotActivated r set_throws now,
  safe_adapter_call-NotActivated (safe_adapter_call r stop_throws now) set_throws now,
)

switch_consent-state :
    (r s : Runtime) (previous consent : Consent) (drawn : Option String)
    → switch_consent r previous consent drawn ≡ some s
    → s.state ≡ r.state
unfolding switch_consent
switch_consent-state r s granted granted drawn e = ground arith
switch_consent-state r s granted not_granted drawn e = ground arith
switch_consent-state r s not_granted granted drawn e = ground arith
switch_consent-state r s not_granted not_granted drawn e = ground arith

apply_consent-NotActivated :
    (r : Runtime) (consent : Consent) (drawn : Option String) (stop_throws set_throws : Bool)
    (now : ℕ)
    → NotActivated r (apply_consent r consent drawn stop_throws set_throws now).0
unfolding apply_consent
apply_consent-NotActivated r consent drawn stop_throws set_throws now =
    elim (Option-cases (switch_consent r r.consent consent drawn)) [
      | inl e ↦ rw (e, apply_consent) (λ h. h)
      | inr (s, e) ↦
          rw (e, apply_consent)
            (λ h.
              sym (switch_consent-state r s r.consent consent drawn e)
              ∙ tell_adapter-NotActivated s r.consent consent stop_throws set_throws now h)
    ]

pub set_consent-NotActivated :
    (r : Runtime) (value : Value) (drawn : Option String) (stop_throws set_throws : Bool) (now : ℕ)
    → NotActivated r (set_consent r value drawn stop_throws set_throws now).0
unfolding set_consent
set_consent-NotActivated r value drawn stop_throws set_throws now =
    elim (Option-cases (valid_consent value)) [
      | inl e ↦ rw (e, set_consent) (λ h. h)
      | inr (consent, e) ↦
          rw (e, set_consent)
            (apply_consent-NotActivated r consent drawn stop_throws set_throws now)
    ]

pub record_action-NotActivated :
    (r : Runtime) (registry : Registry) (extra : Value) (sanitized : Sanitized) (throws : Bool)
    (now : ℕ)
    → NotActivated r (record_action r registry extra sanitized throws now).0
unfolding record_action can_transition
record_action-NotActivated r registry extra sanitized throws now h = ground arith

pub record_error-NotActivated :
    (r : Runtime) (registry : Registry) (extra : Value) (sanitized : Sanitized) (throws : Bool)
    (now : ℕ)
    → NotActivated r (record_error r registry extra sanitized throws now).0
unfolding record_error can_transition
record_error-NotActivated r registry extra sanitized throws now h = ground arith

pub transition-NotActivated :
    (r : Runtime) (t : LifecycleState) (code : String) (now : ℕ)
    → t ≢ active
    → NotActivated r (transition r t code now).0
unfolding transition
transition-NotActivated r t code now h e = ground arith
