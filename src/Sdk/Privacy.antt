-- ===== src/Sdk/Privacy.antt =====
-- What reaches the adapter, and what consent means for it (actions/record-action.js,
-- errors/record-error.js, consent/consent-manager.js).
use frontend_observability.Base.{
  ℕ, ◌+◌, String, ◌≡◌, ◌≢◌, ◌↔◌, ◌⊎◌, inl, inr, refl, Bool, true, false, Option, none, some, List,
  [], ◌∷◌, arith, is_some, if◌then◌else◌, Option-cases, ◌∙◌, ap,
}
use frontend_observability.Base.Json.{Value}
use frontend_observability.RuntimeControl.Registry.{Registry}
use frontend_observability.RuntimeControl.Apply.{is_collection_gate_open}
use frontend_observability.Sdk.Counters.{drop, increment_counter, record_sanitization}
use frontend_observability.Sdk.Correlation.{clear_correlation_context}
use frontend_observability.Sdk.Lifecycle.{
  Runtime, Consent, granted, not_granted, active, can_transition,
}
use frontend_observability.Sdk.Consent.{
  AdapterCall, stop_session_replay, set_tracking_consent, is_granted, has_adapter,
  safe_adapter_call, tell_adapter, switch_consent, apply_consent,
}
use frontend_observability.Sdk.Recording.{
  Sanitized, is_plain_attributes, record_action, record_error,
}

-- All that must hold for an event to reach the adapter.
pub record MaySend (r : Runtime) (registry : Registry) (extra : Value) (sanitized : Sanitized)
    (now : ℕ) : Type 0 where
  pub is_active : r.state ≡ active
  pub accepting : r.accepting_events ≡ true
  pub gate : is_collection_gate_open registry now ≡ true
  pub consented : r.consent ≡ granted
  pub plain : is_plain_attributes extra ≡ true
  pub not_dropped : sanitized.decision ≢ drop
  pub adapter : is_some r.adapter_instance ≡ true

consented_of : (c : Consent) → is_granted c ≡ true → c ≡ granted
consented_of granted h = refl
consented_of not_granted h = cc

-- The adapter is called for an action exactly if the runtime is active and accepts events, the gate is
-- open, consent is granted, the attributes are plain, the sanitizer did not drop the action, and there
-- is an adapter; it is then given the sanitized values, and nothing else ever reaches it.
pub record_action-sends :
    (r : Runtime) (registry : Registry) (extra : Value) (sanitized : Sanitized) (throws : Bool)
    (now : ℕ) (sent : Value × Value)
    → ((record_action r registry extra sanitized throws now).1.call ≡ some sent) ↔ (
        MaySend r registry extra sanitized now × (sent ≡ (sanitized.subject, sanitized.attributes)))
unfolding record_action
record_action-sends r registry extra sanitized throws now sent =
    (λ h. ground arith, λ h. ground arith)

-- The adapter is called for an error exactly if the runtime is active and accepts events, the gate is
-- open, consent is granted, the context is plain, the sanitizer did not drop the error, and there
-- is an adapter; it is then given the sanitized values, and nothing else ever reaches it.
pub record_error-sends :
    (r : Runtime) (registry : Registry) (extra : Value) (sanitized : Sanitized) (throws : Bool)
    (now : ℕ) (sent : Value × Value)
    → ((record_error r registry extra sanitized throws now).1.call ≡ some sent) ↔ (
        MaySend r registry extra sanitized now × (sent ≡ (sanitized.subject, sanitized.attributes)))
unfolding record_error
record_error-sends r registry extra sanitized throws now sent =
    (λ h. ground arith, λ h. ground arith)

-- The counters of one kind of event after a call: one more accepted, or one more dropped.
abbrev pub CountsOne : Bool → (accepted accepted' dropped dropped' : ℕ) → Type 0
CountsOne true a a' d d' = (a' ≡ a + 1) × (d' ≡ d)
CountsOne false a a' d d' = (a' ≡ a) × (d' ≡ d + 1)

-- Every call of recordAction is counted exactly once, as accepted if it reports success and as
-- dropped if not, and leaves the counters of errors alone; it succeeds exactly if the action may be
-- sent and the adapter does not throw.
pub record_action-counted :
    (r : Runtime) (registry : Registry) (extra : Value) (sanitized : Sanitized) (throws : Bool)
    (now : ℕ)
    → let (r', result) = record_action r registry extra sanitized throws now in
      CountsOne result.ok r.counters.accepted_actions r'.counters.accepted_actions
        r.counters.dropped_actions r'.counters.dropped_actions
      × (r'.counters.accepted_errors ≡ r.counters.accepted_errors)
      × (r'.counters.dropped_errors ≡ r.counters.dropped_errors)
      × ((result.ok ≡ true) ↔ (MaySend r registry extra sanitized now × (throws ≡ false)))
unfolding record_action increment_counter record_sanitization can_transition
record_action-counted r registry extra sanitized throws now =
    (ground arith, ground arith, ground arith, (λ h. ground arith, λ h. ground arith))

-- Every call of recordError is counted exactly once, as accepted if it reports success and as dropped
-- if not, and leaves the counters of actions alone; it succeeds exactly if the error may be sent and the
-- adapter does not throw.
pub record_error-counted :
    (r : Runtime) (registry : Registry) (extra : Value) (sanitized : Sanitized) (throws : Bool)
    (now : ℕ)
    → let (r', result) = record_error r registry extra sanitized throws now in
      CountsOne result.ok r.counters.accepted_errors r'.counters.accepted_errors
        r.counters.dropped_errors r'.counters.dropped_errors
      × (r'.counters.accepted_actions ≡ r.counters.accepted_actions)
      × (r'.counters.dropped_actions ≡ r.counters.dropped_actions)
      × ((result.ok ≡ true) ↔ (MaySend r registry extra sanitized now × (throws ≡ false)))
unfolding record_error increment_counter record_sanitization can_transition
record_error-counted r registry extra sanitized throws now =
    (ground arith, ground arith, ground arith, (λ h. ground arith, λ h. ground arith))

-- A consent epoch is on file exactly while consent is granted.
abbrev pub EpochMatches : Runtime → Type 0
EpochMatches r = is_some r.correlation.epoch_id ≡ is_granted r.consent

safe_adapter_call-keeps :
    (r : Runtime) (throws : Bool) (now : ℕ)
    → let r' = safe_adapter_call r throws now in
      (r'.consent ≡ r.consent) × (r'.correlation ≡ r.correlation) × (has_adapter r' ≡ has_adapter r)
unfolding safe_adapter_call has_adapter can_transition
safe_adapter_call-keeps r throws now = (ground arith, ground arith, ground arith)

-- Calls made for a change from one consent to another, with an adapter up or not.
abbrev pub consent_calls : Consent → Consent → Bool → List AdapterCall
consent_calls previous consent false = []
consent_calls granted not_granted true = stop_session_replay ∷ set_tracking_consent not_granted ∷ []
consent_calls previous consent true = set_tracking_consent consent ∷ []

tell_adapter-keeps :
    (r : Runtime) (previous consent : Consent) (stop_throws set_throws : Bool) (now : ℕ)
    → let (r', calls) = tell_adapter r previous consent stop_throws set_throws now in
      (r'.consent ≡ r.consent)
      × (r'.correlation ≡ r.correlation)
      × (calls ≡ consent_calls previous consent (has_adapter r))
unfolding tell_adapter
tell_adapter-keeps r previous consent stop_throws set_throws now =
    let first = safe_adapter_call-keeps r stop_throws now in
    let r' = safe_adapter_call r stop_throws now in
    let second = safe_adapter_call-keeps r' set_throws now in
    let direct = safe_adapter_call-keeps r set_throws now in
    (
      ground (arith, first.0, second.0, direct.0, first.2),
      ground (arith, first.1, second.1, direct.1, first.2),
      ground (arith, first.2),
    )

switch_consent-none :
    (r : Runtime) (previous consent : Consent) (drawn : Option String)
    → switch_consent r previous consent drawn ≡ none
    → previous ≡ not_granted
unfolding switch_consent
switch_consent-none r not_granted consent drawn e = refl
switch_consent-none r granted granted drawn e = cc
switch_consent-none r granted not_granted drawn e = cc

-- A change of consent that fails erases the context and keeps the consent withheld; one that
-- succeeds sets the consent, with an epoch exactly if it is granted, and makes the calls due.
apply_consent_cases :
    (r : Runtime) (consent : Consent) (drawn : Option String) (stop_throws set_throws : Bool)
    (now : ℕ)
    → let (r', result) = apply_consent r consent drawn stop_throws set_throws now in
      ((result.ok ≡ false)
        × (r.consent ≡ not_granted)
        × (r'.consent ≡ not_granted)
        × (r'.correlation ≡ clear_correlation_context r.correlation))
      ⊎ ((s : Runtime) × (switch_consent r r.consent consent drawn ≡ some s)
          × (result.ok ≡ true)
          × (r'.consent ≡ s.consent)
          × (r'.correlation ≡ s.correlation)
          × (result.calls ≡ consent_calls r.consent consent (has_adapter s)))
unfolding apply_consent
apply_consent_cases r consent drawn stop_throws set_throws now =
    elim (Option-cases (switch_consent r r.consent consent drawn)) [
      | inl e ↦
          let held = switch_consent-none r r.consent consent drawn e in
          rw (e, apply_consent) (inl (refl, held, held, refl))
      | inr (s, e) ↦
          let (c, x, k) = tell_adapter-keeps s r.consent consent stop_throws set_throws now in
          rw (e, apply_consent) (inr (s, refl, refl, c, x, k))
    ]

-- What a call makes of the consent and the epoch on file.
abbrev pub after_call :
    Option Consent → Consent × Option String → Option String → Consent × Option String
after_call none on_file drawn = on_file
after_call (some granted) (granted, epoch) drawn = (granted, epoch)
after_call (some granted) (not_granted, epoch) (some new) = (granted, some new)
after_call (some granted) (not_granted, epoch) none = (not_granted, none)
after_call (some not_granted) (granted, epoch) drawn = (not_granted, none)
after_call (some not_granted) (not_granted, epoch) drawn = (not_granted, epoch)

abbrev pub on_file : Runtime → Consent × Option String
on_file r = (r.consent, r.correlation.epoch_id)

silent_action :
    (r : Runtime) (registry : Registry) (extra : Value) (sanitized : Sanitized) (throws : Bool)
    (now : ℕ)
    → r.consent ≡ not_granted
    → ((record_action r registry extra sanitized throws now).1.call ≡ none)
      × ((record_error r registry extra sanitized throws now).1.call ≡ none)
unfolding record_action record_error
silent_action r registry extra sanitized throws now h = (ground arith, ground arith)

withdrawn :
    (r s : Runtime) (previous : Consent)
    → previous ≡ granted
    → switch_consent r previous not_granted none ≡ some s
    → s ≡ record r { consent = not_granted; correlation = clear_correlation_context r.correlation }
unfolding switch_consent
withdrawn r s granted h e = cc
withdrawn r s not_granted h e = cc

consent_calls-withdrawn :
    (up : Bool)
    → consent_calls granted not_granted up
      ≡ (if up then stop_session_replay ∷ set_tracking_consent not_granted ∷ [] else [])
consent_calls-withdrawn true = refl
consent_calls-withdrawn false = refl

-- Withdrawing consent succeeds, erases the epoch and the native identifiers, stops a replay and then
-- tells the adapter, if one is up and whether or not its calls throw; from then on no action and no
-- error reaches the adapter.
pub withdrawal_silences :
    (r : Runtime) (stop_throws set_throws : Bool) (now later : ℕ) (registry : Registry)
    (extra : Value) (sanitized : Sanitized) (throws : Bool)
    → r.consent ≡ granted
    → let (r', result) = apply_consent r not_granted none stop_throws set_throws now in
      (result.ok ≡ true)
      × (r'.consent ≡ not_granted)
      × (r'.correlation.epoch_id ≡ none)
      × (r'.correlation.native_session_id ≡ none)
      × (r'.correlation.native_view_id ≡ none)
      × (result.calls ≡ (
          if has_adapter r
          then stop_session_replay ∷ set_tracking_consent not_granted ∷ []
          else []))
      × ((record_action r' registry extra sanitized throws later).1.call ≡ none)
      × ((record_error r' registry extra sanitized throws later).1.call ≡ none)
unfolding clear_correlation_context has_adapter
withdrawal_silences r stop_throws set_throws now later registry extra sanitized throws h =
    elim (apply_consent_cases r not_granted none stop_throws set_throws now) [
      | inl (ok, held, kept, x) ↦ absurd (cc (h, held))
      | inr (s, e, ok, c, x, k) ↦
          let same = withdrawn r s r.consent h e in
          let (quiet, silent) =
            silent_action _ registry extra sanitized throws later (c ∙ ap (λ t. t.consent) same) in
          (
            ok,
            c ∙ ap (λ t. t.consent) same,
            ap (λ t. t.epoch_id) (x ∙ ap (λ t. t.correlation) same),
            ap (λ t. t.native_session_id) (x ∙ ap (λ t. t.correlation) same),
            ap (λ t. t.native_view_id) (x ∙ ap (λ t. t.correlation) same),
            k ∙ rw (h, same) (consent_calls-withdrawn (has_adapter r)),
            quiet,
            silent,
          )
    ]
