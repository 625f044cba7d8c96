-- ===== src/Sdk/Machine.antt =====
-- Laws of the lifecycle state machine (lifecycle/transitions.js, state-machine.js).
use frontend_observability.Base.{
  ℕ, String, ◌≡◌, ◌≢◌, ◌↔◌, ◌⊎◌, inl, inr, refl, Bool, true, false, none, arith, includes,
  Bool-cases, ap,
}
use frontend_observability.Sdk.Reasons.{is_reason_code}
use frontend_observability.Sdk.Lifecycle.{
  LifecycleState, idle, initializing, active, disabled, degraded, shutting_down, shutdown,
  same_state, can_transition, Runtime, normalize_reason_code, transition, disable_runtime,
}

-- The edges of the state diagram.
pub data Edge : LifecycleState → LifecycleState → Type 0 where
  starts : Edge idle initializing
  activates : Edge initializing active
  is_disabled : Edge initializing disabled
  comes_up_degraded : Edge initializing degraded
  degrades : Edge active degraded
  active_stops : Edge active shutting_down
  degraded_stops : Edge degraded shutting_down
  retries : Edge disabled initializing
  disabled_stops : Edge disabled shutting_down
  stops : Edge shutting_down shutdown
  restarts : Edge shutdown initializing

same_state_sound : (s t : LifecycleState) → same_state s t ≡ true → s ≡ t
same_state_sound idle t h = ground arith
same_state_sound initializing t h = ground arith
same_state_sound active t h = ground arith
same_state_sound disabled t h = ground arith
same_state_sound degraded t h = ground arith
same_state_sound shutting_down t h = ground arith
same_state_sound shutdown t h = ground arith

same_state_refl : (s : LifecycleState) → same_state s s ≡ true
same_state_refl idle = refl
same_state_refl initializing = refl
same_state_refl active = refl
same_state_refl disabled = refl
same_state_refl degraded = refl
same_state_refl shutting_down = refl
same_state_refl shutdown = refl

can_transition-Edge : (s t : LifecycleState) → can_transition s t ≡ true → Edge s t
unfolding can_transition
can_transition-Edge idle initializing h = starts
can_transition-Edge initializing active h = activates
can_transition-Edge initializing disabled h = is_disabled
can_transition-Edge initializing degraded h = comes_up_degraded
can_transition-Edge active degraded h = degrades
can_transition-Edge active shutting_down h = active_stops
can_transition-Edge degraded shutting_down h = degraded_stops
can_transition-Edge disabled initializing h = retries
can_transition-Edge disabled shutting_down h = disabled_stops
can_transition-Edge shutting_down shutdown h = stops
can_transition-Edge shutdown initializing h = restarts
can_transition-Edge _ _ h = cc

Edge-can_transition : {s t : LifecycleState} → Edge s t → can_transition s t ≡ true
unfolding can_transition
Edge-can_transition starts = refl
Edge-can_transition activates = refl
Edge-can_transition is_disabled = refl
Edge-can_transition comes_up_degraded = refl
Edge-can_transition degrades = refl
Edge-can_transition active_stops = refl
Edge-can_transition degraded_stops = refl
Edge-can_transition retries = refl
Edge-can_transition disabled_stops = refl
Edge-can_transition stops = refl
Edge-can_transition restarts = refl

-- What a call of `transition` comes to: the state asked for, with the reason on record, or nothing.
abbrev pub TransitionTo : Runtime → LifecycleState → String → ℕ → Runtime × Bool → Type 0
TransitionTo r t code now (r', ok) =
    ((ok ≡ true)
      × ((r.state ≡ t) ⊎ Edge r.state t)
      × (r' ≡ record r {
        state = t;
        reason_code = normalize_reason_code code;
        last_transition_at = now;
      }))
    ⊎ ((ok ≡ false) × (r' ≡ r) × (r.state ≢ t) × (¬ Edge r.state t))

-- A transition succeeds exactly along an edge of the state diagram or into the present state; it
-- then sets the state, the reason and the time and nothing else, and otherwise changes nothing.
pub transition-TransitionTo :
    (r : Runtime) (t : LifecycleState) (code : String) (now : ℕ)
    → TransitionTo r t code now (transition r t code now)
unfolding transition
transition-TransitionTo r t code now = elim (Bool-cases (same_state r.state t)) [
  | inl same ↦ rw same (
      inl (
        refl,
        inl (same_state_sound r.state t same),
        λ i. record r {
          state = same_state_sound r.state t same i;
          reason_code = normalize_reason_code code;
          last_transition_at = now;
        },
      ))
  | inr other ↦ elim (Bool-cases (can_transition r.state t)) [
    | inl edge ↦ rw (other, edge) (inl (refl, inr (can_transition-Edge r.state t edge), refl))
    | inr stuck ↦
        rw (other, stuck)
          (inr (
            refl,
            refl,
            λ e. cc (other, ap (same_state r.state) e, same_state_refl r.state),
            λ edge. cc (stuck, Edge-can_transition edge),
          ))
  ]
]

-- Whatever reason a caller gives, the one on record is in the closed list.
pub normalize_reason_code-listed :
    (code : String) → is_reason_code (normalize_reason_code code) ≡ true
unfolding normalize_reason_code
normalize_reason_code-listed code = elim (Bool-cases (is_reason_code code)) [
  | inl listed ↦ rw listed listed
  | inr other ↦ rw other (unfold is_reason_code includes in refl)
]

-- Disabling takes the adapter away in every state, and reaches `disabled` only from `initializing`
-- or `disabled`: every other state stays, so that an active runtime is left active without an
-- adapter and with events refused.
pub disable_runtime_lem :
    (r : Runtime) (code : String) (now : ℕ)
    → let r' = (disable_runtime r code now).0 in
      (r'.adapter_instance ≡ none)
      × (r'.enabled ≡ false)
      × (r'.accepting_events ≡ false)
      × (((r.state ≡ initializing) ⊎ (r.state ≡ disabled)) ↔ (r'.state ≡ disabled))
      × (r.state ≡ active → r'.state ≡ active)
unfolding disable_runtime can_transition
disable_runtime_lem r code now = by_state r.state refl
  where
    by_state :
        (s : LifecycleState)
        → r.state ≡ s
        → let r' = (disable_runtime r code now).0 in
          (r'.adapter_instance ≡ none)
          × (r'.enabled ≡ false)
          × (r'.accepting_events ≡ false)
          × (((r.state ≡ initializing) ⊎ (r.state ≡ disabled)) ↔ (r'.state ≡ disabled))
          × (r.state ≡ active → r'.state ≡ active)
    by_state idle e = ground arith
    by_state initializing e = ground arith
    by_state active e = ground arith
    by_state disabled e = ground arith
    by_state degraded e = ground arith
    by_state shutting_down e = ground arith
    by_state shutdown e = ground arith
