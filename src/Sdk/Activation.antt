-- ===== src/Sdk/Activation.antt =====
-- No runtime is active before a control document is on file (bootstrap/coordinator.js).
use frontend_observability.Base.{
  ℕ, zero, suc, ap, String, ◌≡◌, ◌≢◌, inl, inr, refl, Bool, true, false, ◌||◌, Option, none, some,
  List, ◌∷◌, ◌++◌, arith, ◌==◌, ◌∙◌, Bool-cases,
}
use frontend_observability.RuntimeControl.Registry.{Registry}
use frontend_observability.RuntimeControl.Engine.{
  Engine, perform_initial_control_fetch, tick, trigger_immediate_refresh, after_refresh, resume,
  settle, start_runtime_control_loop, stop_runtime_control_loop, Step, initial, started, stopped,
  fired, woken, settled,
}
use frontend_observability.RuntimeControl.Loop.{apply_fetch_outcome-applied}
use frontend_observability.Sdk.Lifecycle.{
  idle, initializing, active, degraded, shutting_down, shutdown, Runtime, Consent, same_state,
  create_initial_runtime_state, transition, can_transition,
}
use frontend_observability.Sdk.Coordinator.{
  Pending, not_initializing, awaiting_config, awaiting_control, awaiting_adapter, World, Identity,
  ConfigResult, needs_epoch, config_refused, config_loaded, AdapterResult, adapter_up,
  adapter_refused, adapter_threw, adapter_unavailable, can_restart, is_pending, update, write,
  replace_runtime, prepare_initialization_runtime, give_up, begin_initialization,
  initialize_coordinator, after_config, after_control, after_adapter, begin_shutdown,
  finish_shutdown,
}
use frontend_observability.Sdk.Page.{
  loaded_page, Event, initializes, config_settles, control_settles, adapter_settles, shuts_down,
  shutdown_ends, consent_set, action_recorded, error_recorded, loop_event, History, loads,
  continues,
}
use frontend_observability.Sdk.Correlation.{clear_correlation_context, grant_correlation_epoch}
use frontend_observability.Sdk.Inactive.{
  NotActivated, disable-NotActivated, set_consent-NotActivated, record_action-NotActivated,
  record_error-NotActivated, transition-NotActivated,
}

-- The runtime is not active, or a document is on file.
abbrev pub Gated : Registry → Runtime → Type 0
Gated registry r = r.state ≡ active → registry.has_applied_once ≡ true

pub record IsGated (w : World) : Type 0 where
  pub each : (ref : ℕ) → Gated w.engine.registry (w.store ref)
  pub checked :
      (ref : ℕ) → w.pending ≡ awaiting_adapter ref → w.engine.registry.has_applied_once ≡ true

update-Gated :
    (registry : Registry) (store : ℕ → Runtime) (ref : ℕ) (r : Runtime)
    → ((k : ℕ) → Gated registry (store k))
    → Gated registry r
    → (k : ℕ) → Gated registry (update store ref r k)
update-Gated registry store ref r each h k = elim (Bool-cases (k == ref)) [
  | inl same ↦ rw same h
  | inr other ↦ rw other (each k)
]

-- An update of one object of the store that does not activate it.
write-IsGated :
    (w : World) (ref : ℕ) (r : Runtime)
    → IsGated w
    → NotActivated (w.store ref) r
    → IsGated (write w ref r)
write-IsGated w ref r v keep = record {
  each = update-Gated w.engine.registry w.store ref r v.each (λ h. v.each ref (keep h));
  checked = v.checked;
}

replace-IsGated :
    (w : World) (r : Runtime) → IsGated w → r.state ≢ active → IsGated (replace_runtime w r)
replace-IsGated w r v inactive = record {
  each = update-Gated w.engine.registry w.store w.next_ref r v.each (λ h. absurd (inactive h));
  checked = v.checked;
}

-- What is awaited does not matter to the runtimes.
settle-IsGated :
    (w : World) (p : Pending)
    → IsGated w
    → ((ref : ℕ) → p ≡ awaiting_adapter ref → w.engine.registry.has_applied_once ≡ true)
    → IsGated (record w { pending = p })
settle-IsGated w p v h = record { each = v.each; checked = h }

fresh_inactive :
    (c : Consent) (now : ℕ)
    → (transition
        (record (create_initial_runtime_state now) { consent = c })
        initializing
        "NONE"
        now).0.state
      ≢ active
unfolding transition create_initial_runtime_state can_transition
fresh_inactive c now h = cc

prepare-IsGated :
    (w : World) (now : ℕ) → IsGated w → IsGated (prepare_initialization_runtime w now).0
unfolding prepare_initialization_runtime
prepare-IsGated w now v = elim (Bool-cases (same_state (w.store w.current).state idle)) [
  | inl first ↦
      rw (first, prepare_initialization_runtime)
        (write-IsGated w w.current _ v
          (transition-NotActivated (w.store w.current) initializing "NONE" now (λ e. cc)))
  | inr other ↦ elim (Bool-cases (can_restart (w.store w.current).state)) [
    | inl again ↦
        rw (other, again, prepare_initialization_runtime)
          (replace-IsGated w _ v (fresh_inactive (w.store w.current).consent now))
    | inr no_restart ↦ rw (other, no_restart, prepare_initialization_runtime) v
  ]
]

give_up-IsGated :
    (w : World) (ref : ℕ) (why : String) (now : ℕ) → IsGated w → IsGated (give_up w ref why now).0
unfolding give_up
give_up-IsGated w ref why now v =
    write-IsGated _ ref _ (settle-IsGated w not_initializing v (λ k e. cc))
      (disable-NotActivated (w.store ref) why now)

begin_initialization-IsGated :
    (w : World) (options : Identity) (is_browser : Bool) (now : ℕ)
    → IsGated w
    → IsGated (begin_initialization w options is_browser now).0
unfolding begin_initialization
begin_initialization-IsGated w options true now v =
    settle-IsGated _ (awaiting_config (prepare_initialization_runtime w now).1)
      (write-IsGated _ (prepare_initialization_runtime w now).1 _ (prepare-IsGated w now v)
        (λ h. h))
      (λ k e. cc)
begin_initialization-IsGated w options false now v =
    give_up-IsGated _ (prepare_initialization_runtime w now).1 "UNSUPPORTED_RUNTIME" now (
      write-IsGated _ (prepare_initialization_runtime w now).1 _ (prepare-IsGated w now v) (λ h. h))

initialize-IsGated :
    (w : World) (options : Option Identity) (is_browser : Bool) (now : ℕ)
    → IsGated w
    → IsGated (initialize_coordinator w options is_browser now).0
unfolding initialize_coordinator
initialize-IsGated w none is_browser now v =
    write-IsGated _ (prepare_initialization_runtime w now).1 _ (prepare-IsGated w now v)
      (disable-NotActivated _ "OPTIONS_INVALID" now)
initialize-IsGated w (some options) is_browser now v =
    elim (Bool-cases (
      same_state (w.store w.current).state active
      || same_state (w.store w.current).state degraded)) [
        | inl up ↦ rw (up, initialize_coordinator) v
        | inr down ↦ elim (Bool-cases (is_pending w.pending)) [
          | inl busy ↦ rw (down, busy, initialize_coordinator) v
          | inr free ↦
              rw (down, free, initialize_coordinator)
                (begin_initialization-IsGated _ options is_browser now
                  (record { each = v.each; checked = v.checked }))
        ]
      ]

perform_initial-registry :
    (e : Engine)
    → (perform_initial_control_fetch e).registry.has_applied_once ≡ e.registry.has_applied_once
unfolding perform_initial_control_fetch
perform_initial-registry e = ground arith

-- A change of the engine that forgets no document.
engine-IsGated :
    (w : World) (e : Engine)
    → IsGated w
    → (w.engine.registry.has_applied_once ≡ true → e.registry.has_applied_once ≡ true)
    → IsGated (record w { engine = e })
engine-IsGated w e v keep = record {
  each = λ k h. keep (v.each k h);
  checked = λ k h. keep (v.checked k h);
}

after_config-IsGated :
    (w : World) (ref : ℕ) (result : ConfigResult) (now : ℕ)
    → IsGated w
    → IsGated (after_config w ref result now).0
unfolding after_config
after_config-IsGated w ref (config_refused why) now v = give_up-IsGated w ref why now v
after_config-IsGated w ref (config_loaded config_version true) now v =
    settle-IsGated _ (awaiting_control ref)
      (engine-IsGated _ (perform_initial_control_fetch w.engine) (write-IsGated w ref _ v (λ h. h))
        (λ h. perform_initial-registry w.engine ∙ h))
      (λ k e. cc)
after_config-IsGated w ref (config_loaded config_version false) now v =
    give_up-IsGated _ ref "CONFIG_DISABLED" now (write-IsGated w ref _ v (λ h. h))

-- With a document on file no write can break the gate.
applied-IsGated : (w : World) → w.engine.registry.has_applied_once ≡ true → IsGated w
applied-IsGated w h = record { each = λ k e. h; checked = λ k e. h }

after_control-IsGated :
    (w : World) (ref : ℕ) (drawn : Option String) (now : ℕ)
    → IsGated w
    → IsGated (after_control w ref drawn now).0
unfolding after_control
after_control-IsGated w ref drawn now v = elim (Bool-cases w.engine.registry.has_applied_once) [
  | inr missing ↦
      simp (missing, after_control) (give_up-IsGated w ref "RUNTIME_CONTROL_UNAVAILABLE" now v)
  | inl applied ↦ elim (Bool-cases (needs_epoch (w.store ref))) [
    | inr keeps ↦ rw (applied, keeps, after_control) (applied-IsGated _ refl)
    | inl draws ↦ elim (Bool-cases (grant_correlation_epoch (w.store ref).correlation drawn).1) [
      | inl drew ↦ rw (applied, draws, drew, after_control) (applied-IsGated _ refl)
      | inr dry ↦ rw (draws, dry, after_control, applied) (unfold give_up in applied-IsGated _ refl)
    ]
  ]
]

pub start-registry :
    (e : Engine) (is_browser : Bool)
    → (start_runtime_control_loop e is_browser).registry ≡ e.registry
unfolding start_runtime_control_loop
start-registry e is_browser = ground arith

pub stop-registry : (e : Engine) → (stop_runtime_control_loop e).registry ≡ e.registry
unfolding stop_runtime_control_loop
stop-registry e = ground arith

after_adapter-IsGated :
    (w : World) (ref : ℕ) (result : AdapterResult) (logs_down is_browser : Bool) (now : ℕ)
    → IsGated w
    → w.pending ≡ awaiting_adapter ref
    → IsGated (after_adapter w ref result logs_down is_browser now).0
unfolding after_adapter
after_adapter-IsGated w ref (adapter_refused why) logs_down is_browser now v p =
    give_up-IsGated w ref why now v
after_adapter-IsGated w ref adapter_threw logs_down is_browser now v p =
    applied-IsGated _ (v.checked ref p)
after_adapter-IsGated w ref adapter_unavailable logs_down is_browser now v p =
    give_up-IsGated w ref "ADAPTER_UNAVAILABLE" now v
after_adapter-IsGated w ref (adapter_up adapter) logs_down is_browser now v p =
    applied-IsGated _
      (ap (λ r. r.has_applied_once) (start-registry w.engine is_browser) ∙ v.checked ref p)

begin_shutdown-IsGated : (w : World) (now : ℕ) → IsGated w → IsGated (begin_shutdown w now).0
unfolding begin_shutdown
begin_shutdown-IsGated w now v =
    elim (Bool-cases (
      same_state (w.store w.current).state idle || same_state (w.store w.current).state shutdown)) [
        | inl over ↦ rw (over, begin_shutdown) v
        | inr up ↦
            let stopped : World = record w {
              engine = stop_runtime_control_loop w.engine;
              closing = w.current ∷ w.closing;
            } in
            let r : Runtime = record (w.store w.current) {
              accepting_events = false;
              correlation = clear_correlation_context (w.store w.current).correlation;
            } in
            let gated : IsGated stopped = record {
              each = λ k h. ap (λ g. g.has_applied_once) (stop-registry w.engine) ∙ v.each k h;
              checked =
                  λ k h. ap (λ g. g.has_applied_once) (stop-registry w.engine) ∙ v.checked k h;
            } in
            rw (up, begin_shutdown)
              (write-IsGated stopped w.current (transition r shutting_down "SHUTDOWN" now).0 gated
                (λ h. transition-NotActivated r shutting_down "SHUTDOWN" now (λ e. cc) h))
      ]

finish_shutdown-IsGated :
    (w : World) (ref : ℕ) (others : List ℕ) (now : ℕ)
    → IsGated w
    → IsGated (finish_shutdown w ref others now).0
unfolding finish_shutdown
finish_shutdown-IsGated w ref others now v =
    replace-IsGated (record w { closing = others }) _
      (record { each = v.each; checked = v.checked }) (λ h. cc)

pub resume-registry :
    (n : ℕ) (e : Engine) (should_backoff : Bool) → (resume n e should_backoff).registry ≡ e.registry
unfolding resume
resume-registry zero e should_backoff = refl
resume-registry (suc n) e should_backoff =
    resume-registry n (after_refresh e should_backoff) should_backoff
    ∙ (unfold after_refresh in ground arith)

-- No event of the refresh loop takes the document off file.
Step-applied :
    {e e' : Engine}
    → Step e e'
    → e.registry.has_applied_once ≡ true
    → e'.registry.has_applied_once ≡ true
unfolding tick trigger_immediate_refresh settle
Step-applied {e} initial h = perform_initial-registry e ∙ h
Step-applied {e} (started is_browser a) h =
    ap (λ r. r.has_applied_once) (start-registry e is_browser) ∙ h
Step-applied {e} stopped h = ap (λ r. r.has_applied_once) (stop-registry e) ∙ h
Step-applied {e} (fired t rest a) h = ground arith
Step-applied {e} (woken a) h = ground arith
Step-applied {e} (settled f result now a) h =
    ap (λ r. r.has_applied_once) (resume-registry f.waiters _ _)
    ∙ apply_fetch_outcome-applied e.registry result now h

Event-IsGated : {w w' : World} → Event w w' → IsGated w → IsGated w'
Event-IsGated {w} (initializes options is_browser now) v =
    initialize-IsGated w options is_browser now v
Event-IsGated {w} (config_settles ref result now p) v = after_config-IsGated w ref result now v
Event-IsGated {w} (control_settles ref drawn now p o) v = after_control-IsGated w ref drawn now v
Event-IsGated {w} (adapter_settles ref result logs_down is_browser now p) v =
    after_adapter-IsGated w ref result logs_down is_browser now v p
Event-IsGated {w} (shuts_down now) v = begin_shutdown-IsGated w now v
Event-IsGated {w} (shutdown_ends ref before behind now p) v =
    finish_shutdown-IsGated w ref (before ++ behind) now v
Event-IsGated {w} (consent_set value drawn stop_throws set_throws now) v =
    write-IsGated w w.current _ v
      (set_consent-NotActivated (w.store w.current) value drawn stop_throws set_throws now)
Event-IsGated {w} (action_recorded attributes sanitized throws now) v =
    write-IsGated w w.current _ v (
      record_action-NotActivated (w.store w.current) w.engine.registry attributes sanitized throws
        now)
Event-IsGated {w} (error_recorded context sanitized throws now) v =
    write-IsGated w w.current _ v
      (record_error-NotActivated (w.store w.current) w.engine.registry context sanitized throws now)
Event-IsGated {w} (loop_event {e} s) v = engine-IsGated w e v (Step-applied s)

loaded_page-IsGated : (now : ℕ) → IsGated (loaded_page now)
unfolding loaded_page
loaded_page-IsGated now = record { each = λ k e. cc; checked = λ k e. cc }

pub History-IsGated : {now : ℕ} {w : World} → History now w → IsGated w
History-IsGated {now} loads = loaded_page-IsGated now
History-IsGated (continues h e) = Event-IsGated e (History-IsGated h)
