-- ===== src/Sdk/Orphan.antt =====
-- What is left behind when a start is overtaken by a shutdown or by a call with invalid options
-- (bootstrap/coordinator.js, lifecycle/shutdown.js).
use frontend_observability.Base.{
  ℕ, ◌≡◌, Bool, true, false, none, some, List, ◌==◌, arith, refl, ◌∙◌,
}
use frontend_observability.RuntimeControl.Engine.{Engine, start_runtime_control_loop}
use frontend_observability.Sdk.Lifecycle.{
  initializing, active, shutdown, Adapter, transition, disable_runtime, Runtime, can_transition,
}
use frontend_observability.Sdk.Coordinator.{
  World, Identity, awaiting_adapter, resolved, adapter_up, begin_shutdown, finish_shutdown,
  after_adapter, initialize_coordinator, prepare_initialization_runtime, same_fingerprint,
}

start-loop_started :
    (e : Engine) (is_browser : Bool) → (start_runtime_control_loop e is_browser).loop_started ≡ true
unfolding start_runtime_control_loop
start-loop_started e is_browser = ground arith

begin_shutdown-keeps :
    (w : World) (now : ℕ)
    → let v = (begin_shutdown w now).0 in (v.pending ≡ w.pending) × (v.next_ref ≡ w.next_ref)
unfolding begin_shutdown
begin_shutdown-keeps w now = ground arith

eq_refl : (n : ℕ) → n == n ≡ true
eq_refl n = ground arith

eq_sym : (m n : ℕ) → m == n ≡ false → n == m ≡ false
eq_sym m n h = ground arith

after_closing :
    (v : World) (ref : ℕ) (others : List ℕ) (adapter : Adapter) (is_browser : Bool) (now : ℕ)
    → ref == v.next_ref ≡ false
    → let closed = (finish_shutdown v ref others now).0 in
      let late = (after_adapter closed ref (adapter_up adapter) false is_browser now).0 in
      (closed.pending ≡ v.pending)
      × ((late.store late.current).state ≡ shutdown)
      × (late.engine.loop_started ≡ true)
unfolding finish_shutdown after_adapter
after_closing v ref others adapter is_browser now fresh = (
  refl,
  rw (eq_sym ref v.next_ref fresh, eq_refl v.next_ref) refl,
  start-loop_started v.engine is_browser,
)

-- If a page is shut down while its initialization awaits the adapter, and the adapter comes up after
-- the shutdown has ended, then the initialization was still awaited, the current runtime is shut
-- down, and yet the refresh loop runs.
pub late_adapter_starts_loop :
    (w : World) (adapter : Adapter) (is_browser : Bool) (now : ℕ)
    → w.pending ≡ awaiting_adapter w.current
    → (w.store w.current).state ≡ initializing
    → (w.current == w.next_ref) ≡ false
    → let closed = (finish_shutdown (begin_shutdown w now).0 w.current w.closing now).0 in
      let late = (after_adapter closed w.current (adapter_up adapter) false is_browser now).0 in
      (closed.pending ≡ awaiting_adapter w.current)
      × ((late.store late.current).state ≡ shutdown)
      × (late.engine.loop_started ≡ true)
late_adapter_starts_loop w adapter is_browser now p i fresh =
    let (same_pending, same_next) = begin_shutdown-keeps w now in
    let (a, b, c) =
      after_closing (begin_shutdown w now).0 w.current w.closing adapter is_browser now
        (rw same_next fresh) in
    (a ∙ same_pending ∙ p, b, c)

prepare_active :
    (w : World) (now : ℕ)
    → (w.store w.current).state ≡ active
    → prepare_initialization_runtime w now ≡ (w, w.current)
unfolding prepare_initialization_runtime
prepare_active w now a = simp (a, prepare_initialization_runtime)

disable_active :
    (r : Runtime) (now : ℕ)
    → r.state ≡ active
    → (disable_runtime r "OPTIONS_INVALID" now).0 ≡ record r {
      enabled = false;
      adapter = none;
      adapter_instance = none;
      accepting_events = false;
    }
unfolding disable_runtime transition can_transition
disable_active r now a = simp (a)

-- Invalid options on an active page: the call reports failure with the active state, and the
-- runtime stays active while its adapter is dropped and events are refused; the next call with the options that the page was
-- started with reports success and changes nothing.
pub invalid_options_drop_adapter :
    (w : World) (options : Identity) (is_browser : Bool) (now : ℕ)
    → (w.store w.current).state ≡ active
    → same_fingerprint w.fingerprint options ≡ true
    → let call = initialize_coordinator w none is_browser now in
      let refused = call.0 in
      let r = refused.store refused.current in
      (call.1
        ≡ resolved
            (record { ok = false; state = active; reason_code = (w.store w.current).reason_code }))
      × (r.state ≡ active)
      × (r.adapter_instance ≡ none)
      × (r.accepting_events ≡ false)
      × (initialize_coordinator refused (some options) is_browser now
          ≡ (refused, resolved (record { ok = true; state = active; reason_code = r.reason_code })))
unfolding initialize_coordinator
invalid_options_drop_adapter w options is_browser now a f =
    rw (prepare_active w now a, disable_active (w.store w.current) now a, eq_refl w.current)
      (simp (a, f) (refl, refl, refl, refl, refl))
