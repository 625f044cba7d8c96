-- ===== src/RuntimeControl/Engine.antt =====
-- runtime-control/refresh-engine.js: the refresh loop with its timer, its listeners and the one
-- fetch in flight.
--
-- The page's event loop chooses the next event; a handler runs to its next `await` without
-- interruption, and what awaited a promise resumes as soon as the promise settles. Timers and
-- listener pairs are those that the page really holds, beside the handle and the flag that the
-- registry keeps of them.
use frontend_observability.Base.{
  ℕ, zero, suc, ◌+◌, ◌-◌, ◌≡◌, Bool, true, false, not, ◌||◌, Option, none, some, List, [], ◌∷◌, ltb,
  ◌==◌, if◌then◌else◌, is_some,
}
use frontend_observability.RuntimeControl.Registry.{Registry, create_initial_registry}
use frontend_observability.RuntimeControl.Apply.{FetchResult, apply_fetch_outcome}
use frontend_observability.RuntimeControl.Schedule.{next_delay_ms}

-- The promise of runRefreshCycle in flight: how many runs of `tick` and `triggerImmediateRefresh`
-- await it, and whether its controller was aborted.
pub record Flight : Type 0 where
  pub waiters : ℕ
  pub aborted : Bool

pub record Timer : Type 0 where
  pub handle : ℕ
  pub delay_ms : ℕ

pub record Engine : Type 0 where
  pub registry : Registry
  pub timer_handle : Option ℕ
  pub in_flight : Option Flight
  pub listeners_installed : Bool
  pub loop_started : Bool
  pub armed : List Timer
  pub next_handle : ℕ
  pub listener_pairs : ℕ

abbrev pub new_page : Engine
new_page = record {
  registry = create_initial_registry;
  timer_handle = none;
  in_flight = none;
  listeners_installed = false;
  loop_started = false;
  armed = [];
  next_handle = 0;
  listener_pairs = 0;
}

-- `clearTimeout(handle)`
abbrev pub disarm : ℕ → List Timer → List Timer
disarm h [] = []
disarm h (t ∷ ts) = if t.handle == h then disarm h ts else t ∷ disarm h ts

abbrev pub disarm_handle : Option ℕ → List Timer → List Timer
disarm_handle none ts = ts
disarm_handle (some h) ts = disarm h ts

-- With no handle there is nothing to clear, and the handle stays as it is.
unfoldable pub clear_registry_timer : Engine → Engine
clear_registry_timer e = record e {
  armed = disarm_handle e.timer_handle e.armed;
  timer_handle = none;
}

unfoldable pub schedule_next : Engine → ℕ → Engine
unfolding clear_registry_timer
schedule_next e delay =
    let c = clear_registry_timer e in
    record c {
      armed = record { handle = c.next_handle; delay_ms = delay } ∷ c.armed;
      timer_handle = some c.next_handle;
      next_handle = c.next_handle + 1;
    }

-- The number tells how many runs of the loop go on to await the promise.
unfoldable pub run_refresh_cycle : Engine → ℕ → Engine
run_refresh_cycle e joining = elim e.in_flight [
  | none ↦ record e {
    registry = record (e.registry) {
      currently_refreshing = true;
      refresh_attempt_count = e.registry.refresh_attempt_count + 1;
    };
    in_flight = some (record { waiters = joining; aborted = false });
  }
  | some f ↦ record e { in_flight = some (record f { waiters = f.waiters + joining }) }
]

-- The part before its `await`.
unfoldable pub perform_initial_control_fetch : Engine → Engine
unfolding run_refresh_cycle
perform_initial_control_fetch e =
    if not e.registry.has_applied_once then run_refresh_cycle e 0 else e

-- `tick` up to its `await`, at the firing of the timer with this handle.
unfoldable pub tick : Engine → ℕ → Engine
unfolding run_refresh_cycle
tick e fired =
    let s : Engine = record e { armed = disarm fired e.armed; timer_handle = none } in
    if not s.loop_started then s else run_refresh_cycle s 1

-- Up to its `await`.
unfoldable pub trigger_immediate_refresh : Engine → Engine
unfolding run_refresh_cycle clear_registry_timer
trigger_immediate_refresh e =
    if not e.loop_started
    then e
    else let c = clear_registry_timer e in if is_some c.in_flight then c else run_refresh_cycle c 1

-- What `tick` and `triggerImmediateRefresh` do after their `await`.
unfoldable pub after_refresh : Engine → Bool → Engine
unfolding schedule_next
after_refresh e should_backoff =
    if not e.loop_started then e else schedule_next e (next_delay_ms e.registry should_backoff)

unfoldable pub resume : ℕ → Engine → Bool → Engine
unfolding after_refresh
resume zero e should_backoff = e
resume (suc n) e should_backoff = resume n (after_refresh e should_backoff) should_backoff

-- The fetch in flight settles: its outcome is applied, the promise is dropped, and what awaited it
-- goes on.
unfoldable pub settle : Engine → Flight → FetchResult → ℕ → Engine
unfolding resume
settle e f result now =
    let (applied, should_backoff) = apply_fetch_outcome e.registry result now in
    resume f.waiters
      (record e { registry = record applied { currently_refreshing = false }; in_flight = none })
      should_backoff

unfoldable pub install_listeners : Engine → Bool → Engine
install_listeners e is_browser =
    if e.listeners_installed || not is_browser
    then e
    else record e { listeners_installed = true; listener_pairs = e.listener_pairs + 1 }

unfoldable pub remove_listeners : Engine → Engine
remove_listeners e =
    if not e.listeners_installed
    then e
    else record e { listeners_installed = false; listener_pairs = e.listener_pairs - 1 }

unfoldable pub start_runtime_control_loop : Engine → Bool → Engine
unfolding install_listeners schedule_next
start_runtime_control_loop e is_browser =
    if e.loop_started
    then e
    else let s = install_listeners (record e { loop_started = true }) is_browser in
      schedule_next s (next_delay_ms s.registry (ltb 0 s.registry.consecutive_failures))

abbrev pub abort : Option Flight → Option Flight
abort none = none
abort (some f) = some (record f { aborted = true })

unfoldable pub stop_runtime_control_loop : Engine → Engine
unfolding clear_registry_timer remove_listeners
stop_runtime_control_loop e =
    let c = clear_registry_timer (record e { loop_started = false }) in
    remove_listeners (record c { in_flight = abort c.in_flight })

-- The events of a page. The coordinator starts the loop only after performInitialControlFetch
-- reported a document on file (bootstrap/coordinator.js); a timer fires while it is armed, and a
-- handler runs while it is installed.
pub data Step (e : Engine) : Engine → Type 0 where
  initial : Step e (perform_initial_control_fetch e)
  started :
      (is_browser : Bool)
      → e.registry.has_applied_once ≡ true
      → Step e (start_runtime_control_loop e is_browser)
  stopped : Step e (stop_runtime_control_loop e)
  fired : (t : Timer) (rest : List Timer) → e.armed ≡ t ∷ rest → Step e (tick e t.handle)
  woken : e.listeners_installed ≡ true → Step e (trigger_immediate_refresh e)
  settled :
      (f : Flight) (result : FetchResult) (now : ℕ)
      → e.in_flight ≡ some f
      → Step e (settle e f result now)

pub data Reach : Engine → Type 0 where
  here : Reach new_page
  next : {e e' : Engine} → Reach e → Step e e' → Reach e'
