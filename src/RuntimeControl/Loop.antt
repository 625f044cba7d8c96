-- ===== src/RuntimeControl/Loop.antt =====
-- The refresh loop never runs twice and never stalls (runtime-control/refresh-engine.js).
use frontend_observability.Base.{
  ℕ, zero, suc, ◌≤◌, ◌<◌, ◌≡◌, ◌⊎◌, inr, refl, Bool, true, false, Option, none, some, List, [], ◌∷◌,
  arith, is_some, if◌then◌else◌, ltb, ap, ◌∙◌,
}
use frontend_observability.RuntimeControl.Registry.{Registry}
use frontend_observability.RuntimeControl.Apply.{
  FetchResult, fetched, failed, document_invalid, transport, apply_fetch_outcome,
}
use frontend_observability.RuntimeControl.Delay.{next_delay_bounds}
use frontend_observability.RuntimeControl.Engine.{
  Flight, Timer, Engine, new_page, disarm_handle, abort, schedule_next, run_refresh_cycle,
  perform_initial_control_fetch, tick, trigger_immediate_refresh, after_refresh, resume, settle,
  start_runtime_control_loop, stop_runtime_control_loop, Step, initial, started, stopped, fired,
  woken, settled, Reach, here, next,
}

-- The timers that the page holds are the one that the registry knows of, within its range.
abbrev pub Armed : Option ℕ → List Timer → Type 0
Armed none ts = ts ≡ []
Armed (some h) ts =
    (d : ℕ) × (ts ≡ record { handle = h; delay_ms = d } ∷ []) × (15000 ≤ d) × (d ≤ 300000)

abbrev pub waiting : Option Flight → ℕ
waiting none = 0
waiting (some f) = f.waiters

pub record IsSound (e : Engine) : Type 0 where
  pub one_timer : Armed e.timer_handle e.armed
  pub one_pair : e.listener_pairs ≡ (if e.listeners_installed then 1 else 0)
  pub quiet : e.loop_started ≡ false → e.timer_handle ≡ none
  pub deaf : e.loop_started ≡ false → e.listeners_installed ≡ false
  pub refreshing : e.registry.currently_refreshing ≡ is_some e.in_flight
  pub applied : e.loop_started ≡ true → e.registry.has_applied_once ≡ true
  pub awaited :
      e.registry.has_applied_once ≡ true → is_some e.in_flight ≡ true → 0 < waiting e.in_flight
  pub alive : e.loop_started ≡ true → (is_some e.timer_handle ≡ true) ⊎ (0 < waiting e.in_flight)

disarm_handle-Armed : (o : Option ℕ) (ts : List Timer) → Armed o ts → disarm_handle o ts ≡ []
disarm_handle-Armed none ts a = a
disarm_handle-Armed (some h) ts (d, e, lo, hi) = ground arith

start_flight-IsSound :
    (e : Engine)
    → IsSound e
    → e.in_flight ≡ none
    → e.loop_started ≡ true
    → IsSound (run_refresh_cycle e 1)
unfolding run_refresh_cycle
start_flight-IsSound e v idle on =
    rw (idle, run_refresh_cycle)
      (record {
        one_timer = v.one_timer;
        one_pair = v.one_pair;
        quiet = v.quiet;
        deaf = v.deaf;
        refreshing = refl;
        applied = v.applied;
        awaited = λ _ _. omega arith;
        alive = λ _. inr (omega arith);
      })

perform_initial-IsSound : (e : Engine) → IsSound e → IsSound (perform_initial_control_fetch e)
unfolding perform_initial_control_fetch
perform_initial-IsSound e v = ground arith

tick-IsSound :
    (e : Engine) (t : Timer) (rest : List Timer)
    → IsSound e
    → e.armed ≡ t ∷ rest
    → IsSound (tick e t.handle)
unfolding tick
tick-IsSound e t rest v a = ground arith

trigger-IsSound : (e : Engine) → IsSound e → IsSound (trigger_immediate_refresh e)
unfolding trigger_immediate_refresh
trigger-IsSound e v = ground (arith, disarm_handle-Armed e.timer_handle e.armed v.one_timer)

schedule_next-IsSound :
    (e : Engine) (d : ℕ)
    → IsSound e
    → e.loop_started ≡ true
    → 15000 ≤ d
    → d ≤ 300000
    → IsSound (schedule_next e d)
unfolding schedule_next
schedule_next-IsSound e d v on lo hi =
    ground (arith, disarm_handle-Armed e.timer_handle e.armed v.one_timer)

-- What holds between the settling of a fetch and the resumption of what awaited it.
record IsSettled (e : Engine) : Type 0 where
  one_timer : Armed e.timer_handle e.armed
  one_pair : e.listener_pairs ≡ (if e.listeners_installed then 1 else 0)
  quiet : e.loop_started ≡ false → e.timer_handle ≡ none
  deaf : e.loop_started ≡ false → e.listeners_installed ≡ false
  idle : e.registry.currently_refreshing ≡ false
  landed : e.in_flight ≡ none
  applied : e.loop_started ≡ true → e.registry.has_applied_once ≡ true

after_refresh-IsSound :
    (e : Engine) (should_backoff : Bool) → IsSettled e → IsSound (after_refresh e should_backoff)
unfolding after_refresh
after_refresh-IsSound e should_backoff v =
    let (lo, hi, near, above) = next_delay_bounds e.registry should_backoff in
    ground (arith, disarm_handle-Armed e.timer_handle e.armed v.one_timer, lo, hi)

after_refresh-IsSettled :
    (e : Engine) (should_backoff : Bool) → IsSettled e → IsSettled (after_refresh e should_backoff)
unfolding after_refresh
after_refresh-IsSettled e should_backoff v =
    let (lo, hi, near, above) = next_delay_bounds e.registry should_backoff in
    ground (arith, disarm_handle-Armed e.timer_handle e.armed v.one_timer, lo, hi)

resume-IsSound :
    (n : ℕ) (e : Engine) (should_backoff : Bool)
    → IsSettled e
    → (e.loop_started ≡ true → 0 < n)
    → IsSound (resume n e should_backoff)
unfolding resume
resume-IsSound zero e should_backoff v h = ground arith
resume-IsSound (suc zero) e should_backoff v h = after_refresh-IsSound e should_backoff v
resume-IsSound (suc (suc n)) e should_backoff v h =
    resume-IsSound (suc n) (after_refresh e should_backoff) should_backoff
      (after_refresh-IsSettled e should_backoff v) (λ _. omega arith)

pub apply_fetch_outcome-applied :
    (r : Registry) (result : FetchResult) (now : ℕ)
    → r.has_applied_once ≡ true
    → (apply_fetch_outcome r result now).0.has_applied_once ≡ true
unfolding apply_fetch_outcome
apply_fetch_outcome-applied r (fetched d) now h = ground arith
apply_fetch_outcome-applied r (failed (document_invalid why)) now h = ground arith
apply_fetch_outcome-applied r (failed (transport why)) now h = ground arith

settle-IsSound :
    (e : Engine) (f : Flight) (result : FetchResult) (now : ℕ)
    → IsSound e
    → e.in_flight ≡ some f
    → IsSound (settle e f result now)
unfolding settle
settle-IsSound e f result now v flying =
    resume-IsSound f.waiters _ _
      (record {
        one_timer = v.one_timer;
        one_pair = v.one_pair;
        quiet = v.quiet;
        deaf = v.deaf;
        idle = refl;
        landed = refl;
        applied = λ on. apply_fetch_outcome-applied e.registry result now (v.applied on);
      })
      (λ on. rw flying at (v.awaited (v.applied on) (ap is_some flying)))

start-IsSound :
    (e : Engine) (is_browser : Bool)
    → IsSound e
    → e.registry.has_applied_once ≡ true
    → IsSound (start_runtime_control_loop e is_browser)
unfolding start_runtime_control_loop
start-IsSound e is_browser v h =
    let (lo, hi, near, above) =
      next_delay_bounds e.registry (ltb 0 e.registry.consecutive_failures) in
    ground (arith, disarm_handle-Armed e.timer_handle e.armed v.one_timer, lo, hi)

stop-IsSound : (e : Engine) → IsSound e → IsSound (stop_runtime_control_loop e)
unfolding stop_runtime_control_loop
stop-IsSound e v = ground (arith, disarm_handle-Armed e.timer_handle e.armed v.one_timer)

Step-IsSound : {e e' : Engine} → Step e e' → IsSound e → IsSound e'
Step-IsSound {e} initial v = perform_initial-IsSound e v
Step-IsSound {e} (started is_browser h) v = start-IsSound e is_browser v h
Step-IsSound {e} stopped v = stop-IsSound e v
Step-IsSound {e} (fired t rest a) v = tick-IsSound e t rest v a
Step-IsSound {e} (woken h) v = trigger-IsSound e v
Step-IsSound {e} (settled f result now h) v = settle-IsSound e f result now v h

new_page-IsSound : IsSound new_page
new_page-IsSound = ground arith

-- Whatever order the page's events come in: the page holds the one timer that the registry knows
-- of, or none, with a delay of 15 to 300 seconds; it holds one pair of listeners exactly if they
-- count as installed; a stopped loop has neither; `currentlyRefreshing` is set exactly while a fetch
-- is in flight; the loop runs only with a document on file; and a running loop never stalls, for a
-- timer is armed or a run of the loop awaits the fetch in flight.
pub Reach-IsSound : {e : Engine} → Reach e → IsSound e
Reach-IsSound here = new_page-IsSound
Reach-IsSound (next r s) = Step-IsSound s (Reach-IsSound r)

resume_stopped :
    (n : ℕ) (e : Engine) (should_backoff : Bool)
    → e.loop_started ≡ false
    → resume n e should_backoff ≡ e
unfolding resume
resume_stopped zero e should_backoff off = refl
resume_stopped (suc n) e should_backoff off =
    let same : after_refresh e should_backoff ≡ e = unfold after_refresh in rw off in
    rw same (resume_stopped n e should_backoff off)

settle_stopped :
    (e : Engine) (f : Flight) (result : FetchResult) (now : ℕ)
    → e.loop_started ≡ false
    → (settle e f result now).armed ≡ e.armed
unfolding settle
settle_stopped e f result now off = ap (λ s. s.armed) (resume_stopped f.waiters _ _ off)

-- Stopping a page's loop leaves it with no timer and no listeners, and aborts the fetch in flight;
-- until the loop is started anew, that fetch settling arms no timer.
pub stop_is_quiet :
    {e : Engine} (f : Flight) (result : FetchResult) (now : ℕ)
    → Reach e
    → let s = stop_runtime_control_loop e in
      (s.armed ≡ [])
      × (s.listener_pairs ≡ 0)
      × (s.in_flight ≡ abort e.in_flight)
      × ((settle s f result now).armed ≡ [])
unfolding stop_runtime_control_loop
stop_is_quiet {e} f result now r =
    let v = Reach-IsSound r in
    let none_armed = disarm_handle-Armed e.timer_handle e.armed v.one_timer in
    let off = settle_stopped (stop_runtime_control_loop e) f result now (ground arith) in
    (ground arith, ground arith, ground arith, off ∙ ground arith)
