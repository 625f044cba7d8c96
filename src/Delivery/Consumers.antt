-- ===== src/Delivery/Consumers.antt =====
-- apps/telemetry-delivery-worker/src/runtime.js: starting, holding and resuming the consumers.
--
-- `consumers` are the queues from which the broker delivers to this worker, as the map of the same
-- name has them. A function that awaits the broker between two queues is split there: the queues that
-- resumeConsumers has still to consume are a value.
use frontend_observability.Base.{Bool, true, false, not, ◌||◌, List, [], ◌∷◌, if◌then◌else◌}
use frontend_observability.Delivery.Routing.{Signal, rum, logs}
use frontend_observability.Delivery.Control.{
  ControlState, is_consumption_allowed, control_state_changed,
}

pub record Worker : Type 0 where
  pub control_state : ControlState
  pub consuming : Bool
  pub consumers : List Signal
  pub shutting_down : Bool

abbrev pub initial_worker : Worker
initial_worker = record {
  control_state = record { ready = false; held = true; reason = "control_not_evaluated" };
  consuming = false;
  consumers = [];
  shutting_down = false;
}

-- `Object.entries(RABBITMQ.queues)`
abbrev pub queues : List Signal
queues = rum ∷ logs ∷ []

-- Up to the first `await`, with the queues still to consume.
unfoldable pub begin_resume : Worker → Worker × List Signal
begin_resume w =
    if w.consuming || w.shutting_down || not (is_consumption_allowed w.control_state)
    then (w, [])
    else (record w { consuming = true }, queues)

-- Behind the `await` of one `channel.consume`; a map keeps one entry of each signal.
abbrev pub same_signal : Signal → Signal → Bool
same_signal rum rum = true
same_signal logs logs = true
same_signal _ _ = false

abbrev pub set_consumer : Signal → List Signal → List Signal
set_consumer s [] = s ∷ []
set_consumer s (t ∷ ts) = if same_signal s t then t ∷ ts else t ∷ set_consumer s ts

abbrev pub consumed : Signal → Worker → Worker
consumed s w = record w { consumers = set_consumer s w.consumers }

abbrev pub consume_all : List Signal → Worker → Worker
consume_all [] w = w
consume_all (s ∷ rest) w = consume_all rest (consumed s w)

-- With nothing else between its awaits.
unfoldable pub resume_consumers : Worker → Worker
unfolding begin_resume
resume_consumers w = let (begun, rest) = begin_resume w in consume_all rest begun

-- Every tag in the map is cancelled.
unfoldable pub hold_consumers : Worker → Worker
hold_consumers w = if not w.consuming then w else record w { consumers = []; consuming = false }

unfoldable pub apply_control_state : Worker → ControlState → Worker
unfolding resume_consumers hold_consumers control_state_changed
apply_control_state w next =
    let s : Worker = record w { control_state = next } in
    if not (control_state_changed w.control_state next)
    then s
    else if is_consumption_allowed next
    then resume_consumers s
    else hold_consumers s

-- A tick of the control loop.
unfoldable pub control_tick : Worker → ControlState → Worker
unfolding apply_control_state
control_tick w next = if w.shutting_down then w else apply_control_state w next

-- Reading the control file at the start, then `resumeConsumers`.
unfoldable pub start_worker : ControlState → Worker
unfolding resume_consumers
start_worker control = resume_consumers (record initial_worker { control_state = control })

-- The consumers' part of `shutdown`.
unfoldable pub shutdown_worker : Worker → Worker
unfolding hold_consumers
shutdown_worker w = hold_consumers (record w { shutting_down = true })

unfoldable pub run_ticks : Worker → List ControlState → Worker
unfolding control_tick
run_ticks w [] = w
run_ticks w (next ∷ rest) = run_ticks (control_tick w next) rest
