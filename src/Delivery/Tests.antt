-- ===== src/Delivery/Tests.antt =====
-- Examples for the delivery worker.
use frontend_observability.Base.{
  ℕ, ◌≡◌, refl, true, false, some, [], if◌then◌else◌, leb, if◌then◌else◌,
}
use frontend_observability.Base.Json.{
  Fields, num, nat, str, bool, array, object, end, field, no_element,
}
use frontend_observability.Delivery.Routing.{Request, answered, threw}
use frontend_observability.Delivery.Messages.{
  WorkerCounters, AmqpMessage, payload_error, validate_durable_message, handle_message,
}
use frontend_observability.Delivery.Control.{
  ControlState, ControlFile, parsed, is_consumption_allowed,
}
use frontend_observability.Delivery.Consumers.{
  initial_worker, begin_resume, consume_all, queues, hold_consumers, control_tick,
}
use frontend_observability.Delivery.NoLoss.{Settles, is_taken, handle_message-Settles}
use frontend_observability.Delivery.Counting.{Counts, handle_message-counted}
use frontend_observability.Delivery.Fate.{Concludes, journey, journey_ends}
use frontend_observability.Delivery.Holding.{hold_overtakes_resume}

abbrev message : AmqpMessage
message = record {
  content = some (
      object (
        field "signal" (str "logs") (
          field "eventId" (str "e") (
            field "batchId" (str "b")
              (field "payload" (array no_element) (field "deliveryAttempt" (num (nat 3)) end))))));
  redelivered = true;
}

abbrev counters : WorkerCounters
counters = record { delivered = 5; retried = 2; dead_lettered = 1; duplicate_observed = 0 }

handle_message-Settles_example :
    Settles
      (is_taken message false (answered 503 []))
      true
      (handle_message counters message false (answered 503 []) true).1
handle_message-Settles_example =
    handle_message-Settles counters message false (answered 503 []) true

handle_message-counted_example :
    Counts
      (payload_error message.content false)
      counters
      (handle_message counters message false (answered 200 []) true)
handle_message-counted_example =
    handle_message-counted counters message false (answered 200 []) true

-- The first two deliveries time out, and the third is accepted.
abbrev requests : ℕ → Request
requests n = if leb n 2 then threw true else answered 200 []

abbrev fresh_fields : Fields
fresh_fields =
    field "signal" (str "logs") (
      field "eventId" (str "e")
        (field "batchId" (str "b") (field "payload" (array no_element) end)))

journey_ends_example :
    Concludes (λ why. "timeout") requests 0 (journey (λ why. "timeout") requests 16 fresh_fields)
unfolding payload_error validate_durable_message
journey_ends_example = journey_ends (λ why. "timeout") requests fresh_fields refl refl

abbrev holding_file : ControlFile
holding_file = parsed (object (field "hold" (bool true) end))

abbrev clear : ControlState
clear = record { ready = true; held = false; reason = "hold_clear" }

abbrev holding : ControlState
holding = record { ready = true; held = true; reason = "hold_requested" }

hold_overtakes_resume_example :
    let (resuming, to_consume) = begin_resume (record initial_worker { control_state = clear }) in
    let late = consume_all to_consume (control_tick resuming holding) in
    (is_consumption_allowed late.control_state ≡ false)
    × (late.consuming ≡ false)
    × (late.consumers ≡ queues)
    × (hold_consumers late ≡ late)
hold_overtakes_resume_example =
    hold_overtakes_resume initial_worker
      (record { running = refl; consumes = refl; connected = refl }) refl
