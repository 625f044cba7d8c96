-- ===== src/Delivery/Counting.antt =====
-- What the worker's counters say of its messages (apps/telemetry-delivery-worker/src/runtime.js).
use frontend_observability.Base.{
  ℕ, ◌+◌, ◌≡◌, inl, inr, Bool, true, false, ◌&&◌, Option, List, arith, if◌then◌else◌, ltb, ◌==◌,
  suc, [], ◌∷◌, refl, none, some, Option-cases, Bool-cases,
}
use frontend_observability.Base.Json.{Value}
use frontend_observability.Delivery.Routing.{
  Signal, DeliveryResult, accepted, refused, max_delivery_attempts, retry_routing_key, Request,
  deliver_to_openobserve,
}
use frontend_observability.Delivery.Messages.{
  WorkerCounters, AmqpMessage, Effect, publishes, to_retry, to_dlq, PayloadError, payload_error,
  after_delivery, handle_message, confirmed, deliver_first, publish_dlq, attempt_limit_exceeded,
  rejected, permanent_payload_failure,
}
use frontend_observability.Delivery.NoLoss.{ack_count}

-- How many of the effects publish to a retry queue, and how many to the dead-letter queue.
abbrev pub retries : List Effect → ℕ
retries [] = 0
retries (publishes (to_retry key attempt why) ∷ es) = suc (retries es)
retries (e ∷ es) = retries es

abbrev pub dead_letters : List Effect → ℕ
dead_letters [] = 0
dead_letters (publishes (to_dlq key why) ∷ es) = suc (dead_letters es)
dead_letters (e ∷ es) = dead_letters es

-- Acknowledged, and published nowhere.
abbrev pub taken : List Effect → ℕ
taken es = if retries es + dead_letters es == 0 then ack_count es else 0

-- Of a message that passed, the counter of what became of it moves, once it is acknowledged.
pub record CountsFate (w w' : WorkerCounters) (es : List Effect) : Type 0 where
  pub delivered : w'.delivered ≡ w.delivered + taken es
  pub retried : w'.retried ≡ w.retried + (if ack_count es == 0 then 0 else retries es)
  pub dead_lettered :
      w'.dead_lettered ≡ w.dead_lettered + (if ack_count es == 0 then 0 else dead_letters es)

-- With an error in its payload it is dead-lettered, and no counter moves.
abbrev pub Counts : Option PayloadError → WorkerCounters → WorkerCounters × List Effect → Type 0
Counts none w (w', es) = CountsFate w w' es
Counts (some why) w (w', es) = (w' ≡ w) × (dead_letters es ≡ 1)

after_delivery-CountsFate :
    (w : WorkerCounters) (content : Option Value) (signal : Signal) (attempt : ℕ)
    (redelivered : Bool) (r : DeliveryResult) (confirms : Bool)
    → Counts none w
        (deliver_first attempt (after_delivery w content signal attempt redelivered r confirms))
unfolding after_delivery publish_dlq
after_delivery-CountsFate w content signal attempt redelivered (accepted status) confirms = record {
  delivered = refl;
  retried = omega arith;
  dead_lettered = omega arith;
}
after_delivery-CountsFate w content signal attempt redelivered (refused retryable status why)
      confirms =
    elim (Bool-cases (retryable && ltb attempt max_delivery_attempts)) [
      | inl again ↦ rw again (again_counts confirms)
      | inr over ↦ rw over (over_counts confirms)
    ]
  where
    again_counts :
        (c : Bool)
        → Counts none w (
            deliver_first attempt (
              confirmed
                (to_retry (retry_routing_key signal attempt) attempt why)
                c
                w
                (record w { retried = w.retried + 1 })))
    again_counts true = record {
      delivered = omega arith;
      retried = refl;
      dead_lettered = omega arith;
    }
    again_counts false = record {
      delivered = omega arith;
      retried = omega arith;
      dead_lettered = omega arith;
    }

    over_counts :
        (c : Bool)
        → Counts none w (
            deliver_first attempt (
              confirmed
                (publish_dlq content (if retryable then attempt_limit_exceeded else rejected why))
                c
                w
                (record w { dead_lettered = w.dead_lettered + 1 })))
    over_counts true = record {
      delivered = omega arith;
      retried = omega arith;
      dead_lettered = refl;
    }
    over_counts false = record {
      delivered = omega arith;
      retried = omega arith;
      dead_lettered = omega arith;
    }

-- Of a message that passes validation, an acknowledgement moves by one the counter of what became of
-- it: delivered where it was published nowhere, retried where it was published to a retry queue, and
-- dead-lettered where it was published to the dead-letter queue; without an acknowledgement none of
-- the three moves. A message that does not pass is published once to the dead-letter queue, and yet no
-- counter moves.
pub handle_message-counted :
    (w : WorkerCounters) (m : AmqpMessage) (unsafe : Bool) (request : Request) (confirms : Bool)
    → Counts (payload_error m.content unsafe) w (handle_message w m unsafe request confirms)
unfolding handle_message publish_dlq
handle_message-counted w m unsafe request confirms =
    elim (Option-cases (payload_error m.content unsafe)) [
      | inl fine ↦
          rw (fine, handle_message)
            (after_delivery-CountsFate w m.content _ _ m.redelivered
              (deliver_to_openobserve request) confirms)
      | inr (why, bad) ↦ rw (bad, handle_message) (unchanged why confirms)
    ]
  where
    unchanged :
        (why : PayloadError) (c : Bool)
        → Counts
            (some why)
            w
            (confirmed (publish_dlq m.content (permanent_payload_failure why)) c w w)
    unchanged why true = (refl, refl)
    unchanged why false = (refl, refl)
