-- ===== src/Delivery/Messages.antt =====
-- apps/telemetry-delivery-worker/src/runtime.js: what the worker does with a message.
--
-- The content of a message is what `JSON.parse` made of it, none where that throws. Whether the
-- payload is unsafe (containsUnsafeTelemetryText), what the request to OpenObserve met and whether the
-- broker confirms the publication are arguments. A message's `deliveryAttempt` is absent or a natural
-- number, as buildDurableMessage and publishRetry, the queue's two producers, write it. A publication
-- that the broker refuses is an exception behind which nothing more is done.
use frontend_observability.Base.{
  ℕ, ◌+◌, String, Bool, true, false, not, ◌&&◌, ◌||◌, Option, none, some, List, [], ◌∷◌, ltb,
  if◌then◌else◌, or_else,
}
use frontend_observability.Base.Json.{is_string, Value, num, nat, str, array, object, get}
use frontend_observability.Delivery.Routing.{
  Signal, rum, signal_of, is_known_signal, max_delivery_attempts, retry_routing_key,
  dlq_routing_key, DeliveryReason, DeliveryResult, accepted, refused, Request,
  deliver_to_openobserve,
}

pub record WorkerCounters : Type 0 where
  pub delivered : ℕ
  pub retried : ℕ
  pub dead_lettered : ℕ
  pub duplicate_observed : ℕ

pub data PayloadError : Type 0 where
  message_not_object unknown_signal missing_ids payload_not_array : PayloadError
  json_invalid unsafe_payload_detected : PayloadError

pub data DlqReason : Type 0 where
  permanent_payload_failure : PayloadError → DlqReason
  attempt_limit_exceeded : DlqReason
  rejected : DeliveryReason → DlqReason

pub data Publication : Type 0 where
  to_retry : (routing_key : String) → (attempt : ℕ) → DeliveryReason → Publication
  to_dlq : (routing_key : String) → DlqReason → Publication

-- The effects of a handler in their order.
pub data Effect : Type 0 where
  delivers : (attempt : ℕ) → Effect
  publishes : Publication → Effect
  acks : Effect

pub record AmqpMessage : Type 0 where
  pub content : Option Value
  pub redelivered : Bool

-- `!message || typeof message !== "object"`
abbrev pub is_object : Value → Bool
is_object (object fs) = true
is_object (array vs) = true
is_object _ = false

abbrev pub is_array : Value → Bool
is_array (array vs) = true
is_array _ = false

unfoldable pub validate_durable_message : Value → Option PayloadError
validate_durable_message message =
    if not (is_object message)
    then some message_not_object
    else if not (is_known_signal (get "signal" message))
    then some unknown_signal
    else if not (is_string (get "eventId" message)) || not (is_string (get "batchId" message))
    then some missing_ids
    else if not (is_array (get "payload" message))
    then some payload_not_array
    else none

-- `Number(message.deliveryAttempt ?? 0)`
abbrev pub attempts_before : Value → ℕ
attempts_before (num (nat n)) = n
attempts_before _ = 0

abbrev pub signal_or_rum : Option Value → Signal
signal_or_rum none = rum
signal_or_rum (some message) = or_else (signal_of (get "signal" message)) rum

unfoldable pub publish_dlq : Option Value → DlqReason → Publication
publish_dlq content reason = to_dlq (dlq_routing_key (signal_or_rum content)) reason

-- What the first `try` block finds wrong.
unfoldable pub payload_error : Option Value → (unsafe : Bool) → Option PayloadError
unfolding validate_durable_message
payload_error none unsafe = some json_invalid
payload_error (some message) unsafe = elim (validate_durable_message message) [
  | some why ↦ some why
  | none ↦ if unsafe then some unsafe_payload_detected else none
]

-- A publication, and what is done behind it once the broker has confirmed it.
abbrev pub confirmed :
    Publication → Bool → WorkerCounters → WorkerCounters → WorkerCounters × List Effect
confirmed p true before after = (after, publishes p ∷ acks ∷ [])
confirmed p false before after = (before, publishes p ∷ [])

abbrev pub deliver_first : ℕ → WorkerCounters × List Effect → WorkerCounters × List Effect
deliver_first attempt (w, effects) = (w, delivers attempt ∷ effects)

-- Behind the delivery of a message that passed.
unfoldable pub after_delivery :
    WorkerCounters
    → Option Value
    → Signal
    → ℕ
    → Bool
    → DeliveryResult
    → Bool
    → WorkerCounters × List Effect
unfolding publish_dlq
after_delivery w content signal attempt redelivered (accepted status) confirms = (
  record w {
    delivered = w.delivered + 1;
    duplicate_observed = if redelivered then w.duplicate_observed + 1 else w.duplicate_observed;
  },
  acks ∷ [],
)
after_delivery w content signal attempt redelivered (refused retryable status why) confirms =
    if retryable && ltb attempt max_delivery_attempts
    then confirmed (to_retry (retry_routing_key signal attempt) attempt why) confirms w
        (record w { retried = w.retried + 1 })
    else confirmed
        (publish_dlq content (if retryable then attempt_limit_exceeded else rejected why)) confirms
        w (record w { dead_lettered = w.dead_lettered + 1 })

unfoldable pub handle_message :
    WorkerCounters
    → AmqpMessage
    → (unsafe : Bool) → Request
    → (confirms : Bool) → WorkerCounters × List Effect
unfolding payload_error after_delivery
handle_message w m unsafe request confirms = elim (payload_error m.content unsafe) [
  | some why ↦ confirmed (publish_dlq m.content (permanent_payload_failure why)) confirms w w
  | none ↦
      let attempt = attempts_before (get "deliveryAttempt" (or_else m.content (str ""))) + 1 in
      deliver_first attempt (
        after_delivery w m.content (signal_or_rum m.content) attempt m.redelivered
          (deliver_to_openobserve request) confirms)
]
