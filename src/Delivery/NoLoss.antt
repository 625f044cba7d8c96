-- ===== src/Delivery/NoLoss.antt =====
-- No message is lost or counted twice by the worker's handler
-- (apps/telemetry-delivery-worker/src/runtime.js).
use frontend_observability.Base.{
  ℕ, suc, ◌≡◌, inl, inr, refl, Bool, true, false, not, ◌&&◌, Option, List, [], ◌∷◌, is_some,
  if◌then◌else◌, ltb, Option-cases, Bool-cases,
}
use frontend_observability.Base.Json.{Value}
use frontend_observability.Delivery.Routing.{
  Signal, DeliveryResult, accepted, refused, max_delivery_attempts, Request, deliver_to_openobserve,
}
use frontend_observability.Delivery.Messages.{
  WorkerCounters, AmqpMessage, Effect, delivers, publishes, acks, Publication, payload_error,
  after_delivery, handle_message, confirmed,
}

abbrev pub ack_count : List Effect → ℕ
ack_count [] = 0
ack_count (acks ∷ es) = suc (ack_count es)
ack_count (delivers n ∷ es) = ack_count es
ack_count (publishes p ∷ es) = ack_count es

abbrev pub published : List Effect → List Publication
published [] = []
published (acks ∷ es) = published es
published (delivers n ∷ es) = published es
published (publishes p ∷ es) = p ∷ published es

abbrev pub is_accepted : DeliveryResult → Bool
is_accepted (accepted status) = true
is_accepted (refused retryable status why) = false

-- The message passed, and OpenObserve took it.
abbrev pub is_taken : AmqpMessage → Bool → Request → Bool
is_taken m unsafe request =
    not (is_some (payload_error m.content unsafe)) && is_accepted (deliver_to_openobserve request)

-- The effects of a handler that settles a message: taken with no publication, or published once and
-- acked if and only if that was confirmed.
abbrev pub Settles : Bool → Bool → List Effect → Type 0
Settles true confirms es = (published es ≡ []) × (ack_count es ≡ 1)
Settles false confirms es =
    ((p : Publication) × (published es ≡ p ∷ [])) × (ack_count es ≡ (if confirms then 1 else 0))

confirmed-Settles :
    (p : Publication) (confirms : Bool) (before after : WorkerCounters)
    → Settles false confirms (confirmed p confirms before after).1
confirmed-Settles p true before after = ((p, refl), refl)
confirmed-Settles p false before after = ((p, refl), refl)

after_delivery-Settles :
    (w : WorkerCounters) (content : Option Value) (signal : Signal) (attempt : ℕ)
    (redelivered : Bool) (r : DeliveryResult) (confirms : Bool)
    → Settles
        (is_accepted r)
        confirms
        (after_delivery w content signal attempt redelivered r confirms).1
unfolding after_delivery
after_delivery-Settles w content signal attempt redelivered (accepted status) confirms =
    (refl, refl)
after_delivery-Settles w content signal attempt redelivered (refused retryable status why)
      confirms =
    elim (Bool-cases (retryable && ltb attempt max_delivery_attempts)) [
      | inl again ↦ rw again (confirmed-Settles _ confirms w _)
      | inr over ↦ rw over (confirmed-Settles _ confirms w _)
    ]

delivers-Settles :
    (taken confirms : Bool) (attempt : ℕ) (es : List Effect)
    → Settles taken confirms es
    → Settles taken confirms (delivers attempt ∷ es)
delivers-Settles true confirms attempt es h = h
delivers-Settles false confirms attempt es h = h

-- Whatever a message holds and whatever its delivery meets, the handler acknowledges it at most once,
-- and exactly if OpenObserve took it or the broker confirmed its one publication to a retry or
-- dead-letter queue; a message that was taken is published nowhere, and any other exactly once.
pub handle_message-Settles :
    (w : WorkerCounters) (m : AmqpMessage) (unsafe : Bool) (request : Request) (confirms : Bool)
    → Settles (is_taken m unsafe request) confirms (handle_message w m unsafe request confirms).1
unfolding handle_message
handle_message-Settles w m unsafe request confirms =
    elim (Option-cases (payload_error m.content unsafe)) [
      | inl fine ↦
          rw (fine, handle_message)
            (delivers-Settles _ confirms _ _ (
              after_delivery-Settles w m.content _ _ m.redelivered (deliver_to_openobserve request)
                confirms))
      | inr (why, bad) ↦ rw (bad, handle_message) (confirmed-Settles _ confirms w w)
    ]
