-- ===== src/Delivery/Fate.antt =====
-- The journey of a message through the main queue and the retry queues, from one delivery to the next
-- (apps/telemetry-delivery-worker/src/runtime.js; the retry queues' expired messages return to the main
-- queue by the topology of packages/telemetry-delivery-core/src/rabbitmq.js).
use frontend_observability.Base.{
  String, str_eq, some, none, ap, ◌∙◌, ℕ, zero, suc, ◌+◌, ◌≤◌, ◌<◌, ◌≡◌, inl, inr, refl, true,
  false, List, [], ◌∷◌, arith, ◌==◌, ltb, Bool-cases,
}
use frontend_observability.Base.Json.{object, num, nat, str, Fields, get_field, set_field}
use frontend_observability.Base.Fields.{get_field-set_field, get_field-set_field_other}
use frontend_observability.Delivery.Routing.{
  DeliveryReason, DeliveryResult, accepted, refused, Request, deliver_to_openobserve,
}
use frontend_observability.Delivery.Messages.{
  WorkerCounters, Effect, delivers, publishes, acks, to_retry, to_dlq, DlqReason,
  attempt_limit_exceeded, rejected, after_delivery, AmqpMessage, attempts_before, payload_error,
  validate_durable_message, handle_message, signal_or_rum, publish_dlq,
}

-- What becomes of a message in the end, with the number of its last delivery.
pub data Fate : Type 0 where
  delivered_at : ℕ → Fate
  dead_lettered_after : ℕ → DlqReason → Fate
  on_the_way : Fate

-- The fate that the handler's effects leave, given the fate behind a retry that carries an attempt.
abbrev pub fate_of : ℕ → List Effect → (ℕ → DeliveryReason → Fate) → Fate
fate_of attempt [] retried = on_the_way
fate_of attempt (acks ∷ es) retried = delivered_at attempt
fate_of attempt (delivers n ∷ es) retried = fate_of n es retried
fate_of attempt (publishes (to_retry key n why) ∷ es) retried = retried n why
fate_of attempt (publishes (to_dlq key why) ∷ es) retried = dead_lettered_after attempt why

abbrev no_counts : WorkerCounters
no_counts = record { delivered = 0; retried = 0; dead_lettered = 0; duplicate_observed = 0 }

-- The message with these fields, as the broker delivers it.
abbrev pub delivery_of : Fields → AmqpMessage
delivery_of fs = record { content = some (object fs); redelivered = false }

abbrev pub carried_attempt : Fields → ℕ
carried_attempt fs = attempts_before (get_field "deliveryAttempt" fs)

-- The text of a reason, and what the request of the delivery with each number meets.
module _ (reason_text : DeliveryReason → String) (requests : ℕ → Request) where
  -- The result of the delivery with this number.
  abbrev pub result_at : ℕ → DeliveryResult
  result_at attempt = deliver_to_openobserve (requests attempt)

  -- What publishRetry publishes.
  abbrev pub retry_fields : ℕ → DeliveryReason → Fields → Fields
  retry_fields attempt why fs =
      set_field "lastDeliveryError" (str (reason_text why))
        (set_field "deliveryAttempt" (num (nat attempt)) fs)

  -- The journey of the message with these fields, as far as `fuel` further deliveries: each is handled,
  -- with a safe payload and every publication confirmed, and a retry is the message that comes next.
  unfoldable pub journey : (fuel : ℕ) → Fields → Fate
  unfolding handle_message
  journey zero fs = on_the_way
  journey (suc fuel) fs =
      let effects =
        (handle_message no_counts (delivery_of fs) false (requests (carried_attempt fs + 1))
          true).1 in
      fate_of 0 effects (λ carried why. journey fuel (retry_fields carried why fs))

  abbrev pub IsTransient : ℕ → Type 0
  IsTransient n = (status : ℕ) × (why : DeliveryReason) × (result_at n ≡ refused true status why)

  -- How a delivery with this number can be the last.
  pub data EndsAt (n : ℕ) : Fate → Type 0 where
    takes : (status : ℕ) → result_at n ≡ accepted status → EndsAt n (delivered_at n)
    rejects :
        (status : ℕ) (why : DeliveryReason)
        → result_at n ≡ refused false status why
        → EndsAt n (dead_lettered_after n (rejected why))
    gives_up : n ≡ 16 → IsTransient n → EndsAt n (dead_lettered_after n attempt_limit_exceeded)

  -- The journey behind `before` deliveries ends, at a delivery up to which all failed for a while.
  abbrev pub Concludes : ℕ → Fate → Type 0
  Concludes before fate =
      (n : ℕ) × (before < n)
      × (n ≤ 16)
      × ((k : ℕ) → before < k → k < n → IsTransient k)
      × EndsAt n fate

  ends_here :
      (before : ℕ) (fate : Fate) → before < 16 → EndsAt (suc before) fate → Concludes before fate
  ends_here before fate h e =
      (suc before, omega arith, omega arith, (λ k lo hi. absurd (omega arith)), e)

  ends_later :
      (before : ℕ) (fate : Fate)
      → IsTransient (suc before)
      → Concludes (suc before) fate
      → Concludes before fate
  ends_later before fate t (n, lo, hi, between, e) =
      (n, omega arith, hi, (λ k a b. earlier k a b), e)
    where
      earlier : (k : ℕ) → before < k → k < n → IsTransient k
      earlier k a b = elim (Bool-cases (k == suc before)) [
        | inl same ↦ let at : k ≡ suc before = ground arith in rw at t
        | inr other ↦ between k (ground arith) b
      ]

  -- A message that passes validation, with its attempt.
  pub record Carries (before : ℕ) (fs : Fields) : Type 0 where
    pub passes : payload_error (some (object fs)) false ≡ none
    pub carried : carried_attempt fs ≡ before

  payload_error-fields :
      (fs gs : Fields)
      → get_field "signal" gs ≡ get_field "signal" fs
      → get_field "eventId" gs ≡ get_field "eventId" fs
      → get_field "batchId" gs ≡ get_field "batchId" fs
      → get_field "payload" gs ≡ get_field "payload" fs
      → payload_error (some (object gs)) false ≡ payload_error (some (object fs)) false
  unfolding payload_error validate_durable_message
  payload_error-fields fs gs a b c d = rw (payload_error, validate_durable_message, a, b, c, d) refl

  other_field :
      (k : String) (attempt : ℕ) (why : DeliveryReason) (fs : Fields)
      → str_eq "deliveryAttempt" k ≡ false
      → str_eq "lastDeliveryError" k ≡ false
      → get_field k (retry_fields attempt why fs) ≡ get_field k fs
  other_field k attempt why fs a b =
      get_field-set_field_other k "lastDeliveryError" _ _ b
      ∙ get_field-set_field_other k "deliveryAttempt" _ fs a

  retry_fields-Carries :
      (before attempt : ℕ) (why : DeliveryReason) (fs : Fields)
      → Carries before fs
      → Carries attempt (retry_fields attempt why fs)
  retry_fields-Carries before attempt why fs v = record {
    passes =
        payload_error-fields fs _ (other_field "signal" attempt why fs refl refl)
          (other_field "eventId" attempt why fs refl refl)
          (other_field "batchId" attempt why fs refl refl)
          (other_field "payload" attempt why fs refl refl)
        ∙ v.passes;
    carried = ap attempts_before (
        get_field-set_field_other "deliveryAttempt" "lastDeliveryError" (str (reason_text why))
          (set_field "deliveryAttempt" (num (nat attempt)) fs) refl
        ∙ get_field-set_field "deliveryAttempt" (num (nat attempt)) fs);
  }

  plus_one : (n : ℕ) → n + 1 ≡ suc n
  plus_one n = omega arith

  -- What the handler does with a message that passes.
  handled :
      (before : ℕ) (fs : Fields) (r : DeliveryResult)
      → Carries before fs
      → result_at (suc before) ≡ r
      → (handle_message no_counts (delivery_of fs) false (requests (carried_attempt fs + 1)) true).1
        ≡ delivers (suc before)
          ∷ (after_delivery no_counts
              (some (object fs))
              (signal_or_rum (some (object fs)))
              (suc before)
              false
              r
              true).1
  unfolding handle_message
  handled before fs r v e = rw (v.passes, handle_message) (rw (v.carried, plus_one before, e) refl)

  journey_step :
      (fuel before : ℕ) (fs : Fields) (r : DeliveryResult)
      → before + suc fuel ≡ 16
      → Carries before fs
      → result_at (suc before) ≡ r
      → ((why : DeliveryReason)
          → ltb (suc before) 16 ≡ true
          → Concludes (suc before) (journey fuel (retry_fields (suc before) why fs)))
      → Concludes before (journey (suc fuel) fs)
  unfolding journey after_delivery publish_dlq
  journey_step fuel before fs (accepted status) h v e later =
      rw (handled before fs (accepted status) v e)
        (ends_here before _ (omega arith) (takes status e))
  journey_step fuel before fs (refused false status why) h v e later =
      rw (handled before fs (refused false status why) v e)
        (ends_here before _ (omega arith) (rejects status why e))
  journey_step fuel before fs (refused true status why) h v e later =
      elim (Bool-cases (ltb (suc before) 16)) [
        | inl again ↦
            rw (handled before fs (refused true status why) v e, again)
              (ends_later before _ (status, why, e) (later why again))
        | inr over ↦
            rw (handled before fs (refused true status why) v e, over)
              (ends_here before _ (omega arith) (gives_up (ground arith) (status, why, e)))
      ]

  journey-Concludes :
      (fuel before : ℕ) (fs : Fields)
      → before + suc fuel ≡ 16
      → Carries before fs
      → Concludes before (journey (suc fuel) fs)
  journey-Concludes zero before fs h v =
      journey_step zero before fs (result_at (suc before)) h v refl
        (λ why again. absurd (ground arith))
  journey-Concludes (suc fuel) before fs h v =
      journey_step (suc fuel) before fs (result_at (suc before)) h v refl (λ why again.
        journey-Concludes fuel (suc before) (retry_fields (suc before) why fs) (omega arith)
          (retry_fields-Carries before (suc before) why fs v))

  -- Whatever its deliveries meet, a message that passes validation, carries no attempt yet and is
  -- handled again as each retry publishes it comes to an end within sixteen deliveries, its publications
  -- being confirmed and its payload safe: at the first that OpenObserve accepts it is delivered, at the
  -- first that it refuses for good it is dead-lettered, and if sixteen fail for a while it is
  -- dead-lettered as having reached the limit.
  pub journey_ends :
      (fs : Fields)
      → payload_error (some (object fs)) false ≡ none
      → carried_attempt fs ≡ 0
      → Concludes 0 (journey 16 fs)
  journey_ends fs passes fresh =
      journey-Concludes 15 0 fs refl (record { passes = passes; carried = fresh })
