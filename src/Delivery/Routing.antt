-- ===== src/Delivery/Routing.antt =====
-- packages/telemetry-delivery-core: the signals and routes of constants.js and rabbitmq.js, and how
-- openobserve.js classifies what became of a delivery.
use frontend_observability.Base.{
  ℕ, zero, suc, ◌-◌, String, Bool, true, false, ◌&&◌, ◌||◌, Option, none, some, List, [], ◌∷◌,
  str_eq, ◌==◌, ltb, leb, if◌then◌else◌, min, is_some,
}
use frontend_observability.Base.Json.{Value, str}
use frontend_observability.Base.Text.{Text}

pub data Signal : Type 0 where
  rum logs : Signal

-- The signal that a text names.
abbrev pub signal_of : Value → Option Signal
signal_of (str s) = if str_eq s "rum" then some rum else if str_eq s "logs" then some logs else none
signal_of _ = none

abbrev pub is_known_signal : Value → Bool
is_known_signal value = is_some (signal_of value)

abbrev pub max_delivery_attempts : ℕ
max_delivery_attempts = 16

abbrev pub retry_delays_ms : List ℕ
retry_delays_ms = 30000 ∷ 120000 ∷ 300000 ∷ []

-- `RETRY_ROUTING[signal][index]`
abbrev pub retry_routing : Signal → ℕ → String
retry_routing rum zero = "frontend.rum.retry.1"
retry_routing rum (suc zero) = "frontend.rum.retry.2"
retry_routing rum (suc (suc n)) = "frontend.rum.retry.3"
retry_routing logs zero = "frontend.log.retry.1"
retry_routing logs (suc zero) = "frontend.log.retry.2"
retry_routing logs (suc (suc n)) = "frontend.log.retry.3"

-- `Math.max(0, Math.min(RETRY_DELAYS_MS.length - 1, deliveryAttempt - 1))`
abbrev pub retry_index : ℕ → ℕ
retry_index delivery_attempt = min 2 (delivery_attempt - 1)

unfoldable pub retry_routing_key : Signal → ℕ → String
retry_routing_key signal delivery_attempt = retry_routing signal (retry_index delivery_attempt)

abbrev pub dlq_routing_key : Signal → String
dlq_routing_key rum = "frontend.rum.dlq"
dlq_routing_key logs = "frontend.log.dlq"

abbrev pub queue_routing_key : Signal → String
queue_routing_key rum = "frontend.rum"
queue_routing_key logs = "frontend.log"

pub data DeliveryReason : Type 0 where
  timeout connection_error transient_openobserve_failure : DeliveryReason
  permanent_openobserve_rejection : Text → DeliveryReason

pub data DeliveryResult : Type 0 where
  accepted : ℕ → DeliveryResult
  refused : (retryable : Bool) → (status : ℕ) → DeliveryReason → DeliveryResult

-- `text.slice(0, n)`
abbrev pub slice : ℕ → Text → Text
slice zero s = []
slice (suc n) [] = []
slice (suc n) (c ∷ s) = c ∷ slice n s

unfoldable pub classify_openobserve_response : ℕ → Text → DeliveryResult
classify_openobserve_response status body =
    if leb 200 status && ltb status 300
    then accepted status
    else if status == 408 || status == 429 || leb 500 status
    then refused true status transient_openobserve_failure
    else refused false status (permanent_openobserve_rejection (slice 80 body))

-- What the request to OpenObserve met.
pub data Request : Type 0 where
  answered : (status : ℕ) → (body : Text) → Request
  threw : (is_abort_error : Bool) → Request

unfoldable pub deliver_to_openobserve : Request → DeliveryResult
unfolding classify_openobserve_response
deliver_to_openobserve (answered status body) = classify_openobserve_response status body
deliver_to_openobserve (threw is_abort_error) =
    refused true 0 (if is_abort_error then timeout else connection_error)
