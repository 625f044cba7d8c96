-- ===== src/Delivery/Scoped.antt =====
-- Whose scope the events of a durable message carry, and what the worker makes of the message
-- (packages/telemetry-delivery-core/src/payload.js with apps/telemetry-delivery-worker/src/runtime.js).
use frontend_observability.Base.{String, false, Option, none, some, ◌≡◌, refl, sym, ap, ◌∙◌, subst}
use frontend_observability.Base.Json.{
  set_field, Value, undefined, null, bool, num, not_a_number, infinite, str, array, object, Fields,
  end, field, Elements, no_element, element, get,
}
use frontend_observability.Base.Text.{Text}
use frontend_observability.Base.Fields.{get_field-set_field, get_field-set_field_other}
use frontend_observability.Base.Try.{done, done_injective, bind-done}
use frontend_observability.Delivery.Routing.{Signal, rum, logs}
use frontend_observability.Delivery.Messages.{payload_error, attempts_before, signal_or_rum}
use frontend_observability.Delivery.Redaction.{sanitize_browser_batch}
use frontend_observability.Delivery.Payload.{
  safe_decode, TrustedScope, spread, scope_version, canonicalize_scope, canonicalize_all, Stamp,
  message_of, as_thrown, build_durable_message,
}

-- `JSON.parse(JSON.stringify(value))`
unfoldable mutual
  pub transported : Value → Value
  transported undefined = undefined
  transported null = null
  transported (bool b) = bool b
  transported (num not_a_number) = null
  transported (num (infinite s)) = null
  transported (num n) = num n
  transported (str s) = str s
  transported (array vs) = array (transported_elements vs)
  transported (object fs) = object (transported_fields fs)

  pub transported_elements : Elements → Elements
  transported_elements no_element = no_element
  transported_elements (element undefined vs) = element null (transported_elements vs)
  transported_elements (element v vs) = element (transported v) (transported_elements vs)

  pub transported_fields : Fields → Fields
  transported_fields end = end
  transported_fields (field k undefined fs) = transported_fields fs
  transported_fields (field k v fs) = field k (transported v) (transported_fields fs)

-- Of one event, and of each.
pub record CarriesScope (scope : TrustedScope) (event : Value) : Type 0 where
  pub service : get "service" event ≡ str scope.service
  pub environment : get "env" event ≡ str scope.environment
  pub version : (v : String) → scope.version ≡ some v → get "version" event ≡ str v

abbrev pub AllCarryScope : TrustedScope → Elements → Type 0
AllCarryScope scope no_element = Unit
AllCarryScope scope (element v vs) = CarriesScope scope v × AllCarryScope scope vs

-- A version that the scope has is the one that is set.
scope_version-some :
    (version : Option String) (event w : Value) (v : String)
    → scope_version version event ≡ done w
    → version ≡ some v
    → w ≡ str v
scope_version-some (some x) event w v h e = cc
scope_version-some none event w v h e = cc

canonicalize_scope-CarriesScope :
    (scope : TrustedScope) (event u : Value)
    → canonicalize_scope (some scope) event ≡ done u
    → CarriesScope scope u
unfolding canonicalize_scope
canonicalize_scope-CarriesScope scope event u h =
    let (w, versioned, e) = bind-done (scope_version scope.version event) h in
    let one = set_field "service" (str scope.service) (spread event) in
    let two = set_field "env" (str scope.environment) one in
    subst (CarriesScope scope) (done_injective refl e) (record {
      service =
          get_field-set_field_other "service" "version" w two refl
          ∙ get_field-set_field_other "service" "env" (str scope.environment) one refl
          ∙ get_field-set_field "service" (str scope.service) (spread event);
      environment =
          get_field-set_field_other "env" "version" w two refl
          ∙ get_field-set_field "env" (str scope.environment) one;
      version = λ v known.
          get_field-set_field "version" w two
          ∙ scope_version-some scope.version event w v versioned known;
    })

canonicalize_all-AllCarryScope :
    (scope : TrustedScope) (vs us : Elements)
    → canonicalize_all (some scope) vs ≡ done us
    → AllCarryScope scope us
unfolding canonicalize_all
canonicalize_all-AllCarryScope scope no_element us h =
    subst (AllCarryScope scope) (done_injective refl h) tt
canonicalize_all-AllCarryScope scope (element v vs) us h =
    let (u, one, h') = bind-done (canonicalize_scope (some scope) v) h in
    let (us', behind, e) = bind-done (canonicalize_all (some scope) vs) h' in
    subst (AllCarryScope scope) {x = element u us'} (done_injective refl e) (
      canonicalize_scope-CarriesScope scope v u one,
      canonicalize_all-AllCarryScope scope vs us' behind,
    )

-- What a message that was built is made of.
build_durable_message-parts :
    (url_without_query : String → Option String) (json_parse : Text → Option Value)
    (signal : Signal) (raw_body : Text) (stamp : Stamp) (scope : Option TrustedScope) (m : Value)
    → build_durable_message url_without_query json_parse signal raw_body stamp scope ≡ done m
    → (clean : Elements) × (payload : Elements) × (canonicalize_all scope clean ≡ done payload)
      × (message_of signal stamp payload ≡ m)
unfolding build_durable_message
build_durable_message-parts url_without_query json_parse signal raw_body stamp scope m h =
    let (decoded, read, h') = bind-done (safe_decode json_parse raw_body) h in
    let (clean, sanitized, h'') =
      bind-done (as_thrown (sanitize_browser_batch url_without_query decoded signal)) h' in
    let (payload, scoped, e) =
      bind-done (canonicalize_all scope clean) {f = λ p. done (message_of signal stamp p)} h'' in
    (clean, payload, scoped, done_injective refl e)

-- Written and read again, the message is valid, its signal is this one, and its attempts count 0.
abbrev pub Passes : Signal → Value → Type 0
Passes signal m =
    (payload_error (some (transported m)) false ≡ none)
    × (signal_or_rum (some (transported m)) ≡ signal)
    × (attempts_before (get "deliveryAttempt" (transported m)) ≡ 0)

message_of-Passes :
    (signal : Signal) (stamp : Stamp) (payload : Elements)
    → Passes signal (message_of signal stamp payload)
unfolding payload_error transported
message_of-Passes rum stamp payload = (refl, refl, refl)
message_of-Passes logs stamp payload = (refl, refl, refl)

module _ (url_without_query : String → Option String) (json_parse : Text → Option Value) where
  -- Whatever a client sends: in a durable message that is built under a trusted scope, every event of the
  -- payload carries that scope's service and environment, and its version where the scope has one,
  -- whatever the client wrote in those fields.
  pub build_durable_message-AllCarryScope :
      (signal : Signal) (raw_body : Text) (stamp : Stamp) (scope : TrustedScope) (m : Value)
      → build_durable_message url_without_query json_parse signal raw_body stamp (some scope)
        ≡ done m
      → (payload : Elements) × (get "payload" m ≡ array payload) × AllCarryScope scope payload
  build_durable_message-AllCarryScope signal raw_body stamp scope m h =
      let (clean, payload, scoped, e) =
        build_durable_message-parts url_without_query json_parse signal raw_body stamp (some scope)
          m h in
      (
        payload,
        ap (get "payload") (sym e),
        canonicalize_all-AllCarryScope scope clean payload scoped,
      )

  -- A durable message that the ingest builds, written and read again as JSON, is one that the worker's
  -- validation lets pass: unless its text is found unsafe nothing is wrong with it, its signal is the one
  -- it was admitted for, and no attempt to deliver it counts as made.
  pub build_durable_message-Passes :
      (signal : Signal) (raw_body : Text) (stamp : Stamp) (scope : Option TrustedScope) (m : Value)
      → build_durable_message url_without_query json_parse signal raw_body stamp scope ≡ done m
      → Passes signal m
  build_durable_message-Passes signal raw_body stamp scope m h =
      let (clean, payload, scoped, e) =
        build_durable_message-parts url_without_query json_parse signal raw_body stamp scope m h in
      subst (Passes signal) e (message_of-Passes signal stamp payload)
