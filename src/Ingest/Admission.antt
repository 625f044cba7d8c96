-- ===== src/Ingest/Admission.antt =====
-- apps/telemetry-ingest/src/server.js and validateAdmissionRequest of
-- packages/telemetry-delivery-core/src/payload.js: a request from its body to its answer.
--
-- A request carries what `new URL` makes of its path and what its headers are. What the guard's request
-- and the broker's confirmation come to, and what buildDurableMessage makes of the body, are arguments.
use Prim.Native.Char.{code}
use frontend_observability.Base.{
  ℕ, String, Bool, true, false, not, ◌&&◌, ◌||◌, Option, none, some, [], ◌∷◌, ltb, leb, ◌==◌,
  if◌then◌else◌, length, str_eq, is_some,
}
use frontend_observability.Base.Text.{Text, is_space, to_lower}
use frontend_observability.Delivery.Routing.{Signal}
use frontend_observability.Ingest.Guard.{Refusal}

pub data Code : Type 0 where
  route_not_allowed method_not_allowed payload_too_large unsupported_content_type : Code
  trusted_scope_required rabbitmq_unavailable : Code
  payload_refused : String → Code
  publisher_confirm_timeout publisher_confirm_nack publisher_confirm_failed : Code
  admission_unavailable : Code
  control_refused : Refusal → Code

pub record AdmissionError : Type 0 where
  pub status_code : ℕ
  pub code : Code

abbrev pub refuse : ℕ → Code → AdmissionError
refuse status_code code = record { status_code = status_code; code = code }

abbrev pub drop_spaces : Text → Text
drop_spaces [] = []
drop_spaces (c ∷ s) = if is_space c then drop_spaces s else c ∷ s

-- What follows the prefix, if the text begins with it.
abbrev pub drop_prefix : Text → Text → Option Text
drop_prefix [] s = some s
drop_prefix (p ∷ ps) [] = none
drop_prefix (p ∷ ps) (c ∷ s) = if p == c then drop_prefix ps s else none

-- "text/plain", "charset" and "utf-8"
abbrev pub text_plain : Text
text_plain = 116 ∷ 101 ∷ 120 ∷ 116 ∷ 47 ∷ 112 ∷ 108 ∷ 97 ∷ 105 ∷ 110 ∷ []

abbrev pub charset : Text
charset = 99 ∷ 104 ∷ 97 ∷ 114 ∷ 115 ∷ 101 ∷ 116 ∷ []

abbrev pub utf_8 : Text
utf_8 = 117 ∷ 116 ∷ 102 ∷ 45 ∷ 56 ∷ []

abbrev pub then_drop : Text → Option Text → Option Text
then_drop p none = none
then_drop p (some s) = drop_prefix p (drop_spaces s)

abbrev pub is_empty_rest : Option Text → Bool
is_empty_rest (some []) = true
is_empty_rest _ = false

-- /^text\/plain(?:\s*;\s*charset\s*=\s*utf-8)?$/i
unfoldable pub is_plain_content_type : Text → Bool
is_plain_content_type header =
    let rest = drop_prefix text_plain (to_lower header) in
    is_empty_rest rest
    || is_empty_rest
        (then_drop utf_8 (then_drop (b'=' ∷ []) (then_drop charset (then_drop (b';' ∷ []) rest))))

abbrev pub is_alphanumeric : ℕ → Bool
is_alphanumeric c = (leb 48 c && leb c 57) || (leb 65 c && leb c 90) || (leb 97 c && leb c 122)

abbrev pub all_scope_units : Text → Bool
all_scope_units [] = true
all_scope_units (c ∷ s) =
    (is_alphanumeric c || c == b'.' || c == b'_' || c == b'-') && all_scope_units s

-- /^[a-z0-9][a-z0-9._-]{0,79}$/i
abbrev pub is_scope_text : Text → Bool
is_scope_text [] = false
is_scope_text (c ∷ s) = is_alphanumeric c && all_scope_units s && leb (length s) 79

unfoldable pub bounded_scope : Option Text → Option Text
bounded_scope none = none
bounded_scope (some text) = if is_scope_text text then some text else none

pub record Scope : Type 0 where
  pub service : Text
  pub environment : Text
  pub version : Option Text

unfoldable pub trusted_scope : Option Text → Option Text → Option Text → Option Scope
unfolding bounded_scope
trusted_scope service environment version = elim (bounded_scope service) [
  | none ↦ none
  | some s ↦ elim (bounded_scope environment) [
    | none ↦ none
    | some e ↦ some (record { service = s; environment = e; version = bounded_scope version })
  ]
]

pub record Request : Type 0 where
  pub url : String
  -- The signal of the path in ROUTES, and whether there is a query.
  pub route : Option Signal
  pub has_search : Bool
  pub method : String
  -- The bytes of the body.
  pub size : ℕ
  pub content_type : Text
  pub service : Option Text
  pub environment : Option Text
  pub version : Option Text

pub record Server : Type 0 where
  pub ready : Bool
  pub blocked : Bool
  pub has_channel : Bool
  pub max_rum_bytes : ℕ
  pub max_log_bytes : ℕ

-- `text.startsWith(prefix)`
abbrev pub starts_with : String → String → Bool
starts_with String.[] text = true
starts_with (String.◌∷◌ c p) String.[] = false
starts_with (String.◌∷◌ c p) (String.◌∷◌ d text) = code c == code d && starts_with p text

unfoldable pub max_bytes_for_url : Server → Request → ℕ
max_bytes_for_url s r =
    if starts_with "/rum/v1/default/logs" r.url then s.max_log_bytes else s.max_rum_bytes

unfoldable pub admission_error : Request → ℕ → Option AdmissionError
unfolding is_plain_content_type
admission_error r max_bytes =
    if not (is_some r.route) || r.has_search
    then some (refuse 404 route_not_allowed)
    else if not (str_eq r.method "POST")
    then some (refuse 405 method_not_allowed)
    else if ltb max_bytes r.size
    then some (refuse 413 payload_too_large)
    else if not (is_plain_content_type r.content_type)
    then some (refuse 415 unsupported_content_type)
    else none

-- What publishConfirmed comes to.
pub data Confirmation : Type 0 where
  confirms nacked timed_out threw : Confirmation

abbrev pub confirmation_error : Confirmation → Option AdmissionError
confirmation_error confirms = none
confirmation_error nacked = some (refuse 503 publisher_confirm_nack)
confirmation_error timed_out = some (refuse 503 publisher_confirm_timeout)
confirmation_error threw = some (refuse 503 publisher_confirm_failed)

-- The answer, and whether a message was handed to the broker.
pub data Answer : Type 0 where
  healthy : (status : ℕ) → Answer
  accepts : Scope → Answer
  refuses : AdmissionError → (published : Bool) → Answer

-- Behind the admission test and the scope: the guard, the message and its publication. If the message
-- cannot be built, `builds` is the code of the error.
unfoldable pub publish_admitted :
    Scope → Option Refusal → (builds : Option String) → Confirmation → Answer
publish_admitted scope (some refusal) builds c =
    refuses (refuse 503 (control_refused refusal)) false
publish_admitted scope none (some code) c = refuses (refuse 400 (payload_refused code)) false
publish_admitted scope none none c = elim (confirmation_error c) [
  | none ↦ accepts scope
  | some e ↦ refuses e true
]

abbrev pub is_health : Request → Bool
is_health r =
    (str_eq r.url "/health" || str_eq r.url "/healthz" || str_eq r.url "/readyz")
    && str_eq r.method "GET"

-- Behind readBody.
unfoldable pub admit : Server → Request → Option Refusal → Option String → Confirmation → Answer
unfolding admission_error trusted_scope publish_admitted
admit s r guard builds c = elim (admission_error r (max_bytes_for_url s r)) [
  | some e ↦ refuses e false
  | none ↦ elim (trusted_scope r.service r.environment r.version) [
    | none ↦ refuses (refuse 403 trusted_scope_required) false
    | some scope ↦
        if not s.ready || s.blocked || not s.has_channel
        then refuses (refuse 503 rabbitmq_unavailable) false
        else publish_admitted scope guard builds c
  ]
]

unfoldable pub handle_request :
    Server → Request → Option Refusal → Option String → Confirmation → Answer
unfolding admit
handle_request s r guard builds c =
    if is_health r
    then healthy (if s.ready then 200 else 503)
    else if ltb (max_bytes_for_url s r) r.size
    then refuses (refuse 413 payload_too_large) false
    else admit s r guard builds c
