-- ===== src/Sanitization/Results.antt =====
-- sanitization/diagnostics/results.js and limits/limits.js: what a sanitizer returns, and sizes.
use Prim.Native.Char.{code}
use frontend_observability.Base.{
  ℕ, ◌+◌, String, Bool, true, false, ◌||◌, List, [], ◌∷◌, ◌++◌, ltb, if◌then◌else◌, includes,
}
use frontend_observability.Base.Json.{Value, undefined, utf16_length, slice_units}
use frontend_observability.Sdk.Counters.{Decision, accept, redact, drop}

-- A result of any of the sanitizers; a drop has no value.
pub record Result : Type 0 where
  pub decision : Decision
  pub value : Value
  pub reasons : List String

abbrev pub accepted : Value → Result
accepted v = record { decision = accept; value = v; reasons = [] }

abbrev pub redacted : Value → List String → Result
redacted v reasons = record { decision = redact; value = v; reasons = reasons }

abbrev pub dropped : String → Result
dropped reason = record { decision = drop; value = undefined; reasons = reason ∷ [] }

abbrev pub is_drop_decision : Decision → Bool
is_drop_decision drop = true
is_drop_decision _ = false

abbrev pub is_redact_decision : Decision → Bool
is_redact_decision redact = true
is_redact_decision _ = false

abbrev pub is_drop : Result → Bool
is_drop r = is_drop_decision r.decision

abbrev pub any_drop : List Result → Bool
any_drop [] = false
any_drop (r ∷ rs) = is_drop r || any_drop rs

abbrev pub any_redact : List Result → Bool
any_redact [] = false
any_redact (r ∷ rs) = is_redact_decision r.decision || any_redact rs

unfoldable pub merge_decision : List Result → Decision
merge_decision results =
    if any_drop results then drop else if any_redact results then redact else accept

-- `[...new Set(items)]`, with what is there already.
abbrev pub join_unique : List String → List String → List String
join_unique seen [] = seen
join_unique seen (x ∷ xs) = join_unique (if includes seen x then seen else seen ++ x ∷ []) xs

abbrev pub unique : List String → List String
unique items = join_unique [] items

abbrev pub all_reasons : List Result → List String
all_reasons [] = []
all_reasons (r ∷ rs) = r.reasons ++ all_reasons rs

unfoldable pub unique_reasons : List Result → List String
unique_reasons results = unique (all_reasons results)

abbrev pub is_nil {ℓ} : {A : Type ℓ} → List A → Bool
is_nil [] = true
is_nil (x ∷ xs) = false

-- `reasons.length > 0 ? redact(value, reasons) : accept(value)`
abbrev pub redact_or_accept : Value → List String → Result
redact_or_accept v [] = accepted v
redact_or_accept v (r ∷ rs) = redacted v (r ∷ rs)

abbrev pub utf8_width : ℕ → ℕ
utf8_width c = if ltb c 128 then 1 else if ltb c 2048 then 2 else if ltb c 65536 then 3 else 4

-- `new TextEncoder().encode(text).byteLength`
abbrev pub byte_length : String → ℕ
byte_length String.[] = 0
byte_length (String.◌∷◌ c s) = utf8_width (code c) + byte_length s

unfoldable pub truncate_by_chars : String → ℕ → String
truncate_by_chars text max_length =
    if ltb max_length (utf16_length text) then slice_units max_length text else text
