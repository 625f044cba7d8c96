-- ===== src/RuntimeControl/Validation.antt =====
-- What the validation of a control document accepts (runtime-control/validate-document.js).
use frontend_observability.Base.{
  ℕ, ◌+◌, ◌≤◌, ◌<◌, String, ◌≡◌, ◌↔◌, ◌⊎◌, refl, Bool, true, false, Option, none, some, List, [],
  ◌∷◌, arith, All, includes, eq_iff, ap, ◌∙◌,
}
use frontend_observability.Base.Json.{
  Value, bool, num, nat, str, object, Fields, get, is_plain_object, field_names, any_not_included,
  has_unknown_key, utf16_length,
}
use frontend_observability.RuntimeControl.Registry.{
  kill_switch_reason_codes, control_top_level_keys, control_kill_switch_keys,
}
use frontend_observability.RuntimeControl.Document.{
  is_schema_version, is_non_negative_integer, is_iso_string, is_boolean, is_listed_text,
  validate_control_document_shape, validate_control_lifetime, document_of, text_of, number_of,
  flag_of,
}

abbrev pub IsOneOf : List String → String → Type 0
IsOneOf [] k = ⊥
IsOneOf (x ∷ xs) k = (x ≡ k) ⊎ IsOneOf xs k

pub includes_iff : (xs : List String) (k : String) → (includes xs k ≡ true) ↔ IsOneOf xs k
unfolding includes
includes_iff [] k = (λ h. cc, λ h. absurd h)
includes_iff (x ∷ xs) k = (
  λ h. ground (arith, eq_iff x k, (includes_iff xs k).0),
  λ h. ground (arith, eq_iff x k, (includes_iff xs k).1),
)

known_iff :
    (ks allowed : List String) → (any_not_included ks allowed ≡ false) ↔ All (IsOneOf allowed) ks
unfolding any_not_included
known_iff [] allowed = (λ h. tt, λ h. refl)
known_iff (k ∷ ks) allowed = (
  λ h. ((includes_iff allowed k).0 (ground arith), (known_iff ks allowed).0 (ground arith)),
  λ h. ground (arith, (includes_iff allowed k).1 h.0, (known_iff ks allowed).1 h.1),
)

-- A text of 1 to 64 code units.
abbrev pub IsShortText : Value → Type 0
IsShortText v = (s : String) × (v ≡ str s) × (0 < utf16_length s) × (utf16_length s ≤ 64)

-- The shape of a control document, stated field by field.
pub record IsControlShape (doc : Value) : Type 0 where
  pub fields : Fields
  pub is_object : doc ≡ object fields
  pub known : All (IsOneOf control_top_level_keys) (field_names fields)
  pub version : get "schemaVersion" doc ≡ num (nat 1)
  pub revision : ℕ
  pub is_revision : get "revision" doc ≡ num (nat revision)
  pub issued : IsShortText (get "issuedAt" doc)
  pub expires : IsShortText (get "expiresAt" doc)
  pub switch_fields : Fields
  pub is_switch : get "killSwitch" doc ≡ object switch_fields
  pub switch_known : All (IsOneOf control_kill_switch_keys) (field_names switch_fields)
  pub active : Bool
  pub is_active : get "active" (get "killSwitch" doc) ≡ bool active
  pub reason : String
  pub is_reason : get "reasonCode" (get "killSwitch" doc) ≡ str reason
  pub reason_listed : IsOneOf kill_switch_reason_codes reason

object_of : (v : Value) → is_plain_object v ≡ true → (fs : Fields) × (v ≡ object fs)
object_of (object fs) h = (fs, refl)
object_of _ h = cc

pub version_of : (v : Value) → is_schema_version v ≡ true → v ≡ num (nat 1)
version_of (num (nat n)) h = ground arith
version_of _ h = cc

pub natural_of : (v : Value) → is_non_negative_integer v ≡ true → (n : ℕ) × (v ≡ num (nat n))
natural_of (num (nat n)) h = (n, refl)
natural_of _ h = cc

short_of : (v : Value) → is_iso_string v ≡ true → IsShortText v
short_of (str s) h = (s, refl, ground arith, ground arith)
short_of _ h = cc

pub boolean_of : (v : Value) → is_boolean v ≡ true → (b : Bool) × (v ≡ bool b)
boolean_of (bool b) h = (b, refl)
boolean_of _ h = cc

pub listed_of :
    (xs : List String) (v : Value)
    → is_listed_text xs v ≡ true
    → (s : String) × (v ≡ str s) × IsOneOf xs s
listed_of xs (str s) h = (s, refl, (includes_iff xs s).0 h)
listed_of xs _ h = cc

-- The tests of the code, as facts.
pub record PassesTests (doc : Value) : Type 0 where
  pub object_ok : is_plain_object doc ≡ true
  pub keys_ok : has_unknown_key doc control_top_level_keys ≡ false
  pub version_ok : is_schema_version (get "schemaVersion" doc) ≡ true
  pub revision_ok : is_non_negative_integer (get "revision" doc) ≡ true
  pub issued_ok : is_iso_string (get "issuedAt" doc) ≡ true
  pub expires_ok : is_iso_string (get "expiresAt" doc) ≡ true
  pub switch_ok : is_plain_object (get "killSwitch" doc) ≡ true
  pub switch_keys_ok : has_unknown_key (get "killSwitch" doc) control_kill_switch_keys ≡ false
  pub active_ok : is_boolean (get "active" (get "killSwitch" doc)) ≡ true
  pub reason_ok :
      is_listed_text kill_switch_reason_codes (get "reasonCode" (get "killSwitch" doc)) ≡ true

pub shape-PassesTests :
    (doc : Value) → (validate_control_document_shape doc).valid ≡ true → PassesTests doc
unfolding validate_control_document_shape
shape-PassesTests doc h = ground arith

PassesTests-shape :
    (doc : Value) → PassesTests doc → (validate_control_document_shape doc).valid ≡ true
unfolding validate_control_document_shape
PassesTests-shape doc p = ground arith

known_of :
    (v : Value) (fs : Fields) (allowed : List String)
    → v ≡ object fs
    → has_unknown_key v allowed ≡ false
    → All (IsOneOf allowed) (field_names fs)
known_of v fs allowed e h = (known_iff (field_names fs) allowed).0 (ground arith)

unknown_of :
    (v : Value) (fs : Fields) (allowed : List String)
    → v ≡ object fs
    → All (IsOneOf allowed) (field_names fs)
    → has_unknown_key v allowed ≡ false
unknown_of v fs allowed e h = rw e ((known_iff (field_names fs) allowed).1 h)

IsControlShape-of : (doc : Value) → PassesTests doc → IsControlShape doc
IsControlShape-of doc p =
    let (fields, is_object) = object_of doc p.object_ok in
    let (revision, is_revision) = natural_of _ p.revision_ok in
    let (switch_fields, is_switch) = object_of _ p.switch_ok in
    let (active, is_active) = boolean_of _ p.active_ok in
    let (reason, is_reason, listed) = listed_of kill_switch_reason_codes _ p.reason_ok in
    record {
      fields = fields;
      is_object = is_object;
      known = known_of doc fields control_top_level_keys is_object p.keys_ok;
      version = version_of _ p.version_ok;
      revision = revision;
      is_revision = is_revision;
      issued = short_of _ p.issued_ok;
      expires = short_of _ p.expires_ok;
      switch_fields = switch_fields;
      is_switch = is_switch;
      switch_known = known_of _ switch_fields control_kill_switch_keys is_switch p.switch_keys_ok;
      active = active;
      is_active = is_active;
      reason = reason;
      is_reason = is_reason;
      reason_listed = listed;
    }

is_iso_string_of : (v : Value) → IsShortText v → is_iso_string v ≡ true
is_iso_string_of v (s, e, lo, hi) = rw e (ground arith)

IsControlShape-PassesTests : (doc : Value) → IsControlShape doc → PassesTests doc
IsControlShape-PassesTests doc c = record {
  object_ok = ap is_plain_object c.is_object;
  keys_ok = unknown_of doc c.fields control_top_level_keys c.is_object c.known;
  version_ok = ap is_schema_version c.version;
  revision_ok = ap is_non_negative_integer c.is_revision;
  issued_ok = is_iso_string_of _ c.issued;
  expires_ok = is_iso_string_of _ c.expires;
  switch_ok = ap is_plain_object c.is_switch;
  switch_keys_ok = unknown_of _ c.switch_fields control_kill_switch_keys c.is_switch c.switch_known;
  active_ok = ap is_boolean c.is_active;
  reason_ok =
      ap (is_listed_text kill_switch_reason_codes) c.is_reason
      ∙ (includes_iff kill_switch_reason_codes c.reason).1 c.reason_listed;
}

-- The shape test accepts exactly the objects with a control document's fields, of the right types
-- and in the closed vocabularies, and with no other field at either level.
pub validate_shape_iff :
    (doc : Value) → ((validate_control_document_shape doc).valid ≡ true) ↔ IsControlShape doc
validate_shape_iff doc = (
  λ h. IsControlShape-of doc (shape-PassesTests doc h),
  λ c. PassesTests-shape doc (IsControlShape-PassesTests doc c),
)

-- The document that the package keeps has the fields of an accepted value.
pub document_of-shape :
    (parse_date : String → Option ℕ) (doc : Value) (c : IsControlShape doc)
    → ((document_of parse_date doc).revision ≡ c.revision)
      × ((document_of parse_date doc).issued_at.text ≡ c.issued.0)
      × ((document_of parse_date doc).expires_at.text ≡ c.expires.0)
      × ((document_of parse_date doc).kill_switch.active ≡ c.active)
      × ((document_of parse_date doc).kill_switch.reason_code ≡ c.reason)
unfolding document_of
document_of-shape parse_date doc c = (
  ap number_of c.is_revision,
  ap text_of c.issued.1,
  ap text_of c.expires.1,
  ap flag_of c.is_active,
  ap text_of c.is_reason,
)

-- A lifetime is accepted exactly if both dates parse, the document expires after it was issued and
-- at most ten minutes later, it was issued at most a minute ahead of the clock, and it has not
-- expired.
pub validate_lifetime_iff :
    (issued expires : Option ℕ) (now : ℕ)
    → ((validate_control_lifetime issued expires now).valid ≡ true) ↔ (
        (i : ℕ) × (e : ℕ) × (issued ≡ some i)
        × (expires ≡ some e)
        × (i < e)
        × (e ≤ i + 600000)
        × (i ≤ now + 60000)
        × (now < e))
unfolding validate_control_lifetime
validate_lifetime_iff none expires now = (λ h. cc, λ h. absurd (ground arith))
validate_lifetime_iff (some i) none now = (λ h. cc, λ h. absurd (ground arith))
validate_lifetime_iff (some i) (some e) now = (
  λ h. (i, e, refl, refl, ground arith, ground arith, ground arith, ground arith),
  λ h. ground arith,
)
