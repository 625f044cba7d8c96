-- ===== src/Delivery/Clean.antt =====
-- Clean values: what the sanitization of a batch lets through (redaction.js), and that the identities a
-- rum event is given keep it clean.
use frontend_observability.Base.{
  ℕ, zero, suc, ◌+◌, ◌≤◌, String, Bool, true, false, not, ◌&&◌, List, [], ◌∷◌, ◌++◌, ◌≡◌, refl, sym,
  str_eq, ltb, includes, length, in_both, in_either, and-eq-true_iff, subst, arith,
}
use frontend_observability.Base.Json.{
  is_string, is_finite, set_field, slice_units, Value, undefined, null, bool, num, str, array,
  object, Fields, end, field, Elements, no_element, element, get, get_field, field_names, items,
}
use frontend_observability.Base.Regex.{search_from, ends, many_from}
use frontend_observability.Base.Try.{done, guard-done}
use frontend_observability.Delivery.Patterns.{
  has_secret, should_drop_key, should_reject_key, is_safe_key, safe_key_pattern,
  unsafe_field_pattern, secret_key_pattern,
}
use frontend_observability.Delivery.Redaction.{
  payload_too_deep, Sanitizing, max_depth, max_array_items, max_object_keys, max_string_length,
  adopt, normalize_rum_identity_fields, Context, below, is_root, redact, within_depth,
}

pub ltb_le : (a b : ℕ) → ltb a b ≡ false → b ≤ a
ltb_le a b h = ground arith

-- Of an event itself, which may be given the four identities.
abbrev pub most_keys : ℕ → ℕ
most_keys zero = max_object_keys + 4
most_keys (suc d) = max_object_keys

abbrev pub IsRedacted : String → Type 0
IsRedacted t =
    (stripped : String) × (has_secret stripped ≡ false)
    × (t ≡ redact (slice_units max_string_length stripped))

abbrev pub IsCleanKey : String → Type 0
IsCleanKey k = (is_safe_key k ≡ true) × (should_reject_key k ≡ false) × (should_drop_key k ≡ false)

unfoldable mutual
  -- At that depth.
  pub IsClean : ℕ → Value → Type 0
  IsClean d undefined = ⊥
  IsClean d null = d ≤ max_depth
  IsClean d (bool b) = d ≤ max_depth
  IsClean d (num n) = (d ≤ max_depth) × (is_finite n ≡ true)
  IsClean d (str t) = (d ≤ max_depth) × IsRedacted t
  IsClean d (array vs) =
      (d ≤ max_depth) × (length (items vs) ≤ max_array_items) × AreClean (suc d) vs
  IsClean d (object fs) =
      (d ≤ max_depth) × (length (field_names fs) ≤ most_keys d) × HasCleanFields (suc d) fs

  pub AreClean : ℕ → Elements → Type 0
  AreClean d no_element = Unit
  AreClean d (element v vs) = IsClean d v × AreClean d vs

  pub HasCleanFields : ℕ → Fields → Type 0
  HasCleanFields d end = Unit
  HasCleanFields d (field k v fs) = IsCleanKey k × IsClean d v × HasCleanFields d fs

-- A context whose path is empty stands at the depth 0.
abbrev pub StartsAtRoot : Context → Type 0
StartsAtRoot c = is_root c.path ≡ true → c.depth ≡ 0

not_root : (p : List String) (k : String) → is_root (p ++ k ∷ []) ≡ false
not_root [] k = refl
not_root (x ∷ p) k = refl

pub below-StartsAtRoot : (c : Context) (k : String) → StartsAtRoot (below c k)
below-StartsAtRoot c k h = absurd (by (not_root c.path k) h)
  where
    by : {b : Bool} → b ≡ false → b ≡ true → ⊥
    by e h = cc

pub within_depth-done :
    (c : Context) {r : Sanitizing Value} {u : Value}
    → within_depth c r ≡ done u
    → (c.depth ≤ max_depth) × (r ≡ done u)
within_depth-done c h =
    let (shallow, e) = guard-done (ltb max_depth c.depth) payload_too_deep h in
    (ltb_le max_depth c.depth shallow, e)

-- What holds of a missing field and of each clean value holds of a field that is read.
get_field-HasCleanFields {κ} :
    (P : Value → Type κ) (k : String) (d : ℕ) (fs : Fields)
    → P undefined
    → ((v : Value) → IsClean d v → P v)
    → HasCleanFields d fs
    → P (get_field k fs)
unfolding IsClean
get_field-HasCleanFields P k d end missing clean h = missing
get_field-HasCleanFields P k d (field j v fs) missing clean (key, value, h) =
    in_both P (str_eq j k) (clean v value) (get_field-HasCleanFields P k d fs missing clean h)

str-IsRedacted : (d : ℕ) (v : Value) → IsClean d v → (t : String) → v ≡ str t → IsRedacted t
unfolding IsClean
str-IsRedacted d v h t e = (subst (IsClean d) e h).1

id-IsRedacted : (d : ℕ) (v : Value) → IsClean d v → (t : String) → get "id" v ≡ str t → IsRedacted t
unfolding IsClean
id-IsRedacted d (object fs) (shallow, few, h) t e =
    get_field-HasCleanFields (λ w. w ≡ str t → IsRedacted t) "id" (suc d) fs (λ e'. cc)
      (λ w clean e'. str-IsRedacted (suc d) w clean t e') h e
id-IsRedacted d _ h t e = cc

nested_id-IsRedacted :
    (name : String) (d : ℕ) (event : Fields)
    → HasCleanFields (suc d) event
    → (t : String) → get "id" (get_field name event) ≡ str t
    → IsRedacted t
nested_id-IsRedacted name d event h =
    get_field-HasCleanFields (λ w. (t : String) → get "id" w ≡ str t → IsRedacted t) name (suc d)
      event (λ t e. cc) (λ w clean. id-IsRedacted (suc d) w clean) h

set_field-HasCleanFields :
    (k : String) (v : Value) (d : ℕ) (fs : Fields)
    → IsCleanKey k
    → IsClean d v
    → HasCleanFields d fs
    → HasCleanFields d (set_field k v fs)
unfolding IsClean
set_field-HasCleanFields k v d end key value h = (key, value, h)
set_field-HasCleanFields k v d (field j w fs) key value (key', value', h) =
    in_both (HasCleanFields d) (str_eq j k) (key', value, h)
      (key', value', set_field-HasCleanFields k v d fs key value h)

set_field-length :
    (k : String) (v : Value) (fs : Fields)
    → length (field_names (set_field k v fs)) ≤ suc (length (field_names fs))
set_field-length k v end = ground arith
set_field-length k v (field j w fs) = ground (arith, set_field-length k v fs)

is_string-str : (v : Value) → is_string v ≡ true → (t : String) × (v ≡ str t)
is_string-str (str t) h = (t, refl)
is_string-str _ h = cc

module _ (identity name : String) (key : IsCleanKey identity) (event : Fields) where
  adopt-HasCleanFields :
      (d : ℕ)
      → suc d ≤ max_depth
      → HasCleanFields (suc d) event
      → HasCleanFields (suc d) (adopt identity name event)
  unfolding IsClean adopt
  adopt-HasCleanFields d shallow h =
      let nested = get "id" (get_field name event) in
      in_either (HasCleanFields (suc d))
        (not (is_string (get_field identity event)) && is_string nested)
        (λ both.
          let (t, e) = is_string-str nested ((and-eq-true_iff _ _).0 both).1 in
          set_field-HasCleanFields identity nested (suc d) event key
            (subst (IsClean (suc d)) (sym e) (shallow, nested_id-IsRedacted name d event h t e)) h)
        (λ no. h)

  adopt-length : length (field_names (adopt identity name event)) ≤ suc (length (field_names event))
  unfolding adopt
  adopt-length = ground (arith, set_field-length identity (get "id" (get_field name event)) event)

-- The names that normalize_rum_identity_fields gives.
session_id-IsCleanKey : IsCleanKey "session_id"
unfolding is_safe_key should_reject_key should_drop_key safe_key_pattern unsafe_field_pattern
    secret_key_pattern search_from ends many_from includes
session_id-IsCleanKey = (refl, refl, refl)

view_id-IsCleanKey : IsCleanKey "view_id"
unfolding is_safe_key should_reject_key should_drop_key safe_key_pattern unsafe_field_pattern
    secret_key_pattern search_from ends many_from includes
view_id-IsCleanKey = (refl, refl, refl)

action_id-IsCleanKey : IsCleanKey "action_id"
unfolding is_safe_key should_reject_key should_drop_key safe_key_pattern unsafe_field_pattern
    secret_key_pattern search_from ends many_from includes
action_id-IsCleanKey = (refl, refl, refl)

error_id-IsCleanKey : IsCleanKey "error_id"
unfolding is_safe_key should_reject_key should_drop_key safe_key_pattern unsafe_field_pattern
    secret_key_pattern search_from ends many_from includes
error_id-IsCleanKey = (refl, refl, refl)

pub normalize_rum_identity_fields-HasCleanFields :
    (d : ℕ) (event : Fields)
    → suc d ≤ max_depth
    → HasCleanFields (suc d) event
    → HasCleanFields (suc d) (normalize_rum_identity_fields event)
unfolding normalize_rum_identity_fields
normalize_rum_identity_fields-HasCleanFields d event shallow h =
    let one = adopt-HasCleanFields "session_id" "session" session_id-IsCleanKey event d shallow h in
    let two = adopt-HasCleanFields "view_id" "view" view_id-IsCleanKey _ d shallow one in
    let three = adopt-HasCleanFields "action_id" "action" action_id-IsCleanKey _ d shallow two in
    adopt-HasCleanFields "error_id" "error" error_id-IsCleanKey _ d shallow three

pub normalize_rum_identity_fields-length :
    (event : Fields)
    → length (field_names (normalize_rum_identity_fields event)) ≤ length (field_names event) + 4
unfolding normalize_rum_identity_fields
normalize_rum_identity_fields-length event =
    let one = adopt "session_id" "session" event in
    let two = adopt "view_id" "view" one in
    let three = adopt "action_id" "action" two in
    omega (
      arith,
      adopt-length "session_id" "session" session_id-IsCleanKey event,
      adopt-length "view_id" "view" view_id-IsCleanKey one,
      adopt-length "action_id" "action" action_id-IsCleanKey two,
      adopt-length "error_id" "error" error_id-IsCleanKey three,
    )
