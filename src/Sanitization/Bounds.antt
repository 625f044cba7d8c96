-- ===== src/Sanitization/Bounds.antt =====
-- The bounds of what the sanitizers of texts and attributes let through.
use Prim.Native.Char.{code}
use frontend_observability.Base.{
  ℕ, suc, ◌+◌, ◌-◌, ◌≤◌, String, true, false, not, Option, List, [], ◌∷◌, ◌≡◌, refl, sym, subst,
  ◌⊎◌, inl, inr, ltb, leb, if◌then◌else◌, length, includes, in_either, arith,
}
use frontend_observability.Base.Json.{
  is_finite, Value, undefined, null, bool, num, str, array, object, Fields, end, field, field_names,
  utf16_length, slice_units,
}
use frontend_observability.Sanitization.Results.{
  Result, is_drop, redact_or_accept, unique, truncate_by_chars, byte_length,
}
use frontend_observability.Sanitization.Strings.{
  contains_secret, strip_url_query_and_fragment, sanitize_text, sanitize_string, is_forbidden_key,
  is_secret_key, max_sanitizer_scan_length,
}
use frontend_observability.Sanitization.Attributes.{
  is_safe_attribute_key, Loop, start_loop, append_field, with_reasons, Round, goes_on, breaks,
  returns, sanitize_attribute_value, store_attribute, take_value, take_attribute, loop_result,
  run_loop, sanitize_attributes, max_attribute_length,
}

slice_units-short : (n : ℕ) (s : String) → utf16_length (slice_units n s) ≤ n
slice_units-short n String.[] = omega arith
slice_units-short n (String.◌∷◌ c s) =
    let width = if ltb (code c) 65536 then 1 else 2 in
    in_either (λ x. utf16_length x ≤ n) (leb width n)
      (λ e. ground (arith, e, slice_units-short (n - width) s)) (λ e. omega arith)

truncate_by_chars-short : (s : String) (n : ℕ) → utf16_length (truncate_by_chars s n) ≤ n
unfolding truncate_by_chars
truncate_by_chars-short s n =
    in_either (λ x. utf16_length x ≤ n) (ltb n (utf16_length s)) (λ e. slice_units-short n s)
      (λ e. ground (arith, e))

pub redact_or_accept-value :
    (v : Value) (reasons : List String) → (redact_or_accept v reasons).value ≡ v
redact_or_accept-value v [] = refl
redact_or_accept-value v (r ∷ rs) = refl

-- A value that an attribute may have.
abbrev pub IsPrimitive : Value → Type 0
IsPrimitive null = Unit
IsPrimitive (bool b) = Unit
IsPrimitive (num n) = is_finite n ≡ true
IsPrimitive (str s) = utf16_length s ≤ max_attribute_length
IsPrimitive _ = ⊥

abbrev pub AreSafe : Fields → Type 0
AreSafe end = Unit
AreSafe (field k v fs) =
    (is_safe_attribute_key k ≡ true) × (is_forbidden_key k ≡ false) × IsPrimitive v × AreSafe fs

append_field-AreSafe :
    (k : String) (v : Value) (fs : Fields)
    → is_safe_attribute_key k ≡ true
    → is_forbidden_key k ≡ false
    → IsPrimitive v
    → AreSafe fs
    → AreSafe (append_field k v fs)
append_field-AreSafe k v end safe allowed primitive h = (safe, allowed, primitive, h)
append_field-AreSafe k v (field j w fs) safe allowed primitive (s, a, p, h) =
    (s, a, p, append_field-AreSafe k v fs safe allowed primitive h)

append_field-length :
    (k : String) (v : Value) (fs : Fields)
    → length (field_names (append_field k v fs)) ≡ length (field_names fs) + 1
append_field-length k v end = omega arith
append_field-length k v (field j w fs) = omega (arith, append_field-length k v fs)

module _ (url_without_query : String → Option String) (json_bytes : Value → ℕ) where
  abbrev pub bytes_of : Fields → ℕ
  bytes_of end = 0
  bytes_of (field k v fs) = byte_length k + json_bytes v + bytes_of fs

  append_field-bytes :
      (k : String) (v : Value) (fs : Fields)
      → bytes_of (append_field k v fs) ≡ bytes_of fs + (byte_length k + json_bytes v)
  append_field-bytes k v end = omega arith
  append_field-bytes k v (field j w fs) = omega (arith, append_field-bytes k v fs)

  sanitize_text-short :
      (s : String) (n : ℕ)
      → is_drop (sanitize_text url_without_query s n) ≡ false
      → (t : String) × ((sanitize_text url_without_query s n).value ≡ str t) × (utf16_length t ≤ n)
  unfolding sanitize_text
  sanitize_text-short s n h =
      in_either (λ r. is_drop r ≡ false → (t : String) × (r.value ≡ str t) × (utf16_length t ≤ n))
        (contains_secret (
          strip_url_query_and_fragment url_without_query
            (truncate_by_chars s max_sanitizer_scan_length)))
        (λ e h'. cc) (λ e h'. (_, redact_or_accept-value _ _, truncate_by_chars-short _ n)) h

  sanitize_attribute_value-IsPrimitive :
      (v : Value)
      → is_drop (sanitize_attribute_value url_without_query json_bytes v) ≡ false
      → IsPrimitive (sanitize_attribute_value url_without_query json_bytes v).value
  unfolding sanitize_attribute_value sanitize_string
  sanitize_attribute_value-IsPrimitive undefined h = cc
  sanitize_attribute_value-IsPrimitive null h = tt
  sanitize_attribute_value-IsPrimitive (bool b) h = tt
  sanitize_attribute_value-IsPrimitive (num n) h =
      in_either (λ r. is_drop r ≡ false → IsPrimitive r.value) (is_finite n) (λ e h'. e)
        (λ e h'. cc) h
  sanitize_attribute_value-IsPrimitive (str s) h =
      let (t, e, short) = sanitize_text-short s max_attribute_length h in
      subst IsPrimitive (sym e) short
  sanitize_attribute_value-IsPrimitive (array vs) h = cc
  sanitize_attribute_value-IsPrimitive (object fs) h = cc

  module _ (max_bytes max_items : ℕ) where
    -- Of what a loop has gathered.
    pub record IsBounded (fs : Fields) : Type 0 where
      pub safe : AreSafe fs
      pub few : length (field_names fs) ≤ max_items
      pub small : bytes_of fs ≤ max_bytes

    record LoopIsBounded (l : Loop) : Type 0 where
      bounded : IsBounded l.sanitized
      counted : length (field_names l.sanitized) ≡ l.count
      summed : bytes_of l.sanitized ≡ l.total_bytes

    -- A round leaves a loop bounded, and returns nothing but a drop.
    abbrev RoundIsBounded : Round → Type 0
    RoundIsBounded (goes_on l) = LoopIsBounded l
    RoundIsBounded (breaks l) = LoopIsBounded l
    RoundIsBounded (returns r) = is_drop r ≡ true

    with_reasons-LoopIsBounded :
        (reasons : List String) (l : Loop)
        → LoopIsBounded l
        → LoopIsBounded (with_reasons reasons l)
    with_reasons-LoopIsBounded reasons l h = record {
      bounded = h.bounded;
      counted = h.counted;
      summed = h.summed;
    }

    store_attribute-RoundIsBounded :
        (key : String) (r : Result) (l : Loop)
        → is_safe_attribute_key key ≡ true
        → is_forbidden_key key ≡ false
        → IsPrimitive r.value
        → suc l.count ≤ max_items
        → LoopIsBounded l
        → RoundIsBounded (store_attribute url_without_query json_bytes max_bytes key r l)
    unfolding store_attribute
    store_attribute-RoundIsBounded key r l safe allowed primitive room h =
        let next_bytes = byte_length key + json_bytes r.value in
        let longer = append_field-length key r.value l.sanitized in
        let larger = append_field-bytes key r.value l.sanitized in
        in_either RoundIsBounded (ltb max_bytes (l.total_bytes + next_bytes))
          (λ e. with_reasons-LoopIsBounded ("PAYLOAD_TOO_LARGE" ∷ []) l h)
          (λ e. record {
            bounded = record {
              safe =
                  append_field-AreSafe key r.value l.sanitized safe allowed primitive
                    h.bounded.safe;
              few = omega (arith, longer, h.counted, room);
              small = ground (arith, e, larger, h.summed);
            };
            counted = omega (arith, longer, h.counted);
            summed = omega (arith, larger, h.summed);
          })

    take_value-RoundIsBounded :
        (key : String) (r : Result) (l : Loop)
        → is_safe_attribute_key key ≡ true
        → is_forbidden_key key ≡ false
        → (is_drop r ≡ false → IsPrimitive r.value)
        → suc l.count ≤ max_items
        → LoopIsBounded l
        → RoundIsBounded (take_value url_without_query json_bytes max_bytes key r l)
    unfolding take_value
    take_value-RoundIsBounded key r l safe allowed primitive room h =
        in_either RoundIsBounded (is_drop r)
          (λ e.
            in_either RoundIsBounded (includes r.reasons "SECRET_DETECTED") (λ e'. e)
              (λ e'. with_reasons-LoopIsBounded r.reasons l h))
          (λ e. store_attribute-RoundIsBounded key r l safe allowed (primitive e) room h)

    take_attribute-RoundIsBounded :
        (key : String) (v : Value) (l : Loop)
        → LoopIsBounded l
        → RoundIsBounded (take_attribute url_without_query json_bytes max_bytes max_items key v l)
    unfolding take_attribute
    take_attribute-RoundIsBounded key v l h =
        in_either RoundIsBounded (leb max_items l.count) (λ full. h)
          (λ room.
            in_either RoundIsBounded (not (is_safe_attribute_key key))
              (λ e. with_reasons-LoopIsBounded ("ATTRIBUTE_KEY_FORBIDDEN" ∷ []) l h)
              (λ safe.
                in_either RoundIsBounded (is_forbidden_key key)
                  (λ e.
                    in_either RoundIsBounded (is_secret_key key) (λ e'. refl)
                      (λ e'. with_reasons-LoopIsBounded ("ATTRIBUTE_KEY_FORBIDDEN" ∷ []) l h))
                  (λ allowed.
                    take_value-RoundIsBounded key
                      (sanitize_attribute_value url_without_query json_bytes v) l
                      (ground (arith, safe)) allowed (sanitize_attribute_value-IsPrimitive v)
                      (ground (arith, room)) h)))

    -- A result is a drop, or an object that is bounded.
    abbrev pub DropsOrIsBounded : Result → Type 0
    DropsOrIsBounded r = (is_drop r ≡ true) ⊎ ((fs : Fields) × (r.value ≡ object fs) × IsBounded fs)

    loop_result-DropsOrIsBounded :
        (l : Loop) → LoopIsBounded l → DropsOrIsBounded (loop_result url_without_query json_bytes l)
    loop_result-DropsOrIsBounded l h =
        inr (l.sanitized, redact_or_accept-value (object l.sanitized) (unique l.reasons), h.bounded)

    run_loop-DropsOrIsBounded :
        (fs : Fields) (l : Loop)
        → LoopIsBounded l
        → DropsOrIsBounded (run_loop url_without_query json_bytes max_bytes max_items fs l)
    unfolding run_loop
    run_loop-DropsOrIsBounded end l h = loop_result-DropsOrIsBounded l h
    run_loop-DropsOrIsBounded (field key v fs) l h =
        by_round (take_attribute url_without_query json_bytes max_bytes max_items key v l)
          (take_attribute-RoundIsBounded key v l h) (run_loop-DropsOrIsBounded fs)
      where
        by_round :
            (r : Round)
            → RoundIsBounded r
            → ((next : Loop)
                → LoopIsBounded next
                → DropsOrIsBounded
                    (run_loop url_without_query json_bytes max_bytes max_items fs next))
            → DropsOrIsBounded (elim r [
              | goes_on next ↦ run_loop url_without_query json_bytes max_bytes max_items fs next
              | breaks final ↦ loop_result url_without_query json_bytes final
              | returns r' ↦ r'
            ])
        by_round (goes_on next) ok behind = behind next ok
        by_round (breaks final) ok behind = loop_result-DropsOrIsBounded final ok
        by_round (returns r') ok behind = inl ok

    empty-IsBounded : IsBounded end
    empty-IsBounded = record { safe = tt; few = omega arith; small = omega arith }

    -- Whatever attributes are given: their sanitization drops them, or returns an object of at most as
    -- many fields and bytes as the limits say, each of whose keys is safe and of no forbidden category and
    -- each of whose values is null, a truth value, a finite number or a text of at most 128 units.
    pub sanitize_attributes-DropsOrIsBounded :
        (attributes : Value)
        → DropsOrIsBounded
            (sanitize_attributes url_without_query json_bytes attributes max_bytes max_items)
    unfolding sanitize_attributes
    sanitize_attributes-DropsOrIsBounded undefined = inr (end, refl, empty-IsBounded)
    sanitize_attributes-DropsOrIsBounded null = inr (end, refl, empty-IsBounded)
    sanitize_attributes-DropsOrIsBounded (object fs) =
        run_loop-DropsOrIsBounded fs start_loop
          (record { bounded = empty-IsBounded; counted = refl; summed = refl })
    sanitize_attributes-DropsOrIsBounded _ = inr (end, refl, empty-IsBounded)
