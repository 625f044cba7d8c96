-- ===== src/Delivery/Redacted.antt =====
-- What the sanitization of a batch lets through.
use frontend_observability.Base.{
  ℕ, zero, suc, ◌≤◌, String, not, Option, ◌≡◌, refl, sym, ap, ◌⊎◌, inl, inr, ltb, includes, length,
  in_either, subst, arith,
}
use frontend_observability.Base.Json.{
  is_finite, Value, undefined, null, bool, num, str, array, object, Fields, end, field, Elements,
  no_element, element, field_names, items,
}
use frontend_observability.Base.Try.{done, not_failed, done_injective, guard-done, bind-done}
use frontend_observability.Delivery.Routing.{Signal, rum, logs}
use frontend_observability.Delivery.Patterns.{
  drop_telemetry_keys, should_drop_key, should_reject_key, is_safe_key,
}
use frontend_observability.Delivery.Clean.{
  ltb_le, most_keys, IsRedacted, IsClean, AreClean, HasCleanFields, StartsAtRoot,
  below-StartsAtRoot, within_depth-done, normalize_rum_identity_fields-HasCleanFields,
  normalize_rum_identity_fields-length,
}
use frontend_observability.Delivery.Redaction.{
  unknown_rum_type, missing_session_id, unknown_log_shape, unsafe_number, array_too_large,
  object_too_large, unsafe_key, unsafe_field, secret_detected, Sanitizing, max_depth,
  max_array_items, max_object_keys, normalize_rum_identity_fields, enforce_signal_shape, Context,
  below, is_root, shape_root, sanitize_string, sanitize_node, sanitize_elements, sanitize_fields,
  normalize_batch, root_context, sanitize_browser_batch,
}

-- What enforceSignalShape returns is the event, or a rum event with its identities.
enforce_signal_shape-done :
    (signal : Signal) (event : Fields) {u : Fields}
    → enforce_signal_shape signal event ≡ done u
    → (u ≡ event) ⊎ (u ≡ normalize_rum_identity_fields event)
unfolding enforce_signal_shape
enforce_signal_shape-done rum event h =
    let (typed, h') = guard-done _ unknown_rum_type h in
    let (filled, h'') = guard-done _ missing_session_id h' in inr (done_injective h'' refl)
enforce_signal_shape-done logs event h =
    let (shaped, h') = guard-done _ unknown_log_shape h in inl (done_injective h' refl)

shape_root-IsClean :
    (c : Context) (gs : Fields) (u : Value)
    → StartsAtRoot c
    → c.depth ≤ max_depth
    → length (field_names gs) ≤ max_object_keys
    → HasCleanFields (suc c.depth) gs
    → shape_root c gs ≡ done u
    → IsClean c.depth u
unfolding IsClean
shape_root-IsClean c gs u top shallow few clean h =
    in_either (λ r. r ≡ done u → IsClean c.depth u) (is_root c.path)
      (λ root e.
        let (hs, shaped, same) =
          bind-done (enforce_signal_shape c.signal gs) {f = λ hs. done (object hs)} e in
        subst (IsClean c.depth) (done_injective refl same) (
          subst (λ d. IsClean d (object hs)) (sym (top root))
            (event_is_clean hs shaped (subst (λ d. HasCleanFields (suc d) gs) (top root) clean))))
      (λ inner e.
        subst (IsClean c.depth) (done_injective refl e) (shallow, few_keys c.depth, clean))
      h
  where
    few_keys : (d : ℕ) → length (field_names gs) ≤ most_keys d
    few_keys zero = omega (arith, few)
    few_keys (suc d) = few

    event_is_clean :
        (hs : Fields)
        → enforce_signal_shape c.signal gs ≡ done hs
        → HasCleanFields 1 gs
        → IsClean 0 (object hs)
    event_is_clean hs shaped clean' = elim (enforce_signal_shape-done c.signal gs shaped) [
      | inl e ↦ subst (λ x. IsClean 0 (object x)) (sym e) (omega arith, omega (arith, few), clean')
      | inr e ↦
          subst (λ x. IsClean 0 (object x)) (sym e)
            (
              omega arith,
              omega (arith, few, normalize_rum_identity_fields-length gs),
              normalize_rum_identity_fields-HasCleanFields 0 gs (omega arith) clean',
            )
    ]

module _ (url_without_query : String → Option String) where
  sanitize_string-IsRedacted :
      (s t : String) → sanitize_string url_without_query s ≡ done t → IsRedacted t
  unfolding sanitize_string
  sanitize_string-IsRedacted s t h =
      let (no_secret, e) = guard-done _ secret_detected h in (_, no_secret, done_injective e refl)

  one_more {κ} : {P : Type κ} {m n : ℕ} → P × (m ≤ n) → P × (m ≤ suc n)
  one_more (p, le) = (p, omega (arith, le))

  mutual
    unfolding sanitize_node IsClean

    pub sanitize_node-IsClean :
        (v : Value) (c : Context) (u : Value)
        → StartsAtRoot c
        → sanitize_node url_without_query v c ≡ done u
        → IsClean c.depth u
    sanitize_node-IsClean undefined c u top h = absurd (not_failed (within_depth-done c h).1)
    sanitize_node-IsClean null c u top h =
        let (shallow, e) = within_depth-done c h in
        subst (IsClean c.depth) (done_injective refl e) shallow
    sanitize_node-IsClean (bool b) c u top h =
        let (shallow, e) = within_depth-done c h in
        subst (IsClean c.depth) (done_injective refl e) shallow
    sanitize_node-IsClean (num n) c u top h =
        let (shallow, h') = within_depth-done c h in
        let (finite, e) = guard-done (not (is_finite n)) unsafe_number h' in
        subst (IsClean c.depth) {x = num n} (done_injective refl e) (shallow, ground arith)
    sanitize_node-IsClean (str s) c u top h =
        let (shallow, h') = within_depth-done c h in
        let (t, passed, e) = bind-done (sanitize_string url_without_query s) h' in
        subst (IsClean c.depth) {x = str t} (done_injective refl e)
          (shallow, sanitize_string-IsRedacted s t passed)
    sanitize_node-IsClean (array vs) c u top h =
        let (shallow, h') = within_depth-done c h in
        let (short, h'') =
          guard-done (ltb max_array_items (length (items vs))) array_too_large h' in
        let (us, mapped, e) =
          bind-done (sanitize_elements url_without_query vs (below c "[]")) h'' in
        let (clean, same) =
          sanitize_elements-AreClean vs (below c "[]") us (below-StartsAtRoot c "[]") mapped in
        subst (IsClean c.depth) {x = array us} (done_injective refl e) (
          shallow,
          subst (λ n. n ≤ max_array_items) (sym same) (ltb_le _ _ short),
          subst (λ d. AreClean d us) (omega arith) clean,
        )
    sanitize_node-IsClean (object fs) c u top h =
        let (shallow, h') = within_depth-done c h in
        let (few, h'') =
          guard-done (ltb max_object_keys (length (field_names fs))) object_too_large h' in
        let (gs, looped, e) = bind-done (sanitize_fields url_without_query fs c) h'' in
        let (clean, fewer) = sanitize_fields-HasCleanFields fs c gs looped in
        shape_root-IsClean c gs u top shallow
          (omega (arith, fewer, ltb_le max_object_keys (length (field_names fs)) few)) clean e

    pub sanitize_elements-AreClean :
        (vs : Elements) (c : Context) (us : Elements)
        → StartsAtRoot c
        → sanitize_elements url_without_query vs c ≡ done us
        → AreClean c.depth us × (length (items us) ≡ length (items vs))
    sanitize_elements-AreClean no_element c us top h =
        subst (λ x. AreClean c.depth x × (length (items x) ≡ 0)) (done_injective refl h) (tt, refl)
    sanitize_elements-AreClean (element v vs) c us top h =
        let (u, passed, h') = bind-done (sanitize_node url_without_query v c) h in
        let (us', behind, e) = bind-done (sanitize_elements url_without_query vs c) h' in
        let (clean, same) = sanitize_elements-AreClean vs c us' top behind in
        subst (λ x. AreClean c.depth x × (length (items x) ≡ suc (length (items vs))))
          (done_injective refl e) ((sanitize_node-IsClean v c u top passed, clean), ap suc same)

    sanitize_fields-HasCleanFields :
        (fs : Fields) (c : Context) (gs : Fields)
        → sanitize_fields url_without_query fs c ≡ done gs
        → HasCleanFields (suc c.depth) gs × (length (field_names gs) ≤ length (field_names fs))
    sanitize_fields-HasCleanFields end c gs h =
        subst (λ x. HasCleanFields (suc c.depth) x × (length (field_names x) ≤ 0))
          (done_injective refl h) (tt, omega arith)
    sanitize_fields-HasCleanFields (field key child fs) c gs h =
        let (safe, h') = guard-done (not (is_safe_key key)) unsafe_key h in
        let skipped = λ (e : sanitize_fields url_without_query fs c ≡ done gs).
          one_more (sanitize_fields-HasCleanFields fs c gs e) in
        let P = λ (r : Sanitizing Fields).
          r ≡ done gs
          → HasCleanFields (suc c.depth) gs
            × (length (field_names gs) ≤ suc (length (field_names fs))) in
        in_either P (includes drop_telemetry_keys key) (λ dropped. skipped)
          (λ kept h''.
            let (known, h''') = guard-done (should_reject_key key) (unsafe_field key) h'' in
            in_either P (should_drop_key key) (λ secret. skipped)
              (λ open_key k.
                let (u, passed, k') =
                  bind-done (sanitize_node url_without_query child (below c key)) k in
                let (gs', behind, e) = bind-done (sanitize_fields url_without_query fs c) k' in
                let (clean, fewer) = sanitize_fields-HasCleanFields fs c gs' behind in
                let node =
                  sanitize_node-IsClean child (below c key) u (below-StartsAtRoot c key) passed in
                subst
                  (λ x.
                    HasCleanFields (suc c.depth) x
                    × (length (field_names x) ≤ suc (length (field_names fs))))
                  (done_injective refl e)
                  (
                    (
                      (ground arith, known, open_key),
                      subst (λ d. IsClean d u) (omega arith) node,
                      clean,
                    ),
                    omega (arith, fewer),
                  ))
              h''')
          h'

  -- Whatever a batch holds: if its sanitization succeeds, there is an event for each of the batch's, and
  -- every value in them stands no deeper than 8 objects and arrays, every array has 200 elements at most,
  -- every object 80 fields (an event itself 84, with the four identities that a rum event is given), every
  -- number is finite, every key is safe, neither rejected nor one to drop, and every text is the redaction
  -- of a text cut to 4096 units in which no secret was found.
  pub sanitize_browser_batch-AreClean :
      (payload : Value) (signal : Signal) (events us : Elements)
      → normalize_batch payload ≡ done events
      → sanitize_browser_batch url_without_query payload signal ≡ done us
      → AreClean 0 us × (length (items us) ≡ length (items events))
  unfolding sanitize_browser_batch
  sanitize_browser_batch-AreClean payload signal events us e h =
      let (events', e', h') = bind-done (normalize_batch payload) h in
      sanitize_elements-AreClean events (root_context signal) us (λ root. refl)
        (subst (λ x. sanitize_elements url_without_query x (root_context signal) ≡ done us)
          (done_injective e' e) h')
