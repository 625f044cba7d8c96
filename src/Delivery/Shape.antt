-- ===== src/Delivery/Shape.antt =====
-- What the events of a sanitized batch are shaped like.
use frontend_observability.Base.{
  ltb, length, String, Bool, true, false, not, ◌&&◌, ◌||◌, Option, ◌≡◌, refl, subst, str_eq,
}
use frontend_observability.Base.Json.{
  is_string, is_finite, Value, undefined, null, bool, num, str, array, object, Fields, end, field,
  Elements, no_element, element, get_field, items, field_names,
}
use frontend_observability.Base.Try.{done, not_failed, done_injective, guard-done, bind-done}
use frontend_observability.Delivery.Routing.{Signal, rum, logs}
use frontend_observability.Delivery.Clean.{within_depth-done}
use frontend_observability.Delivery.Redaction.{
  Sanitizing, unsafe_number, array_too_large, object_too_large, max_array_items, max_object_keys,
  below, unknown_rum_type, missing_session_id, unknown_log_shape, rum_types, is_one_of, is_filled,
  enforce_signal_shape, within_depth, sanitize_string, sanitize_node, sanitize_elements,
  sanitize_fields, normalize_batch, root_context, sanitize_browser_batch,
}

-- A rum event names one of the six types and a session; a log event has a message or a status.
abbrev pub HasEventShape : Signal → Fields → Type 0
HasEventShape rum fs =
    (is_one_of rum_types (get_field "type" fs) ≡ true)
    × (is_filled (get_field "session_id" fs) ≡ true)
HasEventShape logs fs =
    (is_string (get_field "message" fs) || is_string (get_field "status" fs)) ≡ true

-- Of a value that is an object.
abbrev pub HasShape : Signal → Value → Type 0
HasShape signal (object fs) = HasEventShape signal fs
HasShape signal _ = Unit

abbrev pub HaveShape : Signal → Elements → Type 0
HaveShape signal no_element = Unit
HaveShape signal (element v vs) = HasShape signal v × HaveShape signal vs

-- An object of the batch has a field named `__proto__`: an assignment to it sets the prototype.
unfoldable mutual
  pub names_proto : Value → Bool
  names_proto (array vs) = element_names_proto vs
  names_proto (object fs) = field_names_proto fs
  names_proto _ = false

  pub element_names_proto : Elements → Bool
  element_names_proto no_element = false
  element_names_proto (element v vs) = names_proto v || element_names_proto vs

  pub field_names_proto : Fields → Bool
  field_names_proto end = false
  field_names_proto (field k v fs) = str_eq k "__proto__" || names_proto v || field_names_proto fs

some_true : (a b : Bool) → (not a && not b) ≡ false → (a || b) ≡ true
some_true true b h = refl
some_true false true h = refl
some_true false false h = cc

true_of_not : (b : Bool) → not b ≡ false → b ≡ true
true_of_not true h = refl
true_of_not false h = cc

enforce_signal_shape-HasShape :
    (signal : Signal) (gs hs : Fields)
    → enforce_signal_shape signal gs ≡ done hs
    → HasShape signal (object hs)
unfolding enforce_signal_shape
enforce_signal_shape-HasShape rum gs hs h =
    let (typed, h') = guard-done _ unknown_rum_type h in
    let (filled, h'') = guard-done _ missing_session_id h' in
    subst (λ x. HasShape rum (object x)) (done_injective refl h'')
      (true_of_not _ typed, true_of_not _ filled)
enforce_signal_shape-HasShape logs gs hs h =
    let (shaped, h') = guard-done _ unknown_log_shape h in
    subst (λ x. HasShape logs (object x)) (done_injective refl h') (some_true _ _ shaped)

module _ (url_without_query : String → Option String) (signal : Signal) where
  within_root :
      {r : Sanitizing Value} {w u : Value}
      → within_depth (root_context signal) r ≡ done u
      → r ≡ done w
      → w ≡ u
  within_root h e = done_injective e (within_depth-done (root_context signal) h).1

  root_node-HasShape :
      (v u : Value)
      → sanitize_node url_without_query v (root_context signal) ≡ done u
      → HasShape signal u
  unfolding sanitize_node
  root_node-HasShape undefined u h =
      absurd (not_failed (within_depth-done (root_context signal) h).1)
  root_node-HasShape null u h = subst (HasShape signal) (within_root h refl) tt
  root_node-HasShape (bool b) u h = subst (HasShape signal) (within_root h refl) tt
  root_node-HasShape (num n) u h =
      let (finite, e) =
        guard-done (not (is_finite n)) unsafe_number
          (within_depth-done (root_context signal) h).1 in
      subst (HasShape signal) (done_injective refl e) tt
  root_node-HasShape (str s) u h =
      let (t, passed, e) =
        bind-done (sanitize_string url_without_query s)
          (within_depth-done (root_context signal) h).1 in
      subst (HasShape signal) (done_injective refl e) tt
  root_node-HasShape (array vs) u h =
      let (short, h') =
        guard-done (ltb max_array_items (length (items vs))) array_too_large
          (within_depth-done (root_context signal) h).1 in
      let (us, mapped, e) =
        bind-done (sanitize_elements url_without_query vs (below (root_context signal) "[]")) h' in
      subst (HasShape signal) (done_injective refl e) tt
  root_node-HasShape (object fs) u h =
      let (few, h') =
        guard-done (ltb max_object_keys (length (field_names fs))) object_too_large
          (within_depth-done (root_context signal) h).1 in
      let (gs, looped, h'') =
        bind-done (sanitize_fields url_without_query fs (root_context signal)) h' in
      let (hs, shaped, e) =
        bind-done (enforce_signal_shape signal gs) {f = λ hs. done (object hs)} h'' in
      subst (HasShape signal) (done_injective refl e)
        (enforce_signal_shape-HasShape signal gs hs shaped)

  elements-HaveShape :
      (vs us : Elements)
      → sanitize_elements url_without_query vs (root_context signal) ≡ done us
      → HaveShape signal us
  unfolding sanitize_node
  elements-HaveShape no_element us h = subst (HaveShape signal) (done_injective refl h) tt
  elements-HaveShape (element v vs) us h =
      let (u, passed, h') = bind-done (sanitize_node url_without_query v (root_context signal)) h in
      let (us', behind, e) =
        bind-done (sanitize_elements url_without_query vs (root_context signal)) h' in
      subst (HaveShape signal) {x = element u us'} (done_injective refl e)
        (root_node-HasShape v u passed, elements-HaveShape vs us' behind)

  -- Of a batch in which no object has a field named `__proto__`: if its sanitization for a signal
  -- succeeds, then each event of the result that is an object has that signal's shape: for rum one of the six types and a session identity that is not
  -- empty, for logs a text as message or as status.
  pub sanitize_browser_batch-HaveShape :
      (payload : Value) (us : Elements)
      → names_proto payload ≡ false
      → sanitize_browser_batch url_without_query payload signal ≡ done us
      → HaveShape signal us
  unfolding sanitize_browser_batch
  sanitize_browser_batch-HaveShape payload us plain h =
      let (events, e, h') =
        bind-done (normalize_batch payload)
          {f = λ x. sanitize_elements url_without_query x (root_context signal)} h in
      elements-HaveShape events us h'
