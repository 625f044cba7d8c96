-- ===== src/Sanitization/Removed.antt =====
-- The fields that an event which is sent no longer has.
use frontend_observability.Base.{
  ℕ, String, Bool, true, false, not, Option, none, some, List, [], ◌∷◌, ◌≡◌, refl, sym, subst,
  str_eq, eq_iff, in_either, in_both, arith, All, includes, inl, inr, Bool-cases, ◌&&◌,
}
use frontend_observability.Base.Json.{
  is_string, Value, str, array, undefined, null, Fields, end, field, Elements, get, get_field,
  set_field,
}
use frontend_observability.Sanitization.Results.{Result, is_drop, any_drop}
use frontend_observability.Sanitization.Strings.{sanitize_string}
use frontend_observability.Sanitization.Urls.{UrlFunctions, sanitize_resource}
use frontend_observability.Sanitization.Events.{
  delete_field, delete_fields, update, Changed, push, change, store_or_push, store_text,
  removed_fields, apply_common_event_fields, sanitize_view_url, sanitize_view_referrer,
  sanitize_view_name, sanitize_view_event, sanitize_action_event, sanitize_resource_event,
  sanitize_long_task_event, sanitize_vital_event, sanitize_scripts, with_scripts, in_error,
  strip_variables, store_vital, sanitize_by_type, finish_rum, is_known_type, finish_event,
  sanitize_rum_fields, Outcome, is_kept,
}

-- No field has this name.
abbrev pub Lacks : String → Fields → Type 0
Lacks k end = Unit
Lacks k (field j v fs) = (str_eq j k ≡ false) × Lacks k fs

-- No two fields share a name.
abbrev pub HasDistinctNames : Fields → Type 0
HasDistinctNames end = Unit
HasDistinctNames (field k v fs) = Lacks k fs × HasDistinctNames fs

delete_field-Lacks_kept : (k l : String) (fs : Fields) → Lacks k fs → Lacks k (delete_field l fs)
delete_field-Lacks_kept k l end h = tt
delete_field-Lacks_kept k l (field j v fs) (apart, h) =
    in_both (Lacks k) (str_eq j l) h (apart, delete_field-Lacks_kept k l fs h)

delete_field-HasDistinctNames :
    (l : String) (fs : Fields) → HasDistinctNames fs → HasDistinctNames (delete_field l fs)
delete_field-HasDistinctNames l end h = tt
delete_field-HasDistinctNames l (field j v fs) (apart, h) =
    in_both HasDistinctNames (str_eq j l) h
      (delete_field-Lacks_kept j l fs apart, delete_field-HasDistinctNames l fs h)

delete_field-Lacks : (k : String) (fs : Fields) → HasDistinctNames fs → Lacks k (delete_field k fs)
delete_field-Lacks k end h = tt
delete_field-Lacks k (field j v fs) (apart, h) =
    in_either (Lacks k) (str_eq j k) (λ e. subst (λ x. Lacks x fs) ((eq_iff j k).0 e) apart)
      (λ e. (e, delete_field-Lacks k fs h))

set_field-Lacks :
    (k l : String) (v : Value) (fs : Fields)
    → str_eq l k ≡ false
    → Lacks k fs
    → Lacks k (set_field l v fs)
set_field-Lacks k l v end apart h = (apart, tt)
set_field-Lacks k l v (field j w fs) apart (other, h) =
    in_both (Lacks k) (str_eq j l) (other, h) (other, set_field-Lacks k l v fs apart h)

update-Lacks :
    (k l : String) (f : Fields → Fields) (fs : Fields)
    → str_eq l k ≡ false
    → Lacks k fs
    → Lacks k (update l f fs)
update-Lacks k l f fs apart h = set_field-Lacks k l _ fs apart h

delete_fields-Lacks_kept :
    (k : String) (ks : List String) (fs : Fields) → Lacks k fs → Lacks k (delete_fields ks fs)
delete_fields-Lacks_kept k [] fs h = h
delete_fields-Lacks_kept k (j ∷ ks) fs h =
    delete_fields-Lacks_kept k ks (delete_field j fs) (delete_field-Lacks_kept k j fs h)

delete_fields-Lacks :
    (k : String) (ks : List String) (fs : Fields)
    → includes ks k ≡ true
    → HasDistinctNames fs
    → Lacks k (delete_fields ks fs)
unfolding includes
delete_fields-Lacks k [] fs e h = cc
delete_fields-Lacks k (j ∷ ks) fs e h = elim (Bool-cases (str_eq j k)) [
  | inl same ↦ delete_fields-Lacks_kept k ks (delete_field j fs) (
      subst (λ x. Lacks k (delete_field x fs)) (sym ((eq_iff j k).0 same))
        (delete_field-Lacks k fs h))
  | inr apart ↦
      delete_fields-Lacks k ks (delete_field j fs) (ground (arith, apart))
        (delete_field-HasDistinctNames j fs h)
]

-- A name that no step of the sanitization writes in an event.
pub record IsSpared (k : String) : Type 0 where
  pub not_view : str_eq "view" k ≡ false
  pub not_action : str_eq "action" k ≡ false
  pub not_resource : str_eq "resource" k ≡ false
  pub not_error : str_eq "error" k ≡ false
  pub not_long_task : str_eq "long_task" k ≡ false
  pub not_vital : str_eq "vital" k ≡ false
  pub not_context : str_eq "context" k ≡ false
  pub not_policy : str_eq "_frontend_observability_sanitization_policy" k ≡ false

abbrev is_spared : String → Bool
is_spared k =
    not (str_eq "view" k)
    && not (str_eq "action" k)
    && not (str_eq "resource" k)
    && not (str_eq "error" k)
    && not (str_eq "long_task" k)
    && not (str_eq "vital" k)
    && not (str_eq "context" k)
    && not (str_eq "_frontend_observability_sanitization_policy" k)

is_spared-IsSpared : (k : String) → is_spared k ≡ true → IsSpared k
is_spared-IsSpared k h = record {
  not_view = ground (arith, h);
  not_action = ground (arith, h);
  not_resource = ground (arith, h);
  not_error = ground (arith, h);
  not_long_task = ground (arith, h);
  not_vital = ground (arith, h);
  not_context = ground (arith, h);
  not_policy = ground (arith, h);
}

module _ (u : UrlFunctions) (url_without_query : String → Option String) (json_bytes : Value → ℕ)
    (policy : Value) (k : String) (spared : IsSpared k) where
  record KeepsLacking (c : Changed) : Type 0 where
    lacks : Lacks k c.fields

  pushed : (r : Result) (c : Changed) → KeepsLacking c → KeepsLacking (push r c)
  pushed r c h = record { lacks = h.lacks }

  updated :
      (l : String) (f : Fields → Fields) (c : Changed)
      → str_eq l k ≡ false
      → KeepsLacking c
      → KeepsLacking (change (update l f) c)
  updated l f c apart h = record { lacks = update-Lacks k l f c.fields apart h.lacks }

  updated_and_pushed :
      (l : String) (f : Fields → Fields) (r : Result) (c : Changed)
      → str_eq l k ≡ false
      → KeepsLacking c
      → KeepsLacking (push r (change (update l f) c))
  updated_and_pushed l f r c apart h = pushed r _ (updated l f c apart h)

  store_or_push-KeepsLacking :
      (l name : String) (r : Result) (c : Changed)
      → str_eq l k ≡ false
      → KeepsLacking c
      → KeepsLacking (store_or_push (update l) name r c)
  store_or_push-KeepsLacking l name r c apart h =
      pushed r _ (in_both KeepsLacking (is_drop r) h (updated l _ c apart h))

  store_text-KeepsLacking :
      (l name : String) (r : Result) (c : Changed)
      → str_eq l k ≡ false
      → KeepsLacking c
      → KeepsLacking (store_text (update l) name r c)
  store_text-KeepsLacking l name r c apart h =
      pushed r _ (in_both KeepsLacking (is_drop r) (pushed r c h) (updated l _ c apart h))

  view_url-KeepsLacking :
      (c : Changed)
      → KeepsLacking c
      → KeepsLacking (sanitize_view_url u url_without_query json_bytes policy c)
  unfolding sanitize_view_url
  view_url-KeepsLacking c h =
      in_both KeepsLacking _
        (in_both KeepsLacking _ (updated_and_pushed "view" _ _ c spared.not_view h)
          (updated_and_pushed "view" _ _ c spared.not_view h))
        h

  view_referrer-KeepsLacking :
      (c : Changed)
      → KeepsLacking c
      → KeepsLacking (sanitize_view_referrer u url_without_query json_bytes policy c)
  unfolding sanitize_view_referrer
  view_referrer-KeepsLacking c h =
      in_both KeepsLacking _ (updated_and_pushed "view" _ _ c spared.not_view h) h

  view_name-KeepsLacking :
      (c : Changed)
      → KeepsLacking c
      → KeepsLacking (sanitize_view_name u url_without_query json_bytes policy c)
  unfolding sanitize_view_name
  view_name-KeepsLacking c h =
      in_both KeepsLacking _ (updated_and_pushed "view" _ _ c spared.not_view h) h

  common-KeepsLacking :
      (event : Fields)
      → Lacks k (delete_fields removed_fields event)
      → KeepsLacking (apply_common_event_fields u url_without_query json_bytes policy event)
  unfolding apply_common_event_fields
  common-KeepsLacking event h =
      let bare : Changed = record { fields = delete_fields removed_fields event; results = [] } in
      view_name-KeepsLacking _
        (view_referrer-KeepsLacking _ (view_url-KeepsLacking bare (record { lacks = h })))

  view_event-KeepsLacking :
      (c : Changed)
      → KeepsLacking c
      → KeepsLacking (sanitize_view_event u url_without_query json_bytes policy c)
  unfolding sanitize_view_event
  view_event-KeepsLacking c h =
      in_both KeepsLacking _ (updated_and_pushed "view" _ _ c spared.not_view h) h

  variables-KeepsLacking :
      (c : Changed)
      → KeepsLacking c
      → KeepsLacking (strip_variables u url_without_query json_bytes policy c)
  variables-KeepsLacking c h =
      in_both KeepsLacking _ (updated_and_pushed "resource" _ _ c spared.not_resource h) h

  resource_event-KeepsLacking :
      (c : Changed)
      → KeepsLacking c
      → KeepsLacking (sanitize_resource_event u url_without_query json_bytes policy c)
  unfolding sanitize_resource_event
  resource_event-KeepsLacking c h = variables-KeepsLacking _ (
      store_or_push-KeepsLacking "resource" "url"
        (sanitize_resource u (get_field "resource" c.fields) policy) c spared.not_resource h)

  in_error-KeepsLacking :
      (c : Changed)
      → KeepsLacking c
      → KeepsLacking (in_error u url_without_query json_bytes policy c)
  in_error-KeepsLacking c h = record {
    lacks =
        in_both (Lacks k) _ (set_field-Lacks k "error" _ c.fields spared.not_error h.lacks) h.lacks;
  }

  store_vital-KeepsLacking :
      (name : String) (c : Changed)
      → KeepsLacking c
      → KeepsLacking (store_vital u url_without_query json_bytes policy name c)
  store_vital-KeepsLacking name c h =
      let v = get name (get_field "vital" c.fields) in
      in_both KeepsLacking (is_string v)
        (store_text-KeepsLacking "vital" name (sanitize_string url_without_query v 128) c
          spared.not_vital h)
        h

  vital_event-KeepsLacking :
      (c : Changed)
      → KeepsLacking c
      → KeepsLacking (sanitize_vital_event u url_without_query json_bytes policy c)
  unfolding sanitize_vital_event
  vital_event-KeepsLacking c h = store_vital-KeepsLacking "description" _ (
      store_vital-KeepsLacking "failure_reason" _ (
        store_vital-KeepsLacking "operation_key" _
          (store_vital-KeepsLacking "step_type" _ (store_vital-KeepsLacking "name" c h))))

  -- Of a step that may throw.
  data MayKeepLacking : Option Changed → Type 0 where
    throws : MayKeepLacking none
    returns : (c : Changed) → KeepsLacking c → MayKeepLacking (some c)

  action_event-KeepsLacking :
      (c : Changed)
      → KeepsLacking c
      → MayKeepLacking (sanitize_action_event u url_without_query json_bytes policy c)
  unfolding sanitize_action_event
  action_event-KeepsLacking c h = in_both MayKeepLacking _ throws (
      in_both MayKeepLacking _ (returns _ (updated_and_pushed "action" _ _ c spared.not_action h)) (
        returns _
          (pushed _ _ (in_both KeepsLacking _ h (updated "action" _ c spared.not_action h)))))

  with_scripts-KeepsLacking :
      (c : Changed) (scripts : Option (Elements × List Result))
      → KeepsLacking c
      → MayKeepLacking (with_scripts u url_without_query json_bytes policy c scripts)
  with_scripts-KeepsLacking c none h = throws
  with_scripts-KeepsLacking c (some (scripts, results)) h =
      returns _
        (record { lacks = update-Lacks k "long_task" _ c.fields spared.not_long_task h.lacks })

  long_task_event-KeepsLacking :
      (c : Changed)
      → KeepsLacking c
      → MayKeepLacking (sanitize_long_task_event u url_without_query json_bytes policy c)
  unfolding sanitize_long_task_event
  long_task_event-KeepsLacking c h = by_scripts (get "scripts" (get_field "long_task" c.fields))
    where
      by_scripts :
          (v : Value)
          → MayKeepLacking (elim v [
            | array vs ↦
                with_scripts u url_without_query json_bytes policy c
                  (sanitize_scripts u url_without_query json_bytes policy vs c.results)
            | undefined ↦ some c
            | null ↦ some c
            | str s ↦ some c
            | _ ↦ none
          ])
      by_scripts (array vs) = with_scripts-KeepsLacking c _ h
      by_scripts undefined = returns c h
      by_scripts null = returns c h
      by_scripts (str s) = returns c h
      by_scripts _ = throws

  by_type-KeepsLacking :
      (type : Value) (c : Changed)
      → KeepsLacking c
      → MayKeepLacking (sanitize_by_type u url_without_query json_bytes policy type c)
  unfolding sanitize_by_type
  by_type-KeepsLacking type c h =
      in_both MayKeepLacking _ (returns _ (view_event-KeepsLacking c h)) (
        in_both MayKeepLacking _ (action_event-KeepsLacking c h) (
          in_both MayKeepLacking _ (returns _ (resource_event-KeepsLacking c h)) (
            in_both MayKeepLacking _ (returns _ (in_error-KeepsLacking c h)) (
              in_both MayKeepLacking _ (long_task_event-KeepsLacking c h) (
                in_both MayKeepLacking _ (returns _ (vital_event-KeepsLacking c h))
                  (returns c h))))))

  finish_event-Lacks :
      (c : Changed)
      → KeepsLacking c
      → Lacks k (finish_event u url_without_query json_bytes policy c).event
  unfolding finish_event
  finish_event-Lacks c h =
      set_field-Lacks k "_frontend_observability_sanitization_policy" _ _ spared.not_policy
        (set_field-Lacks k "context" _ c.fields spared.not_context h.lacks)

  finish_rum-Lacks :
      (o : Option Changed) (event : Fields)
      → MayKeepLacking o
      → is_kept (finish_rum u url_without_query json_bytes policy o event).decision ≡ true
      → Lacks k (finish_rum u url_without_query json_bytes policy o event).event
  finish_rum-Lacks none event h kept = cc
  finish_rum-Lacks (some c) event (returns c' h) kept =
      in_either (λ (r : Outcome). is_kept r.decision ≡ true → Lacks k r.event) (any_drop c.results)
        (λ e kept'. cc) (λ e kept'. finish_event-Lacks c h) kept

  rum_fields-Lacks :
      (event : Fields)
      → Lacks k (delete_fields removed_fields event)
      → is_kept (sanitize_rum_fields u url_without_query json_bytes policy event).decision ≡ true
      → Lacks k (sanitize_rum_fields u url_without_query json_bytes policy event).event
  unfolding sanitize_rum_fields
  rum_fields-Lacks event h kept =
      in_either (λ (r : Outcome). is_kept r.decision ≡ true → Lacks k r.event)
        (not (is_known_type (get_field "type" event))) (λ e kept'. cc)
        (λ e kept'.
          finish_rum-Lacks _ event
            (by_type-KeepsLacking (get_field "type" event) _ (common-KeepsLacking event h)) kept')
        kept

module _ (u : UrlFunctions) (url_without_query : String → Option String) (json_bytes : Value → ℕ)
    (policy : Value) where
  -- Whatever a page hands over: a rum event that is kept for sending has no field usr, account, user,
  -- headers, request, response, body or payload, provided that no two fields of the event given share a
  -- name.
  pub sanitize_rum_fields-Lacks :
      (event : Fields)
      → HasDistinctNames event
      → is_kept (sanitize_rum_fields u url_without_query json_bytes policy event).decision ≡ true
      → All
          (λ k. Lacks k (sanitize_rum_fields u url_without_query json_bytes policy event).event)
          removed_fields
  unfolding includes
  sanitize_rum_fields-Lacks event distinct kept = (
    gone "usr" refl refl,
    (
      gone "account" refl refl,
      (
        gone "user" refl refl,
        (
          gone "headers" refl refl,
          (
            gone "request" refl refl,
            (gone "response" refl refl, (gone "body" refl refl, (gone "payload" refl refl, tt))),
          ),
        ),
      ),
    ),
  )
    where
      gone :
          (k : String)
          → is_spared k ≡ true
          → includes removed_fields k ≡ true
          → Lacks k (sanitize_rum_fields u url_without_query json_bytes policy event).event
      gone k spared listed =
          rum_fields-Lacks u url_without_query json_bytes policy k (is_spared-IsSpared k spared)
            event (delete_fields-Lacks k removed_fields event listed distinct) kept
