-- ===== src/Ingest/Admitted.antt =====
-- Which requests reach the broker, and which are accepted (apps/telemetry-ingest/src/server.js).
use frontend_observability.Base.{
  ◌≤◌, ◌≡◌, ◌↔◌, refl, String, Bool, true, false, Option, none, some, arith, if◌then◌else◌, str_eq,
  ltb, is_some,
}
use frontend_observability.Ingest.Guard.{Refusal}
use frontend_observability.Ingest.Admission.{
  Scope, Request, Server, max_bytes_for_url, starts_with, is_plain_content_type, trusted_scope,
  Confirmation, confirms, nacked, timed_out, threw, Answer, healthy, accepts, refuses,
  publish_admitted, is_health, admit, handle_request,
}

-- Whether a message was handed to the broker.
abbrev pub hands_over : Answer → Bool
hands_over (healthy status) = false
hands_over (accepts scope) = true
hands_over (refuses e published) = published

-- The scope of an answer that accepts.
abbrev pub accepted_scope : Answer → Option Scope
accepted_scope (accepts scope) = some scope
accepted_scope _ = none

-- All that must hold for a message to be handed to the broker.
pub record MayPublish (s : Server) (r : Request) (guard : Option Refusal) (builds : Option String)
    (scope : Scope) : Type 0 where
  pub not_health : is_health r ≡ false
  pub routed : is_some r.route ≡ true
  pub no_search : r.has_search ≡ false
  pub is_post : str_eq r.method "POST" ≡ true
  pub fits :
      r.size
      ≤ (if starts_with "/rum/v1/default/logs" r.url then s.max_log_bytes else s.max_rum_bytes)
  pub plain : is_plain_content_type r.content_type ≡ true
  pub scoped : trusted_scope r.service r.environment r.version ≡ some scope
  pub ready : s.ready ≡ true
  pub not_blocked : s.blocked ≡ false
  pub connected : s.has_channel ≡ true
  pub guard_open : guard ≡ none
  pub built : builds ≡ none

-- What the admission test leaves of a request.
record IsAdmissible (s : Server) (r : Request) : Type 0 where
  routed : is_some r.route ≡ true
  no_search : r.has_search ≡ false
  is_post : str_eq r.method "POST" ≡ true
  fits : r.size ≤ max_bytes_for_url s r
  plain : is_plain_content_type r.content_type ≡ true

exact_limit :
    (s : Server) (r : Request)
    → r.size
      ≤ (if starts_with "/rum/v1/default/logs" r.url then s.max_log_bytes else s.max_rum_bytes)
    → r.size ≤ max_bytes_for_url s r
unfolding max_bytes_for_url
exact_limit s r h = h

MayPublish-publish :
    (s : Server) (r : Request) (guard : Option Refusal) (builds : Option String) (c : Confirmation)
    (scope : Scope)
    → MayPublish s r guard builds scope
    → handle_request s r guard builds c ≡ publish_admitted scope none none c
unfolding handle_request
MayPublish-publish s r guard builds c scope v =
    let fits : ltb (max_bytes_for_url s r) r.size ≡ false =
      let f = exact_limit s r v.fits in ground arith in
    rw
      (
        v.not_health, fits, admit, v.routed, v.no_search, v.is_post, v.plain, v.scoped, v.ready,
        v.not_blocked, v.connected, v.guard_open, v.built,
      )
      refl

publish_admitted-accepts :
    (scope : Scope) (c : Confirmation)
    → (hands_over (publish_admitted scope none none c) ≡ true)
      × ((accepted_scope (publish_admitted scope none none c) ≡ some scope) ↔ (c ≡ confirms))
unfolding publish_admitted
publish_admitted-accepts scope confirms = (refl, ((λ h. refl), (λ h. refl)))
publish_admitted-accepts scope nacked = (refl, ((λ h. cc), (λ h. cc)))
publish_admitted-accepts scope timed_out = (refl, ((λ h. cc), (λ h. cc)))
publish_admitted-accepts scope threw = (refl, ((λ h. cc), (λ h. cc)))

-- A request that meets all the conditions for its message to be handed to the broker has it handed over,
-- and is accepted, under its scope, exactly if the broker confirms.
pub MayPublish-accepts :
    (s : Server) (r : Request) (guard : Option Refusal) (builds : Option String) (c : Confirmation)
    (scope : Scope)
    → MayPublish s r guard builds scope
    → (hands_over (handle_request s r guard builds c) ≡ true)
      × ((accepted_scope (handle_request s r guard builds c) ≡ some scope) ↔ (c ≡ confirms))
MayPublish-accepts s r guard builds c scope v =
    rw (MayPublish-publish s r guard builds c scope v) (publish_admitted-accepts scope c)
