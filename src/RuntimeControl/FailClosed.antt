-- ===== src/RuntimeControl/FailClosed.antt =====
-- What a successful fetch guarantees, and that collection ends soon after the last of them
-- (runtime-control/fetch-document.js, apply-document.js, gate.js).
use mathlib.Core.List.{append-nil, append_assoc}
use frontend_observability.Base.{
  ℕ, ◌+◌, ◌≤◌, ◌<◌, ◌≡◌, ◌⊎◌, inl, inr, refl, true, false, Option, none, some, List, [], ◌∷◌, ◌++◌,
  arith, length, Bool-cases, Option-cases, All, ◌∙◌, subst, ltb, if◌then◌else◌,
}
use frontend_observability.Base.Json.{Value}
use frontend_observability.Base.Text.{Text}
use frontend_observability.RuntimeControl.Registry.{Document, Registry, create_initial_registry}
use frontend_observability.RuntimeControl.Document.{
  validate_control_document_shape, validate_control_lifetime, document_of, is_live_at,
  is_document_live,
}
use frontend_observability.RuntimeControl.Apply.{
  FailureReason, FetchResult, fetched, failed, document_invalid, transport, apply_fetch_outcome,
  is_collection_gate_open,
}
use frontend_observability.RuntimeControl.DuplicateKeys.{has_duplicate_object_keys}
use frontend_observability.RuntimeControl.Fetch.{
  Platform, Attempt, Response, responded, threw, done, stream, whole, Body, broken, Thrown,
  BodyResult, body_text, body_too_large, body_threw, is_json_content_type, read_chunks,
  read_bounded_body, check_document, check_body, fetch_control_document,
}
use frontend_observability.RuntimeControl.Latch.{run_outcomes}
use frontend_observability.RuntimeControl.Validation.{
  IsControlShape, validate_shape_iff, validate_lifetime_iff,
}

abbrev pub total_length : List (List ℕ) → ℕ
total_length [] = 0
total_length (c ∷ cs) = length c + total_length cs

abbrev pub joined : List (List ℕ) → List ℕ
joined [] = []
joined (c ∷ cs) = c ++ joined cs

module _ (p : Platform) where
  -- The text of a body that came to its end with no more than that many bytes.
  pub data Within (limit : ℕ) (text : Text) : Body → Type 0 where
    in_chunks :
        (chunks : List (List ℕ))
        → total_length chunks ≤ limit
        → text ≡ p.decode_utf8 (joined chunks)
        → Within limit text (stream chunks done)
    at_once : p.encoded_length text ≤ limit → Within limit text (whole text)

  pub record IsAccepted (attempt : Attempt) (now : ℕ) (d : Document) : Type 0 where
    pub response : Response
    pub is_response : attempt ≡ responded response
    pub status_ok : response.status ≡ 200
    pub direct : response.redirected ≡ false
    pub json_type : is_json_content_type response.content_type ≡ true
    pub text : Text
    pub within_limit : Within 8192 text response.body
    pub no_duplicates : has_duplicate_object_keys text ≡ false
    pub value : Value
    pub is_value : p.parse_json text ≡ some value
    pub shape : IsControlShape value
    pub kept : d ≡ document_of p.parse_date value
    pub lifetime :
        (i : ℕ) × (e : ℕ) × (d.issued_at.parsed ≡ some i)
        × (d.expires_at.parsed ≡ some e)
        × (i < e)
        × (e ≤ i + 600000)
        × (i ≤ now + 60000)
        × (now < e)

  check_document-fetched :
      (v : Value) (now : ℕ) (d : Document)
      → check_document p v now ≡ fetched d
      → ((validate_control_document_shape v).valid ≡ true)
        × (d ≡ document_of p.parse_date v)
        × ((validate_control_lifetime d.issued_at.parsed d.expires_at.parsed now).valid ≡ true)
  unfolding check_document
  check_document-fetched v now d h =
      let same : d ≡ document_of p.parse_date v = ground arith in
      (ground arith, same, rw same (ground arith))

  check_body-fetched :
      (b : BodyResult) (now : ℕ) (d : Document)
      → check_body p b now ≡ fetched d
      → (text : Text) × (v : Value) × (b ≡ body_text text)
        × (has_duplicate_object_keys text ≡ false)
        × (p.parse_json text ≡ some v)
        × (check_document p v now ≡ fetched d)
  unfolding check_body
  check_body-fetched body_too_large now d h = cc
  check_body-fetched (body_threw t) now d h = cc
  check_body-fetched (body_text text) now d h = elim (Option-cases (p.parse_json text)) [
    | inl e ↦ absurd (ground arith)
    | inr (v, e) ↦ (text, v, refl, ground arith, e, ground arith)
  ]

  read_chunks_lem :
      (limit total : ℕ) (bytes : List ℕ) (chunks : List (List ℕ))
      → total ≤ limit
      → read_chunks p limit total bytes chunks done ≡ (
          if ltb limit (total + total_length chunks)
          then body_too_large
          else body_text (p.decode_utf8 (bytes ++ joined chunks)))
  unfolding read_chunks
  read_chunks_lem limit total bytes [] h = rw append-nil (ground arith)
  read_chunks_lem limit total bytes (c ∷ cs) h = elim (Bool-cases (ltb limit (total + length c))) [
    | inl over ↦ ground arith
    | inr fits ↦
        let ih = read_chunks_lem limit (total + length c) (bytes ++ c) cs (ground arith) in
        ground (arith, ih, append_assoc bytes c (joined cs))
  ]

  -- A body that arrives whole is read exactly if its chunks have no more bytes together than the
  -- limit, and then is the decoding of all of them in order; one over the limit is refused.
  pub read_bounded_body_lem :
      (limit : ℕ) (chunks : List (List ℕ))
      → read_bounded_body p limit (stream chunks done) ≡ (
          if ltb limit (total_length chunks)
          then body_too_large
          else body_text (p.decode_utf8 (joined chunks)))
  unfolding read_bounded_body
  read_bounded_body_lem limit chunks =
      read_chunks_lem limit 0 [] chunks (omega arith) ∙ ground arith

  read_chunks-broken :
      (limit total : ℕ) (bytes : List ℕ) (chunks : List (List ℕ)) (t : Thrown) (text : Text)
      → read_chunks p limit total bytes chunks (broken t) ≡ body_text text
      → ⊥
  unfolding read_chunks
  read_chunks-broken limit total bytes [] t text h = cc
  read_chunks-broken limit total bytes (c ∷ cs) t text h =
      elim (Bool-cases (ltb limit (total + length c))) [
        | inl over ↦ absurd (ground (arith, over))
        | inr fits ↦
            read_chunks-broken limit (total + length c) (bytes ++ c) cs t text
              (ground (arith, fits))
      ]

  body_text-Within :
      (limit : ℕ) (body : Body) (text : Text)
      → read_bounded_body p limit body ≡ body_text text
      → Within limit text body
  unfolding read_bounded_body
  body_text-Within limit (stream chunks done) text h =
      elim (Bool-cases (ltb limit (total_length chunks))) [
        | inl over ↦ absurd (ground (arith, over, read_bounded_body_lem limit chunks))
        | inr fits ↦
            in_chunks chunks (ground arith)
              (ground (arith, fits, read_bounded_body_lem limit chunks))
      ]
  body_text-Within limit (stream chunks (broken t)) text h =
      absurd (read_chunks-broken limit 0 [] chunks t text h)
  body_text-Within limit (whole t) text h = elim (Bool-cases (ltb limit (p.encoded_length t))) [
    | inl over ↦ absurd (ground (arith, over))
    | inr fits ↦
        let same : t ≡ text = ground (arith, fits) in
        subst (λ x. Within limit x (whole t)) same (at_once (ground arith))
  ]

  -- A document comes out of a fetch only if all of this holds: a direct response with status 200 and
  -- a JSON content type; a body that came to its end with no more than 8192 bytes, whose decoded text
  -- is free of repeated keys as the scan sees them and parses; a value of the shape of a control document, of which it is the fields; and dates that
  -- parse, expire after they are issued and at most ten minutes later, are issued at most a minute
  -- ahead of the clock, and expire after it.
  pub fetch-IsAccepted :
      (attempt : Attempt) (now : ℕ) (d : Document)
      → fetch_control_document p attempt now ≡ fetched d
      → IsAccepted attempt now d
  unfolding fetch_control_document
  fetch-IsAccepted (threw t) now d h = absurd (ground arith)
  fetch-IsAccepted (responded r) now d h =
      let checked : check_body p (read_bounded_body p 8192 r.body) now ≡ fetched d = ground arith in
      let (text, v, read, unique, parsed, ok) = check_body-fetched _ now d checked in
      let (shape, kept, lifetime) = check_document-fetched v now d ok in
      record {
        response = r;
        is_response = refl;
        status_ok = ground arith;
        direct = ground arith;
        json_type = ground arith;
        text = text;
        within_limit = body_text-Within 8192 r.body text read;
        no_duplicates = unique;
        value = v;
        is_value = parsed;
        shape = (validate_shape_iff v).0 shape;
        kept = kept;
        lifetime = (validate_lifetime_iff _ _ now).0 lifetime;
      }

-- A refresh cycle: what its fetch met, when the fetch began, and when its outcome was applied.
pub record Cycle : Type 0 where
  pub attempt : Attempt
  pub began : ℕ
  pub applied_at : ℕ

module _ (p : Platform) where
  unfoldable pub outcomes_of : List Cycle → List (FetchResult × ℕ)
  outcomes_of [] = []
  outcomes_of (c ∷ cs) = (fetch_control_document p c.attempt c.began, c.applied_at) ∷ outcomes_of cs

  -- The document expires within eleven minutes of t.
  abbrev pub ExpiresBy : Option Document → ℕ → Type 0
  ExpiresBy none t = Unit {0}
  ExpiresBy (some d) t = (e : ℕ) × (d.expires_at.parsed ≡ some e) × (e ≤ t + 660000)

  abbrev pub BeganBy : ℕ → Cycle → Type 0
  BeganBy t c =
      (d : Document) → fetch_control_document p c.attempt c.began ≡ fetched d → c.began ≤ t

  apply_document_cases :
      (r : Registry) (d : Document) (now : ℕ)
      → let r' = (apply_fetch_outcome r (fetched d) now).0 in
        (r'.current_document ≡ r.current_document) ⊎ (r'.current_document ≡ some d)
  unfolding apply_fetch_outcome
  apply_document_cases r d now = ground arith

  apply_failure_current :
      (r : Registry) (why : FailureReason) (now : ℕ)
      → (apply_fetch_outcome r (failed why) now).0.current_document ≡ r.current_document
  unfolding apply_fetch_outcome
  apply_failure_current r (document_invalid why) now = refl
  apply_failure_current r (transport why) now = ground arith

  cycle-ExpiresBy :
      (r : Registry) (t : ℕ) (c : Cycle) (result : FetchResult)
      → fetch_control_document p c.attempt c.began ≡ result
      → BeganBy t c
      → ExpiresBy r.current_document t
      → ExpiresBy (apply_fetch_outcome r result c.applied_at).0.current_document t
  cycle-ExpiresBy r t c (failed why) e b h = rw (apply_failure_current r why c.applied_at) h
  cycle-ExpiresBy r t c (fetched d) e b h = elim (apply_document_cases r d c.applied_at) [
    | inl old ↦ rw old h
    | inr new ↦
        let (i, x, is_i, is_x, order, ttl, skew, live) =
          (fetch-IsAccepted p c.attempt c.began d e).lifetime in
        let early = b d e in rw new (x, is_x, omega arith)
  ]

  cycles-ExpiresBy :
      (r : Registry) (t : ℕ) (cycles : List Cycle)
      → All (BeganBy t) cycles
      → ExpiresBy r.current_document t
      → ExpiresBy (run_outcomes r (outcomes_of cycles)).current_document t
  unfolding run_outcomes outcomes_of
  cycles-ExpiresBy r t [] b h = h
  cycles-ExpiresBy r t (c ∷ cs) (b, bs) h =
      cycles-ExpiresBy
        (apply_fetch_outcome r (fetch_control_document p c.attempt c.began) c.applied_at).0 t cs bs
        (cycle-ExpiresBy r t c _ refl b h)

  not_live_after :
      (o : Option Document) (t now : ℕ)
      → ExpiresBy o t
      → t + 660000 ≤ now
      → is_document_live o now ≡ false
  unfolding is_document_live
  not_live_after none t now h late = refl
  not_live_after (some d) t now (e, is_e, soon) late = rw (is_e, is_live_at) (ground arith)

  -- On a page whose last successful fetch began no later than t, the gate is closed from eleven
  -- minutes after t on, whatever else was fetched: the platform's silence ends collection.
  pub stale_page_fails_closed :
      (cycles : List Cycle) (t now : ℕ)
      → All (BeganBy t) cycles
      → t + 660000 ≤ now
      → is_collection_gate_open (run_outcomes create_initial_registry (outcomes_of cycles)) now
        ≡ false
  unfolding is_collection_gate_open
  stale_page_fails_closed cycles t now b late =
      ground (
        arith,
        not_live_after _ t now (cycles-ExpiresBy create_initial_registry t cycles b tt) late,
      )
