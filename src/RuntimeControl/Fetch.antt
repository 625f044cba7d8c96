-- ===== src/RuntimeControl/Fetch.antt =====
-- runtime-control/fetch-document.js: one fetch of the control document, bounded and validated.
--
-- What the platform does is a parameter: `JSON.parse` (none where it throws), `Date.parse` (none for
-- NaN), the decoding and the encoding of UTF-8. The response, or the exception in its place, is the
-- argument; the header, the chunks and the body are lists of numbers.
use frontend_observability.Base.{
  ℕ, ◌+◌, String, Bool, false, not, ◌&&◌, ◌||◌, Option, none, some, List, [], ◌∷◌, ◌++◌, ltb, ◌==◌,
  if◌then◌else◌, length,
}
use frontend_observability.Base.Json.{Value}
use frontend_observability.Base.Text.{Text, text_eq, trim, to_lower, ends_with, before_unit}
use frontend_observability.RuntimeControl.Registry.{max_control_body_bytes}
use frontend_observability.RuntimeControl.Document.{
  duplicate_key, validate_control_document_shape, validate_control_lifetime, document_of,
}
use frontend_observability.RuntimeControl.Apply.{
  TransportReason, http_error, content_type_invalid, too_large, json_invalid, timeout, unavailable,
  document_invalid, transport, FetchResult, fetched, failed,
}
use frontend_observability.RuntimeControl.DuplicateKeys.{has_duplicate_object_keys}

pub record Platform : Type 0 where
  pub parse_json : Text → Option Value
  pub parse_date : String → Option ℕ
  pub decode_utf8 : List ℕ → Text
  pub encoded_length : Text → ℕ

-- What a `catch` sees of an exception.
pub record Thrown : Type 0 where
  pub controller_aborted : Bool
  pub parent_aborted : Bool
  pub is_abort_error : Bool

pub data StreamEnd : Type 0 where
  done : StreamEnd
  broken : Thrown → StreamEnd

pub data Body : Type 0 where
  stream : List (List ℕ) → StreamEnd → Body
  whole : Text → Body

pub record Response : Type 0 where
  pub status : ℕ
  pub redirected : Bool
  pub content_type : Option Text
  pub body : Body

pub data Attempt : Type 0 where
  responded : Response → Attempt
  threw : Thrown → Attempt

pub data BodyResult : Type 0 where
  body_text : Text → BodyResult
  body_too_large : BodyResult
  body_threw : Thrown → BodyResult

-- "application/json" and "+json"
abbrev pub application_json : Text
application_json =
    97 ∷ 112 ∷ 112 ∷ 108 ∷ 105 ∷ 99 ∷ 97 ∷ 116 ∷ 105 ∷ 111 ∷ 110 ∷ 47 ∷ 106 ∷ 115 ∷ 111 ∷ 110 ∷ []

abbrev pub plus_json : Text
plus_json = 43 ∷ 106 ∷ 115 ∷ 111 ∷ 110 ∷ []

unfoldable pub is_json_content_type : Option Text → Bool
is_json_content_type none = false
is_json_content_type (some content_type) =
    let type = to_lower (trim (before_unit b';' content_type)) in
    text_eq type application_json || ends_with type plus_json

module _ (p : Platform) where
  -- The loop over the chunks, with the bytes so far.
  unfoldable pub read_chunks : ℕ → ℕ → List ℕ → List (List ℕ) → StreamEnd → BodyResult
  read_chunks limit total bytes [] done = body_text (p.decode_utf8 bytes)
  read_chunks limit total bytes [] (broken t) = body_threw t
  read_chunks limit total bytes (chunk ∷ chunks) end =
      let rest = read_chunks limit (total + length chunk) (bytes ++ chunk) chunks end in
      if ltb limit (total + length chunk) then body_too_large else rest

  unfoldable pub read_bounded_body : ℕ → Body → BodyResult
  unfolding read_chunks
  read_bounded_body limit (stream chunks end) = read_chunks limit 0 [] chunks end
  read_bounded_body limit (whole text) =
      if ltb limit (p.encoded_length text) then body_too_large else body_text text

  -- The `catch` block.
  unfoldable pub failure_of : Thrown → TransportReason
  failure_of t =
      if t.controller_aborted && not t.parent_aborted
      then timeout
      else if t.is_abort_error
      then timeout
      else unavailable

  -- The tests of a parsed document.
  unfoldable pub check_document : Value → ℕ → FetchResult
  check_document value now =
      let shape = validate_control_document_shape value in
      let document = document_of p.parse_date value in
      let lifetime =
        validate_control_lifetime document.issued_at.parsed document.expires_at.parsed now in
      if not shape.valid
      then failed (document_invalid shape.reason_code)
      else if not lifetime.valid
      then failed (document_invalid lifetime.reason_code)
      else fetched document

  unfoldable pub check_parsed : Option Value → ℕ → FetchResult
  unfolding check_document
  check_parsed none now = failed (transport json_invalid)
  check_parsed (some value) now = check_document value now

  unfoldable pub check_body : BodyResult → ℕ → FetchResult
  unfolding check_parsed failure_of
  check_body body_too_large now = failed (transport too_large)
  check_body (body_threw t) now = failed (transport (failure_of t))
  check_body (body_text text) now =
      if has_duplicate_object_keys text
      then failed (document_invalid duplicate_key)
      else check_parsed (p.parse_json text) now

  unfoldable pub fetch_control_document : Attempt → ℕ → FetchResult
  unfolding check_body read_bounded_body failure_of
  fetch_control_document (threw t) now = failed (transport (failure_of t))
  fetch_control_document (responded r) now =
      if not (r.status == 200) || r.redirected
      then failed (transport http_error)
      else if not (is_json_content_type r.content_type)
      then failed (transport content_type_invalid)
      else check_body (read_bounded_body max_control_body_bytes r.body) now
