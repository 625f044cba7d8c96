-- ===== src/Sessions/Aggregate.antt =====
-- apps/session-metadata-sync/src/sync.js: from the rows of a search to a record for each session.
--
-- `Number(value)`, `value * 1000` and `String(value)` are the parameters `number`, `times_1000` and
-- `print`. A timestamp is a whole number of either sign, infinite or NaN, in microseconds. The rounding
-- of a quotient is exact, where the source rounds a double.
use frontend_observability.Base.{
  ℕ, suc, ◌+◌, ◌-◌, ◌*◌, ◌/◌, min, max, String, false, Option, none, some, List, [], ◌∷◌, ◌++◌,
  str_eq, if◌then◌else◌, includes, length, or_else, ◌==◌,
}
use frontend_observability.Base.Json.{
  is_text, Value, undefined, null, bool, num, Num, nat, str, array, object, Fields, end, field,
  Elements, no_element, element, get, get_field, utf16_length,
}
use frontend_observability.Sessions.Rows.{
  Row, find_unsafe_key, nullish, is_frustration, add_unique, bounded, canonical, or_set, take_texts,
}

-- A session while rows are read; `start` is none for infinity, and a text none for null or undefined.
pub record Session : Type 0 where
  pub session_id : String
  pub start : Option ℕ
  pub end_us : ℕ
  pub error_ids : List String
  pub view_ids : List String
  pub action_ids : List String
  pub frustration_ids : List String
  pub browser : Option String
  pub os : Option String
  pub device : Option String
  pub service : Option String
  pub env : Option String
  pub version : Option String
  pub source : Option String
  pub tags : List String

unfoldable pub create_empty_session : String → Session
create_empty_session session_id = record {
  session_id = session_id;
  start = none;
  end_us = 0;
  error_ids = [];
  view_ids = [];
  action_ids = [];
  frustration_ids = [];
  browser = none;
  os = none;
  device = none;
  service = none;
  env = none;
  version = none;
  source = none;
  tags = [];
}

-- `Number.isFinite(ts) && ts > 0`
abbrev pub positive : Num → Option ℕ
positive (nat (suc n)) = some (suc n)
positive _ = none

abbrev pub earliest : Option ℕ → ℕ → Option ℕ
earliest none ts = some ts
earliest (some start) ts = some (min start ts)

unfoldable pub extend : Option ℕ → Session → Session
extend none session = session
extend (some ts) session = record session {
  start = earliest session.start ts;
  end_us = max session.end_us ts;
}

abbrev pub add_to_set : List String → String → List String
add_to_set set s = if includes set s then set else set ++ s ∷ []

abbrev pub tags_of : Value → List String → List String
tags_of (array vs) current = take_texts 20 vs
tags_of _ current = current

-- The session identity of a row that is not skipped.
abbrev pub session_id_of : Value → Option String
session_id_of (str s) = if utf16_length s == 0 then none else some s
session_id_of _ = none

pub record Diagnostic : Type 0 where
  pub timestamp : ℕ
  pub field_path : String

pub record Aggregate : Type 0 where
  pub sessions : List Session
  pub diagnostics : List Diagnostic
  pub unsafe_rejections : ℕ

-- `sessions.get(id)` and `sessions.set(id, session)` of a Map, which keeps the order of insertion.
abbrev pub find_session : String → List Session → Option Session
find_session id [] = none
find_session id (s ∷ ss) = if str_eq s.session_id id then some s else find_session id ss

abbrev pub put_session : Session → List Session → List Session
put_session new [] = new ∷ []
put_session new (s ∷ ss) =
    if str_eq s.session_id new.session_id then new ∷ ss else s ∷ put_session new ss

module _ (number times_1000 : Value → Num) (print : Value → String) where
  -- `Number(row._timestamp ?? row.date * 1000)`
  abbrev pub timestamp_of : Row → Num
  timestamp_of row = elim (get_field "_timestamp" row) [
    | undefined ↦ number (num (times_1000 (get_field "date" row)))
    | null ↦ number (num (times_1000 (get_field "date" row)))
    | v ↦ number v
  ]

  -- The identities that a row adds.
  unfoldable pub add_identities : Row → Session → Session
  add_identities row session =
      let ts = num (timestamp_of row) in
      let type = get_field "type" row in
      let view_id = nullish (get_field "view_id" row) (get "id" (get_field "view" row)) in
      let action_id = nullish (get_field "action_id" row) (get "id" (get_field "action" row)) in
      let error_id = nullish (get_field "error_id" row) (get "id" (get_field "error" row)) in
      let fingerprint =
        nullish (get_field "error_id" row)
          (nullish (get "fingerprint" (get_field "error" row)) (str (print ts))) in
      let views = add_unique session.view_ids view_id in
      let actions = add_unique session.action_ids action_id in
      let errors = add_unique session.error_ids error_id in
      record session {
        view_ids =
            if is_text "view" type
            then add_unique views (nullish view_id (str (print ts)))
            else views;
        action_ids =
            if is_text "action" type
            then add_unique actions (nullish action_id (str (print ts)))
            else actions;
        error_ids = if is_text "error" type then add_unique errors fingerprint else errors;
        frustration_ids =
            if is_frustration row
            then add_to_set session.frustration_ids (
                print (nullish (get_field "action_id" row) (nullish (get_field "error_id" row) ts)))
            else session.frustration_ids;
      }

  -- The texts that a row may give a session.
  unfoldable pub add_texts : Row → Session → Session
  add_texts row session =
      let row_device =
        nullish (get_field "device_type" row)
          (nullish (get_field "device" row) (get_field "user_agent_device_family" row)) in
      record session {
        browser = or_set session.browser (
            canonical
              (nullish (get_field "user_agent_user_agent_family" row) (get_field "browser" row)));
        os =
            or_set session.os
              (canonical (nullish (get_field "user_agent_os_family" row) (get_field "os" row)));
        device = or_set session.device (canonical row_device);
        service = or_set session.service (bounded (get_field "service" row));
        env = or_set session.env (bounded (get_field "env" row));
        version = or_set session.version (bounded (get_field "version" row));
        source = or_set session.source (bounded (get_field "source" row));
        tags = tags_of (get_field "tags" row) session.tags;
      }

  -- What a row does to its session.
  unfoldable pub add_row : Row → Session → Session
  add_row row session =
      add_texts row (add_identities row (extend (positive (timestamp_of row)) session))

  -- What a round does, by the path of an unsafe key and the session identity of the row.
  unfoldable pub take_row : ℕ → Row → Option String → Option String → Aggregate → Aggregate
  take_row now_us row (some path) named a = record a {
    unsafe_rejections = suc a.unsafe_rejections;
    diagnostics = a.diagnostics ++ record { timestamp = now_us; field_path = path } ∷ [];
  }
  take_row now_us row none none a = a
  take_row now_us row none (some id) a =
      let session = or_else (find_session id a.sessions) (create_empty_session id) in
      record a { sessions = put_session (add_row row session) a.sessions }

  -- A round of the loop.
  unfoldable pub aggregate_row : ℕ → Row → Aggregate → Aggregate
  unfolding take_row
  aggregate_row now_us row a =
      take_row now_us row (find_unsafe_key (object row))
        (session_id_of (get_field "session_id" row)) a

  unfoldable pub aggregate_rows : ℕ → List Row → Aggregate → Aggregate
  aggregate_rows now_us [] a = a
  aggregate_rows now_us (row ∷ rows) a = aggregate_rows now_us rows (aggregate_row now_us row a)

abbrev pub empty_aggregate : Aggregate
empty_aggregate = record { sessions = []; diagnostics = []; unsafe_rejections = 0 }

abbrev pub max_session_duration_us : ℕ
max_session_duration_us = 8 * 60 * 60 * 1000000

-- `Math.round(us / 1000)`
abbrev pub rounded_ms : ℕ → ℕ
rounded_ms us = (us + 500) / 1000

abbrev pub allowed_metadata_keys : List String
allowed_metadata_keys =
    "_timestamp" ∷ "type" ∷ "metadata_schema_version" ∷ "session_id" ∷ "start" ∷ "end" ∷ "duration"
    ∷ "error_count" ∷ "view_count" ∷ "action_count" ∷ "frustration_count" ∷ "session_has_replay"
    ∷ "ip" ∷ "user_agent_user_agent_family" ∷ "user_agent_os_family" ∷ "device" ∷ "service" ∷ "env"
    ∷ "version" ∷ "tags" ∷ "source" ∷ []

-- `text || fallback`
abbrev pub text_or : Option String → Value → Value
text_or none fallback = fallback
text_or (some s) fallback = if utf16_length s == 0 then fallback else str s

abbrev pub texts : List String → Elements
texts [] = no_element
texts (s ∷ ss) = element (str s) (texts ss)

abbrev pub count_of : List String → Value
count_of ids = num (nat (length ids))

abbrev pub keep_keys : List String → Fields → Fields
keep_keys allowed end = end
keep_keys allowed (field k v fs) =
    let behind = keep_keys allowed fs in if includes allowed k then field k v behind else behind

abbrev pub duration_us : ℕ → ℕ → ℕ
duration_us start end_us = min (end_us - start) max_session_duration_us

-- The last fields of a record.
abbrev pub texts_of_record : Session → Fields
texts_of_record s = field "user_agent_user_agent_family" (text_or s.browser (str "Unknown")) (
    field "user_agent_os_family" (text_or s.os (str "Unknown")) (
      field "device" (text_or s.device (str "Unknown")) (
        field "service" (text_or s.service null) (
          field "env" (text_or s.env null) (
            field "version" (text_or s.version null) (
              field "tags" (array (texts s.tags))
                (field "source" (text_or s.source (str "rum-metadata")) end)))))))

unfoldable pub record_of : ℕ → Session → Fields
record_of start s =
    let start_ms = rounded_ms start in
    let duration_ms = rounded_ms (duration_us start s.end_us) in
    field "_timestamp" (num (nat s.end_us)) (
      field "type" (str "session-metadata") (
        field "metadata_schema_version" (str "1.0.0") (
          field "session_id" (str s.session_id) (
            field "start" (num (nat start_ms)) (
              field "end" (num (nat (start_ms + duration_ms))) (
                field "duration" (num (nat duration_ms)) (
                  field "error_count" (count_of s.error_ids) (
                    field "view_count" (count_of s.view_ids) (
                      field "action_count" (count_of s.action_ids) (
                        field "frustration_count" (count_of s.frustration_ids) (
                          field "session_has_replay" (bool false)
                            (field "ip" (str "redacted") (texts_of_record s)))))))))))))

-- By the session's start: no record where that is infinite.
unfoldable pub record_from : Option ℕ → Session → Option Fields
unfolding record_of
record_from none s = none
record_from (some start) s = some (keep_keys allowed_metadata_keys (record_of start s))

unfoldable pub to_record : Session → Option Fields
unfolding record_from
to_record s = record_from s.start s

abbrev pub records_of : List Session → List Fields
records_of [] = []
records_of (s ∷ ss) = elim (to_record s) [ some r ↦ r ∷ records_of ss | none ↦ records_of ss ]
