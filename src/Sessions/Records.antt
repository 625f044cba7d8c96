-- ===== src/Sessions/Records.antt =====
-- The records and the counts that the rows of a search come to.
use frontend_observability.Base.{
  ℕ, ◌+◌, ◌≤◌, String, false, Option, none, some, List, [], ◌∷◌, ◌≡◌, refl, sym, ◌∙◌, subst, str_eq,
  eq_iff, if◌then◌else◌, in_either, is_some, includes, length, length-append, arith,
}
use frontend_observability.Base.Json.{
  Value, Num, bool, nat, num, str, object, Fields, get_field, field_names,
}
use frontend_observability.Sessions.Rows.{Row, find_unsafe_key}
use frontend_observability.Sessions.Aggregate.{
  Session, session_id_of, Aggregate, find_session, put_session, take_row, aggregate_row,
  aggregate_rows, empty_aggregate, record_of, record_from, to_record, keep_keys, rounded_ms,
  duration_us, allowed_metadata_keys,
}
use frontend_observability.Sessions.Grouping.{find_session-put_session}

-- No two sessions share an identity.
abbrev pub AreDistinct : List Session → Type 0
AreDistinct [] = Unit
AreDistinct (s ∷ ss) = (find_session s.session_id ss ≡ none) × AreDistinct ss

put_session-AreDistinct :
    (new : Session) (ss : List Session) → AreDistinct ss → AreDistinct (put_session new ss)
put_session-AreDistinct new [] h = (refl, tt)
put_session-AreDistinct new (s ∷ ss) (apart, h) =
    in_either AreDistinct (str_eq s.session_id new.session_id)
      (λ e.
        (subst (λ x. find_session x ss ≡ none) ((eq_iff s.session_id new.session_id).0 e) apart, h))
      (λ e.
        (find_session-put_session s.session_id new ss ∙ other e, put_session-AreDistinct new ss h))
  where
    other :
        str_eq s.session_id new.session_id ≡ false
        → (if str_eq new.session_id s.session_id then some new else find_session s.session_id ss)
          ≡ none
    other e =
        in_either (λ x. x ≡ none) (str_eq new.session_id s.session_id)
          (λ e'. absurd (
            ground (
              arith,
              eq_iff s.session_id new.session_id,
              sym ((eq_iff new.session_id s.session_id).0 e'),
            )))
          (λ e'. apart)

abbrev pub unsafe_count : List Row → ℕ
unsafe_count [] = 0
unsafe_count (row ∷ rows) =
    (if is_some (find_unsafe_key (object row)) then 1 else 0) + unsafe_count rows

module _ (number times_1000 : Value → Num) (print : Value → String) (now_us : ℕ) where
  take_row-AreDistinct :
      (row : Row) (unsafe named : Option String) (a : Aggregate)
      → AreDistinct a.sessions
      → AreDistinct (take_row number times_1000 print now_us row unsafe named a).sessions
  unfolding take_row
  take_row-AreDistinct row (some path) named a h = h
  take_row-AreDistinct row none none a h = h
  take_row-AreDistinct row none (some id) a h = put_session-AreDistinct _ a.sessions h

  rows-AreDistinct :
      (rows : List Row) (a : Aggregate)
      → AreDistinct a.sessions
      → AreDistinct (aggregate_rows number times_1000 print now_us rows a).sessions
  unfolding aggregate_rows aggregate_row
  rows-AreDistinct [] a h = h
  rows-AreDistinct (row ∷ rows) a h = rows-AreDistinct rows _ (take_row-AreDistinct row _ _ a h)

  take_row-counted :
      (row : Row) (unsafe named : Option String) (a : Aggregate)
      → ((take_row number times_1000 print now_us row unsafe named a).unsafe_rejections
          ≡ a.unsafe_rejections + (if is_some unsafe then 1 else 0))
        × (length (take_row number times_1000 print now_us row unsafe named a).diagnostics
            ≡ length a.diagnostics + (if is_some unsafe then 1 else 0))
  unfolding take_row
  take_row-counted row (some path) named a = (omega arith, length-append a.diagnostics _)
  take_row-counted row none none a = (omega arith, omega arith)
  take_row-counted row none (some id) a = (omega arith, omega arith)

  rows-counted :
      (rows : List Row) (a : Aggregate)
      → ((aggregate_rows number times_1000 print now_us rows a).unsafe_rejections
          ≡ a.unsafe_rejections + unsafe_count rows)
        × (length (aggregate_rows number times_1000 print now_us rows a).diagnostics
            ≡ length a.diagnostics + unsafe_count rows)
  unfolding aggregate_rows aggregate_row
  rows-counted [] a = (omega arith, omega arith)
  rows-counted (row ∷ rows) a =
      let (one, more) =
        take_row-counted row (find_unsafe_key (object row))
          (session_id_of (get_field "session_id" row)) a in
      let (all, every) = rows-counted rows (aggregate_row number times_1000 print now_us row a) in
      (omega (arith, one, all), omega (arith, more, every))

  -- Whatever rows are read: no two of the sessions that come of them share an identity, so that at most
  -- one record is written for each.
  pub aggregate_rows-AreDistinct :
      (rows : List Row)
      → AreDistinct (aggregate_rows number times_1000 print now_us rows empty_aggregate).sessions
  aggregate_rows-AreDistinct rows = rows-AreDistinct rows empty_aggregate tt

  -- Whatever rows are read: as many rejections are counted, and as many diagnostics reported, as there
  -- are rows with an unsafe key at any depth.
  pub aggregate_rows-counted :
      (rows : List Row)
      → ((aggregate_rows number times_1000 print now_us rows empty_aggregate).unsafe_rejections
          ≡ unsafe_count rows)
        × (length (aggregate_rows number times_1000 print now_us rows empty_aggregate).diagnostics
            ≡ unsafe_count rows)
  aggregate_rows-counted rows =
      let (rejected, reported) = rows-counted rows empty_aggregate in
      (omega (arith, rejected), omega (arith, reported))

-- The times of a record, its bounds, and what it says of replay and address.
pub record IsMetadata (s : Session) (r : Fields) : Type 0 where
  pub start_ms : ℕ
  pub duration_ms : ℕ
  pub starts : get_field "start" r ≡ num (nat start_ms)
  pub ends : get_field "end" r ≡ num (nat (start_ms + duration_ms))
  pub lasts : get_field "duration" r ≡ num (nat duration_ms)
  pub short : duration_ms ≤ 28800000
  pub named : get_field "session_id" r ≡ str s.session_id
  pub dated : get_field "_timestamp" r ≡ num (nat s.end_us)
  pub no_replay : get_field "session_has_replay" r ≡ bool false
  pub no_address : get_field "ip" r ≡ str "redacted"
  pub whole : field_names r ≡ allowed_metadata_keys

record_of-IsMetadata :
    (s : Session) (start : ℕ) → IsMetadata s (keep_keys allowed_metadata_keys (record_of start s))
unfolding record_of includes
record_of-IsMetadata s start = record {
  start_ms = rounded_ms start;
  duration_ms = rounded_ms (duration_us start s.end_us);
  starts = refl;
  ends = refl;
  lasts = refl;
  short = omega arith;
  named = refl;
  dated = refl;
  no_replay = refl;
  no_address = refl;
  whole = refl;
}

record_from-IsMetadata :
    (o : Option ℕ) (s : Session) (r : Fields) → record_from o s ≡ some r → IsMetadata s r
unfolding record_from
record_from-IsMetadata none s r h = cc
record_from-IsMetadata (some start) s r h =
    subst (IsMetadata s) (some_injective h) (record_of-IsMetadata s start)
  where
    some_injective : {a b : Fields} → some a ≡ some b → a ≡ b
    some_injective e = cc

-- A record that is made of a session has exactly the allowed fields, it bears the session's identity and
-- its last time, it ends its duration after it starts, it lasts 8 hours at most, and it has neither a
-- replay nor an address.
pub to_record-IsMetadata : (s : Session) (r : Fields) → to_record s ≡ some r → IsMetadata s r
unfolding to_record
to_record-IsMetadata s r h = record_from-IsMetadata s.start s r h
