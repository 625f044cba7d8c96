-- ===== src/Sessions/Tests.antt =====
-- Examples for the synchronization of session metadata.
use frontend_observability.Base.{
  ℕ, ◌*◌, ◌≤◌, String, true, none, some, List, [], ◌∷◌, ◌≡◌, refl, ltb, arith, includes,
}
use frontend_observability.Base.Json.{
  Value, Num, num, nat, not_a_number, str, object, Fields, end, field,
}
use frontend_observability.Base.Regex.{search_from, ends, many_from}
use frontend_observability.Sessions.Rows.{Row, find_unsafe_key, unsafe_key_pattern}
use frontend_observability.Sessions.Aggregate.{
  Session, create_empty_session, find_session, aggregate_rows, empty_aggregate, to_record,
  record_of, keep_keys, allowed_metadata_keys, extend, add_identities, add_texts, add_row,
  aggregate_row,
}
use frontend_observability.Sessions.Grouping.{own_rows, read_rows, aggregate_rows-read_rows}
use frontend_observability.Sessions.Records.{unsafe_count, IsMetadata, to_record-IsMetadata}
use frontend_observability.Sessions.Sync.{
  Answers, SyncOptions, SyncState, schema_refused, search_hits, ingest_ok,
  create_session_metadata_sync, search_rum_rows, sync_once, window_start, get_stream_fields,
  answered_rows, max_row_timestamp, ingest_json,
}
use frontend_observability.Sessions.Watermark.{StoresFirst, sync_once-StoresFirst}
use frontend_observability.Sessions.Windows.{History, starts, completes, windows_meet}

abbrev number : Value → Num
number (num n) = n
number _ = not_a_number

abbrev times_1000 : Value → Num
times_1000 (num (nat n)) = nat (n * 1000)
times_1000 _ = not_a_number

abbrev print : Value → String
print (str s) = s
print _ = "1"

abbrev row_of : String → ℕ → Row
row_of id ts =
    field "_timestamp" (num (nat ts))
      (field "type" (str "view") (field "session_id" (str id) (field "service" (str "shop") end)))

abbrev unsafe_row : Row
unsafe_row = field "session_id" (str "a") (field "view" (object (field "body" (str "x") end)) end)

abbrev rows : List Row
rows = row_of "a" 5000 ∷ row_of "b" 7000 ∷ unsafe_row ∷ row_of "a" 3000 ∷ []

aggregate_rows-read_rows_example :
    find_session "a" (aggregate_rows number times_1000 print 9000 rows empty_aggregate).sessions
    ≡ read_rows number times_1000 print "a" (own_rows "a" rows) none
aggregate_rows-read_rows_example = aggregate_rows-read_rows number times_1000 print "a" 9000 rows

-- One of the rows is rejected.
one_is_unsafe : unsafe_count rows ≡ 1
unfolding find_unsafe_key unsafe_key_pattern search_from ends many_from includes
one_is_unsafe = refl

abbrev long_session : Session
long_session = record (create_empty_session "a") { start = some 5000; end_us = 90000000000 }

abbrev long_record : Fields
long_record = keep_keys allowed_metadata_keys (record_of 5000 long_session)

long_session_recorded : to_record long_session ≡ some long_record
unfolding to_record create_empty_session
long_session_recorded = refl

to_record-IsMetadata_example : IsMetadata long_session long_record
to_record-IsMetadata_example = to_record-IsMetadata long_session long_record long_session_recorded

abbrev answers : Answers
answers = record {
  schema = schema_refused;
  search = search_hits (some rows);
  sessions_ingest = ingest_ok;
  diagnostics_ingest = ingest_ok;
  watermark_write = none;
}

abbrev fresh : SyncState
fresh = create_session_metadata_sync none

sync_once-StoresFirst_example :
    StoresFirst number times_1000 print fresh 9
      (search_rum_rows answers.schema answers.search)
      (sync_once number times_1000 print fresh 9 answers)
sync_once-StoresFirst_example = sync_once-StoresFirst number times_1000 print fresh 9 answers

abbrev after_one : SyncState
after_one = (sync_once number times_1000 print fresh 9 answers).state

one_cycle : History number times_1000 print 9000 after_one
unfolding search_rum_rows get_stream_fields answered_rows includes sync_once
    create_session_metadata_sync find_unsafe_key unsafe_key_pattern search_from ends many_from
    max_row_timestamp aggregate_rows aggregate_row add_row add_texts add_identities extend
    create_empty_session to_record ingest_json
one_cycle =
    completes 0 fresh 9 answers (starts none 0 (omega arith)) (omega arith)
      (omega arith, (omega arith, (omega arith, (omega arith, tt)))) refl

is_marked : ltb 0 after_one.watermark_us ≡ true
unfolding search_rum_rows get_stream_fields answered_rows includes sync_once
    create_session_metadata_sync find_unsafe_key unsafe_key_pattern search_from ends many_from
    max_row_timestamp aggregate_rows aggregate_row add_row add_texts add_identities extend
    create_empty_session to_record ingest_json
is_marked = refl

abbrev options : SyncOptions
options = record { lookback_ms = 1; limit = 1000 }

windows_meet_example : window_start options after_one.watermark_us 60 ≤ 9000
windows_meet_example =
    windows_meet number times_1000 print options 9000 after_one 60 one_cycle is_marked
