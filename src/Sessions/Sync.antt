-- ===== src/Sessions/Sync.antt =====
-- apps/session-metadata-sync/src/sync.js: a cycle of the synchronization.
--
-- What each request met is an argument, and so is whether the watermark's file could be written; an
-- error is its message. Times are milliseconds, where the source prints some of them. A `_timestamp`
-- reads as a whole number or NaN, and the watermark on file is a
-- whole number that is not negative, as the maxima that writeWatermark stores.
use Prim.Native.Char.{code}
use Prim.Native.String
use frontend_observability.Base.{
  ℕ, ◌+◌, ◌-◌, ◌*◌, max, String, Bool, true, false, not, ◌&&◌, ◌||◌, Option, none, some, List, [],
  ◌∷◌, ◌++◌, ◌==◌, ltb, if◌then◌else◌, includes,
}
use frontend_observability.Base.Json.{
  Value, num, Num, nat, negative, str, array, Fields, Elements, no_element, element, get, get_field,
  slice_units, decimal,
}
use frontend_observability.Base.Regex.{one, some_of, replace_all}
use frontend_observability.Base.Text.{is_space}
use frontend_observability.Base.Try.{Try, done, failed, ◌>>=◌}
use frontend_observability.Sessions.Rows.{Row, nullish}
use frontend_observability.Sessions.Aggregate.{
  Diagnostic, Aggregate, aggregate_rows, empty_aggregate, records_of,
}

pub data ErrorCode : Type 0 where
  openobserve_search_failed openobserve_ingest_failed missing_environment_variable
        session_metadata_sync_failed :
      ErrorCode

-- `message.startsWith(prefix)`
abbrev pub starts_with : String → String → Bool
starts_with String.[] s = true
starts_with (String.◌∷◌ c p) String.[] = false
starts_with (String.◌∷◌ c p) (String.◌∷◌ d s) = code c == code d && starts_with p s

unfoldable pub classify_sync_error : String → ErrorCode
classify_sync_error message =
    if starts_with "openobserve_search_failed" message
    then openobserve_search_failed
    else if starts_with "openobserve_ingest_failed" message
    then openobserve_ingest_failed
    else if starts_with "missing required environment variable" message
    then missing_environment_variable
    else session_metadata_sync_failed

pub record SyncOptions : Type 0 where
  pub lookback_ms : ℕ
  pub limit : ℕ

pub record SyncState : Type 0 where
  pub initialized : Bool
  pub last_attempt_at : Option ℕ
  pub last_successful_sync_at : Option ℕ
  pub watermark_us : ℕ
  pub lag_us : Option Num
  pub unsafe_rejections : ℕ
  pub last_error_code : Option ErrorCode

-- Of the file's content, none where it cannot be read or parsed.
unfoldable pub read_watermark : Option Value → ℕ
read_watermark none = 0
read_watermark (some parsed) = elim (get "watermarkUs" parsed) [ num (nat n) ↦ n | _ ↦ 0 ]

unfoldable pub create_session_metadata_sync : Option Value → SyncState
unfolding read_watermark
create_session_metadata_sync watermark_file = record {
  initialized = false;
  last_attempt_at = none;
  last_successful_sync_at = none;
  watermark_us = read_watermark watermark_file;
  lag_us = none;
  unsafe_rejections = 0;
  last_error_code = none;
}

-- The answer to the request for the stream's schema: what it parses to, if it does.
pub data SchemaAnswer : Type 0 where
  schema_refused : SchemaAnswer
  schema_body : Option Value → SchemaAnswer
  schema_threw : String → SchemaAnswer

pub data SearchAnswer : Type 0 where
  search_refused : (status : ℕ) → (detail : String) → SearchAnswer
  -- The hits, where they are an array of objects; none where they are no array.
  search_hits : Option (List Row) → SearchAnswer
  search_threw : String → SearchAnswer

pub data IngestAnswer : Type 0 where
  ingest_ok : IngestAnswer
  ingest_refused : (status : ℕ) → IngestAnswer
  ingest_threw : String → IngestAnswer

abbrev pub source_select_candidates : List String
source_select_candidates =
    "_timestamp" ∷ "type" ∷ "session_id" ∷ "view_id" ∷ "action_id" ∷ "error_id"
    ∷ "user_agent_user_agent_family" ∷ "user_agent_os_family" ∷ "user_agent_device_family"
    ∷ "service" ∷ "env" ∷ "version" ∷ "source" ∷ []

abbrev pub names_of : Elements → List String
names_of no_element = []
names_of (element v vs) = elim (get "name" v) [ str s ↦ s ∷ names_of vs | _ ↦ names_of vs ]

abbrev pub schema_names : Option Value → List String
schema_names none = []
schema_names (some body) = elim (get "schema" body) [ array vs ↦ names_of vs | _ ↦ [] ]

unfoldable pub get_stream_fields : SchemaAnswer → Try String (List String)
get_stream_fields schema_refused = done source_select_candidates
get_stream_fields (schema_body body) = done (schema_names body)
get_stream_fields (schema_threw message) = failed message

-- `SOURCE_SELECT_CANDIDATES.filter((field) => availableFields.has(field))`
abbrev pub select_fields : List String → List String → List String
select_fields [] available = []
select_fields (f ∷ fs) available =
    if includes available f then f ∷ select_fields fs available else select_fields fs available

abbrev pub search_failure : ℕ → String → String
search_failure status detail = String.◌++◌ "openobserve_search_failed:" (
    String.◌++◌ (decimal status)
      (String.◌++◌ ":" (slice_units 200 (replace_all (some_of (one is_space)) (λ m. " ") detail))))

abbrev pub rows_of_hits : Option (List Row) → List Row
rows_of_hits none = []
rows_of_hits (some rows) = rows

unfoldable pub answered_rows : SearchAnswer → Try String (List Row)
answered_rows (search_refused status detail) = failed (search_failure status detail)
answered_rows (search_hits hits) = done (rows_of_hits hits)
answered_rows (search_threw message) = failed message

-- Behind the choice of the fields.
abbrev pub search_fields : List String → SearchAnswer → Try String (List Row)
search_fields fields search =
    if not (includes fields "_timestamp") || not (includes fields "session_id")
    then done []
    else answered_rows search

unfoldable pub search_rum_rows : SchemaAnswer → SearchAnswer → Try String (List Row)
unfolding get_stream_fields answered_rows
search_rum_rows schema search = do
  available ← get_stream_fields schema
  search_fields (select_fields source_select_candidates available) search

unfoldable pub ingest_json : (stream : String) → IngestAnswer → Try String (Unit {0})
ingest_json stream ingest_ok = done tt
ingest_json stream (ingest_refused status) = failed (
    String.◌++◌ "openobserve_ingest_failed:"
      (String.◌++◌ stream (String.◌++◌ ":" (decimal status))))
ingest_json stream (ingest_threw message) = failed message

-- What has been written.
pub data Write : Type 0 where
  stores_sessions : List Fields → Write
  stores_diagnostics : List Diagnostic → Write
  moves_watermark : ℕ → Write

-- The start of the window that a cycle searches, which ends now.
unfoldable pub window_start : SyncOptions → ℕ → ℕ → ℕ
window_start options watermark_us now_ms =
    if ltb 0 watermark_us
    then watermark_us - options.lookback_ms * 1000
    else now_ms * 1000 - options.lookback_ms * 1000

-- `Math.max(max, ts)`, none for NaN.
abbrev pub max_timestamp : Option ℕ → Num → Option ℕ
max_timestamp none ts = none
max_timestamp (some m) (nat n) = some (max m n)
max_timestamp (some m) (negative n) = some m
max_timestamp (some m) _ = none

-- What the cycle met.
pub record Answers : Type 0 where
  pub schema : SchemaAnswer
  pub search : SearchAnswer
  pub sessions_ingest : IngestAnswer
  pub diagnostics_ingest : IngestAnswer
  -- The message of the exception, where the watermark's file cannot be written.
  pub watermark_write : Option String

-- The writes of the stages in turn, until one fails.
abbrev pub run_stages : List (Try String (List Write)) → List Write × Option String
run_stages [] = ([], none)
run_stages (failed message ∷ stages) = ([], some message)
run_stages (done writes ∷ stages) = let (more, error) = run_stages stages in (writes ++ more, error)

-- A stage that has nothing to store asks for nothing.
abbrev pub store_all {ℓ} :
    {A : Type ℓ} → (List A → Write) → String → IngestAnswer → List A → Try String (List Write)
store_all wrote stream answer [] = done []
store_all wrote stream answer (x ∷ xs) = do
  stored ← ingest_json stream answer
  done (wrote (x ∷ xs) ∷ [])

-- `if (maxTimestamp > state.watermarkUs) writeWatermark(...)`
abbrev pub write_watermark : ℕ → Option String → Try String (List Write)
write_watermark to none = done (moves_watermark to ∷ [])
write_watermark to (some message) = failed message

abbrev pub advance : ℕ → Option ℕ → Option String → Try String (List Write)
advance watermark_us none write = done []
advance watermark_us (some m) write =
    if ltb watermark_us m then write_watermark m write else done []

abbrev pub next_watermark : ℕ → Option ℕ → ℕ
next_watermark watermark_us none = watermark_us
next_watermark watermark_us (some m) = if ltb watermark_us m then m else watermark_us

-- `a - b`
abbrev pub difference : ℕ → ℕ → Num
difference a b = if ltb a b then negative (b - a - 1) else nat (a - b)

pub record SyncResult : Type 0 where
  pub state : SyncState
  pub writes : List Write
  pub error : Option String

module _ (number times_1000 : Value → Num) (print : Value → String) where
  -- `rows.reduce(...)` from the watermark.
  unfoldable pub max_row_timestamp : List Row → Option ℕ → Option ℕ
  max_row_timestamp [] m = m
  max_row_timestamp (row ∷ rows) m =
      max_row_timestamp rows
        (max_timestamp m (number (nullish (get_field "_timestamp" row) (num (nat 0)))))

  abbrev pub aggregate_of : ℕ → List Row → Aggregate
  aggregate_of now_ms rows =
      aggregate_rows number times_1000 print (now_ms * 1000) rows empty_aggregate

  unfoldable pub stages_of : SyncState → ℕ → Answers → List Row → List (Try String (List Write))
  stages_of s now_ms answers rows =
      let aggregate = aggregate_of now_ms rows in
      store_all stores_sessions "_sessionreplay" answers.sessions_ingest
        (records_of aggregate.sessions)
      ∷ store_all stores_diagnostics "_frontend_observability_session_metadata_sync"
          answers.diagnostics_ingest aggregate.diagnostics
      ∷ advance s.watermark_us (max_row_timestamp rows (some s.watermark_us))
          answers.watermark_write
      ∷ []

  -- The state behind the stages.
  unfoldable pub settle_cycle : SyncState → ℕ → ℕ → Option String → SyncState
  settle_cycle s now_ms watermark_us (some message) = record s {
    last_error_code = some (classify_sync_error message);
  }
  settle_cycle s now_ms watermark_us none = record s {
    watermark_us = watermark_us;
    initialized = true;
    last_successful_sync_at = some now_ms;
    last_error_code = none;
    lag_us = some (difference (now_ms * 1000) watermark_us);
  }

  abbrev pub finish_cycle : SyncState → ℕ → ℕ → List Write × Option String → SyncResult
  finish_cycle s now_ms watermark_us (writes, error) = record {
    state = settle_cycle s now_ms watermark_us error;
    writes = writes;
    error = error;
  }

  -- Behind the aggregation.
  abbrev pub attempt : SyncState → ℕ → List Row → SyncState
  attempt s now_ms rows = record s {
    last_attempt_at = some now_ms;
    unsafe_rejections = s.unsafe_rejections + (aggregate_of now_ms rows).unsafe_rejections;
  }

  unfoldable pub sync_rows : SyncState → ℕ → Answers → Try String (List Row) → SyncResult
  unfolding stages_of settle_cycle
  sync_rows s now_ms answers (failed message) = record {
    state = record s {
      last_attempt_at = some now_ms;
      last_error_code = some (classify_sync_error message);
    };
    writes = [];
    error = some message;
  }
  sync_rows s now_ms answers (done rows) =
      finish_cycle (attempt s now_ms rows) now_ms
        (next_watermark s.watermark_us (max_row_timestamp rows (some s.watermark_us)))
        (run_stages (stages_of s now_ms answers rows))

  unfoldable pub sync_once : SyncState → ℕ → Answers → SyncResult
  unfolding sync_rows search_rum_rows
  sync_once s now_ms answers =
      sync_rows s now_ms answers (search_rum_rows answers.schema answers.search)
