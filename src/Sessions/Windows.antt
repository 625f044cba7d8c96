-- ===== src/Sessions/Windows.antt =====
-- Over any run of cycles, no time between two of them is left out of the searches.
use frontend_observability.Base.{
  ℕ, ◌*◌, ◌≤◌, String, true, Option, none, some, List, [], ◌∷◌, ◌≡◌, sym, subst, inl, inr, ltb,
  in_either, All, arith,
}
use frontend_observability.Base.Json.{
  Value, Num, nat, negative, fraction, not_a_number, infinite, num, get_field,
}
use frontend_observability.Base.Try.{Try, done, failed}
use frontend_observability.Sessions.Rows.{Row, nullish}
use frontend_observability.Sessions.Watermark.{sync_once-StoresFirst}
use frontend_observability.Sessions.Sync.{
  SyncState, SyncOptions, Answers, Write, create_session_metadata_sync, read_watermark,
  next_watermark, max_timestamp, max_row_timestamp, run_stages, stages_of, settle_cycle,
  finish_cycle, attempt, sync_rows, sync_once, search_rum_rows, window_start,
}

clash : {o : Option String} {message : String} → o ≡ none → o ≡ some message → ⊥
clash e f = cc

-- A bound of a maximum, where there is one.
abbrev IsBounded : ℕ → Option ℕ → Type 0
IsBounded b none = Unit
IsBounded b (some m) = m ≤ b

-- A reading is not past that time.
abbrev pub ReadsBy : ℕ → Num → Type 0
ReadsBy b (nat n) = n ≤ b
ReadsBy b _ = Unit

max_timestamp-IsBounded :
    (b : ℕ) (o : Option ℕ) (ts : Num)
    → IsBounded b o
    → ReadsBy b ts
    → IsBounded b (max_timestamp o ts)
max_timestamp-IsBounded b none ts h k = tt
max_timestamp-IsBounded b (some m) (nat n) h k = omega (arith, h, k)
max_timestamp-IsBounded b (some m) (negative n) h k = h
max_timestamp-IsBounded b (some m) (fraction s n p) h k = tt
max_timestamp-IsBounded b (some m) not_a_number h k = tt
max_timestamp-IsBounded b (some m) (infinite s) h k = tt

next_watermark-IsBounded :
    (b wm : ℕ) (o : Option ℕ) → wm ≤ b → IsBounded b o → next_watermark wm o ≤ b
next_watermark-IsBounded b wm none h k = h
next_watermark-IsBounded b wm (some m) h k = in_either (λ x. x ≤ b) (ltb wm m) (λ e. k) (λ e. h)

module _ (number times_1000 : Value → Num) (print : Value → String) where
  -- The search gives rows whose `_timestamp` is not past the end of its window.
  abbrev pub RowsBy : ℕ → Try String (List Row) → Type 0
  RowsBy now_us (failed message) = Unit
  RowsBy now_us (done rows) =
      All (λ row. ReadsBy now_us (number (nullish (get_field "_timestamp" row) (num (nat 0))))) rows

  -- The state that a run of cycles has reached, and the end of the window of the last cycle that
  -- completed.
  pub data History : ℕ → SyncState → Type 0 where
    starts :
        (file : Option Value) (end_us : ℕ)
        → read_watermark file ≤ end_us
        → History end_us (create_session_metadata_sync file)
    completes :
        (end_us : ℕ) (s : SyncState) (now_ms : ℕ) (answers : Answers)
        → History end_us s
        → end_us ≤ now_ms * 1000
        → RowsBy (now_ms * 1000) (search_rum_rows answers.schema answers.search)
        → (sync_once number times_1000 print s now_ms answers).error ≡ none
        → History (now_ms * 1000) (sync_once number times_1000 print s now_ms answers).state
    fails :
        (end_us : ℕ) (s : SyncState) (now_ms : ℕ) (answers : Answers) (message : String)
        → History end_us s
        → (sync_once number times_1000 print s now_ms answers).error ≡ some message
        → History end_us (sync_once number times_1000 print s now_ms answers).state

  max_row_timestamp-IsBounded :
      (b : ℕ) (rows : List Row) (o : Option ℕ)
      → IsBounded b o
      → RowsBy b (done rows)
      → IsBounded b (max_row_timestamp number times_1000 print rows o)
  unfolding max_row_timestamp
  max_row_timestamp-IsBounded b [] o h k = h
  max_row_timestamp-IsBounded b (row ∷ rows) o h (one, k) =
      max_row_timestamp-IsBounded b rows _ (max_timestamp-IsBounded b o _ h one) k

  finish_cycle-bounded :
      (b : ℕ) (s : SyncState) (now_ms wm : ℕ) (p : List Write × Option String)
      → s.watermark_us ≤ b
      → wm ≤ b
      → (finish_cycle number times_1000 print s now_ms wm p).state.watermark_us ≤ b
  unfolding settle_cycle
  finish_cycle-bounded b s now_ms wm (ws, none) h k = k
  finish_cycle-bounded b s now_ms wm (ws, some message) h k = h

  sync_rows-bounded :
      (b : ℕ) (s : SyncState) (now_ms : ℕ) (answers : Answers) (searched : Try String (List Row))
      → s.watermark_us ≤ b
      → RowsBy b searched
      → (sync_rows number times_1000 print s now_ms answers searched).state.watermark_us ≤ b
  unfolding sync_rows
  sync_rows-bounded b s now_ms answers (failed message) h k = h
  sync_rows-bounded b s now_ms answers (done rows) h k =
      finish_cycle-bounded b (attempt number times_1000 print s now_ms rows) now_ms
        (next_watermark s.watermark_us
          (max_row_timestamp number times_1000 print rows (some s.watermark_us)))
        (run_stages (stages_of number times_1000 print s now_ms answers rows)) h
        (next_watermark-IsBounded b s.watermark_us _ h
          (max_row_timestamp-IsBounded b rows (some s.watermark_us) h k))

  History-bounded : (end_us : ℕ) (s : SyncState) → History end_us s → s.watermark_us ≤ end_us
  unfolding sync_once create_session_metadata_sync
  History-bounded _ _ (starts file end_us read) = read
  History-bounded _ _ (completes before s' now_ms answers h later rows fine) =
      sync_rows-bounded (now_ms * 1000) s' now_ms answers
        (search_rum_rows answers.schema answers.search)
        (omega (arith, History-bounded before s' h, later)) rows
  History-bounded _ _ (fails before s' now_ms answers message h failure) =
      elim (sync_once-StoresFirst number times_1000 print s' now_ms answers) [
        | inl still ↦ subst (λ w. w ≤ before) (sym still) (History-bounded before s' h)
        | inr (rows, searched, moved, fine, wrote) ↦ absurd (clash fine failure)
      ]

  -- After any run of cycles, some of which may have failed at any stage, from a watermark that is not in
  -- the future, with a clock that does not run back and searches that return no row past the end of their
  -- window: if there is a watermark, the window of the next cycle starts no later than the window ended
  -- of the last cycle that completed, whenever it is run; no time between them is left out.
  pub windows_meet :
      (options : SyncOptions) (end_us : ℕ) (s : SyncState) (next_ms : ℕ)
      → History end_us s
      → ltb 0 s.watermark_us ≡ true
      → window_start options s.watermark_us next_ms ≤ end_us
  unfolding window_start
  windows_meet options end_us s next_ms h marked =
      rw marked (omega (arith, History-bounded end_us s h))
