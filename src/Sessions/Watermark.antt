-- ===== src/Sessions/Watermark.antt =====
-- When the watermark moves, and how far the windows of two cycles reach.
use frontend_observability.Base.{
  ℕ, String, Bool, true, false, Option, none, some, List, [], ◌∷◌, ◌++◌, ◌≡◌, refl, sym, subst, ◌⊎◌,
  inl, inr, ltb, if◌then◌else◌,
}
use mathlib.Core.List.{append-nil}
use frontend_observability.Base.Json.{Value, Num}
use frontend_observability.Base.Try.{Try, done, failed, done_injective, not_failed, bind-done}
use frontend_observability.Sessions.Rows.{Row}
use frontend_observability.Sessions.Aggregate.{records_of}
use frontend_observability.Sessions.Sync.{
  SyncState, IngestAnswer, Answers, Write, stores_sessions, stores_diagnostics, moves_watermark,
  SyncResult, run_stages, store_all, ingest_json, write_watermark, advance, next_watermark,
  max_row_timestamp, aggregate_of, stages_of, settle_cycle, sync_rows, finish_cycle, attempt,
  sync_once, search_rum_rows,
}

-- What is stored of a list: nothing of one that is empty.
abbrev pub stored {ℓ} : {A : Type ℓ} → (List A → Write) → List A → List Write
stored wrote [] = []
stored wrote (x ∷ xs) = wrote (x ∷ xs) ∷ []

store_all-done {ℓ} :
    {A : Type ℓ} (wrote : List A → Write) (stream : String) (answer : IngestAnswer) (xs : List A)
    {ws : List Write}
    → store_all wrote stream answer xs ≡ done ws
    → ws ≡ stored wrote xs
store_all-done wrote stream answer [] h = done_injective h refl
store_all-done wrote stream answer (x ∷ xs) h =
    let (u, asked, e) = bind-done (ingest_json stream answer) h in done_injective e refl

write_watermark-done :
    (to : ℕ) (write : Option String) {ws : List Write}
    → write_watermark to write ≡ done ws
    → ws ≡ moves_watermark to ∷ []
write_watermark-done to none h = done_injective h refl
write_watermark-done to (some message) h = absurd (not_failed h)

advance-done :
    (wm : ℕ) (o : Option ℕ) (write : Option String) {ws : List Write}
    → advance wm o write ≡ done ws
    → (next_watermark wm o ≡ wm)
      ⊎ ((ltb wm (next_watermark wm o) ≡ true) × (ws ≡ moves_watermark (next_watermark wm o) ∷ []))
advance-done wm none write h = inl refl
advance-done wm (some m) write {ws} h = decided (ltb wm m) refl h
  where
    decided :
        (b : Bool)
        → ltb wm m ≡ b
        → (if b then write_watermark m write else done []) ≡ done ws
        → ((if b then m else wm) ≡ wm)
          ⊎ ((ltb wm (if b then m else wm) ≡ true)
              × (ws ≡ moves_watermark (if b then m else wm) ∷ []))
    decided true e h' = inr (e, write_watermark-done m write h')
    decided false e h' = inl refl

run_three :
    (a b c : Try String (List Write))
    → ((message : String) × ((run_stages (a ∷ b ∷ c ∷ [])).1 ≡ some message))
      ⊎ ((x : List Write) × (y : List Write) × (z : List Write) × (a ≡ done x)
          × (b ≡ done y)
          × (c ≡ done z)
          × (run_stages (a ∷ b ∷ c ∷ []) ≡ (x ++ (y ++ (z ++ [])), none)))
run_three (failed m) b c = inl (m, refl)
run_three (done x) (failed m) c = inl (m, refl)
run_three (done x) (done y) (failed m) = inl (m, refl)
run_three (done x) (done y) (done z) = inr (x, y, z, refl, refl, refl, refl)

all_stored :
    {x y z u v w : List Write} → x ≡ u → y ≡ v → z ≡ w → x ++ (y ++ (z ++ [])) ≡ u ++ (v ++ w)
all_stored {w = w} e1 e2 e3 = rw (e1, e2, e3) (rw (append-nil w) refl)

module _ (number times_1000 : Value → Num) (print : Value → String) where
  -- The watermark stays, or it moves on, and then everything that was read is written: the records, then
  -- the diagnostics, then the watermark.
  abbrev pub StoresFirst : SyncState → ℕ → Try String (List Row) → SyncResult → Type 0
  StoresFirst s now_ms searched r =
      (r.state.watermark_us ≡ s.watermark_us)
      ⊎ ((rows : List Row) × (searched ≡ done rows)
          × (ltb s.watermark_us r.state.watermark_us ≡ true)
          × (r.error ≡ none)
          × (r.writes
              ≡ stored stores_sessions
                  (records_of (aggregate_of number times_1000 print now_ms rows).sessions)
                ++ (stored stores_diagnostics
                      (aggregate_of number times_1000 print now_ms rows).diagnostics
                    ++ moves_watermark r.state.watermark_us ∷ [])))

  finish_cycle-failed :
      (s : SyncState) (now_ms wm : ℕ) (p : List Write × Option String) (message : String)
      → p.1 ≡ some message
      → (finish_cycle number times_1000 print s now_ms wm p).state.watermark_us ≡ s.watermark_us
  unfolding settle_cycle
  finish_cycle-failed s now_ms wm (ws, some m) message h = refl
  finish_cycle-failed s now_ms wm (ws, none) message h = cc

  sync_rows-StoresFirst :
      (s : SyncState) (now_ms : ℕ) (answers : Answers) (searched : Try String (List Row))
      → StoresFirst s now_ms searched (sync_rows number times_1000 print s now_ms answers searched)
  unfolding sync_rows settle_cycle stages_of
  sync_rows-StoresFirst s now_ms answers (failed message) = inl refl
  sync_rows-StoresFirst s now_ms answers (done rows) =
      let records = records_of (aggregate_of number times_1000 print now_ms rows).sessions in
      let diagnostics = (aggregate_of number times_1000 print now_ms rows).diagnostics in
      let latest = max_row_timestamp number times_1000 print rows (some s.watermark_us) in
      let one = store_all stores_sessions "_sessionreplay" answers.sessions_ingest records in
      let two =
        store_all stores_diagnostics "_frontend_observability_session_metadata_sync"
          answers.diagnostics_ingest diagnostics in
      let three = advance s.watermark_us latest answers.watermark_write in
      let attempted = attempt number times_1000 print s now_ms rows in
      let to = next_watermark s.watermark_us latest in
      elim (run_three one two three) [
        | inl (message, e) ↦ inl (
            finish_cycle-failed attempted now_ms to (run_stages (one ∷ two ∷ three ∷ [])) message e)
        | inr (x, y, z, e1, e2, e3, ran) ↦
            subst
              (λ p.
                StoresFirst s now_ms (done rows)
                  (finish_cycle number times_1000 print attempted now_ms to p))
              (sym ran)
              (elim (advance-done s.watermark_us latest answers.watermark_write e3) [
                | inl still ↦ inl still
                | inr (moved, wrote) ↦ inr (
                  rows,
                  refl,
                  moved,
                  refl,
                  all_stored (store_all-done stores_sessions _ _ records e1)
                      (store_all-done stores_diagnostics _ _ diagnostics e2) wrote,
                )
              ])
      ]

  -- In a cycle, whatever its requests meet: the watermark stays where it is, or else it moves on, the
  -- search returned rows, nothing failed, and what was written is the records of all sessions in those
  -- rows, then the diagnostics of all that were rejected, then the new watermark.
  pub sync_once-StoresFirst :
      (s : SyncState) (now_ms : ℕ) (answers : Answers)
      → StoresFirst s now_ms
          (search_rum_rows answers.schema answers.search)
          (sync_once number times_1000 print s now_ms answers)
  unfolding sync_once
  sync_once-StoresFirst s now_ms answers =
      sync_rows-StoresFirst s now_ms answers (search_rum_rows answers.schema answers.search)
