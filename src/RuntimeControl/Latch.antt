-- ===== src/RuntimeControl/Latch.antt =====
-- The kill-switch latch and the revision order under any sequence of fetch outcomes
-- (runtime-control/apply-document.js, gate.js).
use frontend_observability.Base.{ℕ, ◌≤◌, ◌≡◌, true, false, List, [], ◌∷◌, arith}
use frontend_observability.RuntimeControl.Registry.{Registry, kill_switched}
use frontend_observability.RuntimeControl.Apply.{
  FetchResult, fetched, failed, document_invalid, transport, revision_rank, apply_fetch_outcome,
  compute_runtime_control_state, is_collection_gate_open,
}

-- The outcomes of successive refresh cycles, each with the time at which it is applied.
unfoldable pub run_outcomes : Registry → List (FetchResult × ℕ) → Registry
run_outcomes r [] = r
run_outcomes r ((result, now) ∷ rest) = run_outcomes (apply_fetch_outcome r result now).0 rest

pub apply_fetch_outcome-latched :
    (r : Registry) (result : FetchResult) (now : ℕ)
    → r.kill_switch_latched ≡ true
    → (apply_fetch_outcome r result now).0.kill_switch_latched ≡ true
unfolding apply_fetch_outcome
apply_fetch_outcome-latched r (fetched d) now h = ground arith
apply_fetch_outcome-latched r (failed (document_invalid why)) now h = ground arith
apply_fetch_outcome-latched r (failed (transport why)) now h = ground arith

pub run_outcomes-latched :
    (r : Registry) (outcomes : List (FetchResult × ℕ))
    → r.kill_switch_latched ≡ true
    → (run_outcomes r outcomes).kill_switch_latched ≡ true
unfolding run_outcomes
run_outcomes-latched r [] h = h
run_outcomes-latched r ((result, now) ∷ rest) h =
    run_outcomes-latched (apply_fetch_outcome r result now).0 rest
      (apply_fetch_outcome-latched r result now h)

-- Once the kill switch has latched, then after any outcomes of later fetches, whatever documents
-- they bring, the gate is closed at every time and the reported state is kill-switched.
pub latch_is_final :
    (r : Registry) (outcomes : List (FetchResult × ℕ)) (now : ℕ)
    → r.kill_switch_latched ≡ true
    → (is_collection_gate_open (run_outcomes r outcomes) now ≡ false)
      × (compute_runtime_control_state (run_outcomes r outcomes) now ≡ kill_switched)
unfolding is_collection_gate_open compute_runtime_control_state
latch_is_final r outcomes now h =
    let latched = run_outcomes-latched r outcomes h in (ground arith, ground arith)

pub apply_fetch_outcome-revision :
    (r : Registry) (result : FetchResult) (now : ℕ)
    → revision_rank r.current_document
      ≤ revision_rank (apply_fetch_outcome r result now).0.current_document
unfolding apply_fetch_outcome
apply_fetch_outcome-revision r (fetched d) now = ground arith
apply_fetch_outcome-revision r (failed (document_invalid why)) now = ground arith
apply_fetch_outcome-revision r (failed (transport why)) now = ground arith

-- The revision on file never falls, and a document once on file is never taken off: no sequence of
-- fetch outcomes rolls the registry back.
pub run_outcomes-revision :
    (r : Registry) (outcomes : List (FetchResult × ℕ))
    → revision_rank r.current_document ≤ revision_rank (run_outcomes r outcomes).current_document
unfolding run_outcomes
run_outcomes-revision r [] = omega arith
run_outcomes-revision r ((result, now) ∷ rest) = omega (
  arith,
  apply_fetch_outcome-revision r result now,
  run_outcomes-revision (apply_fetch_outcome r result now).0 rest,
)
