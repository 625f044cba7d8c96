-- ===== src/RuntimeControl/Bookkeeping.antt =====
-- The counters of the registry under any sequence of fetch outcomes
-- (runtime-control/apply-document.js).
use frontend_observability.Base.{
  ℕ, ◌+◌, ◌≡◌, refl, List, [], ◌∷◌, arith, length, if◌then◌else◌, is_some, ltb,
}
use frontend_observability.RuntimeControl.Registry.{Registry, create_initial_registry}
use frontend_observability.RuntimeControl.Apply.{
  FetchResult, fetched, failed, document_invalid, transport, apply_fetch_outcome,
}
use frontend_observability.RuntimeControl.Latch.{run_outcomes}

-- Every applied outcome is counted once: as a success, a transport failure, an invalid document or
-- a rollback.
abbrev pub outcomes_counted : Registry → ℕ
outcomes_counted r =
    r.counters.refresh_succeeded + r.counters.refresh_failed + r.counters.invalid_rejected
    + r.counters.rollback_rejected_count

pub record IsConsistent (r : Registry) : Type 0 where
  pub applied : r.has_applied_once ≡ is_some r.current_document
  pub activations : r.counters.kill_switch_activated ≡ (if r.kill_switch_latched then 1 else 0)
  pub latch : r.kill_switch_active ≡ r.kill_switch_latched

pub apply_fetch_outcome-counted :
    (r : Registry) (result : FetchResult) (now : ℕ)
    → outcomes_counted (apply_fetch_outcome r result now).0 ≡ outcomes_counted r + 1
unfolding apply_fetch_outcome
apply_fetch_outcome-counted r (fetched d) now = ground arith
apply_fetch_outcome-counted r (failed (document_invalid why)) now = ground arith
apply_fetch_outcome-counted r (failed (transport why)) now = ground arith

pub apply_fetch_outcome-IsConsistent :
    (r : Registry) (result : FetchResult) (now : ℕ)
    → IsConsistent r
    → IsConsistent (apply_fetch_outcome r result now).0
unfolding apply_fetch_outcome
apply_fetch_outcome-IsConsistent r (fetched d) now c = ground arith
apply_fetch_outcome-IsConsistent r (failed (document_invalid why)) now c = ground arith
apply_fetch_outcome-IsConsistent r (failed (transport why)) now c = ground arith

-- The last outcome asked for a backoff exactly when failures are on record.
pub apply_fetch_outcome-backoff :
    (r : Registry) (result : FetchResult) (now : ℕ)
    → (apply_fetch_outcome r result now).1
      ≡ ltb 0 (apply_fetch_outcome r result now).0.consecutive_failures
unfolding apply_fetch_outcome
apply_fetch_outcome-backoff r (fetched d) now = ground arith
apply_fetch_outcome-backoff r (failed (document_invalid why)) now = ground arith
apply_fetch_outcome-backoff r (failed (transport why)) now = ground arith

run_outcomes-IsConsistent :
    (r : Registry) (outcomes : List (FetchResult × ℕ))
    → IsConsistent r
    → IsConsistent (run_outcomes r outcomes)
      × (outcomes_counted (run_outcomes r outcomes) ≡ outcomes_counted r + length outcomes)
unfolding run_outcomes
run_outcomes-IsConsistent r [] c = (c, omega arith)
run_outcomes-IsConsistent r ((result, now) ∷ rest) c =
    let next = (apply_fetch_outcome r result now).0 in
    let (consistent, counted) =
      run_outcomes-IsConsistent next rest (apply_fetch_outcome-IsConsistent r result now c) in
    (consistent, omega (arith, apply_fetch_outcome-counted r result now, counted))

-- From a fresh page, after any outcomes: each is counted exactly once; a document is on file exactly
-- when one was applied; the kill switch is reported active exactly when it is latched, and was
-- counted as activated once if so and never otherwise.
pub registry_accounts :
    (outcomes : List (FetchResult × ℕ))
    → IsConsistent (run_outcomes create_initial_registry outcomes)
      × (outcomes_counted (run_outcomes create_initial_registry outcomes) ≡ length outcomes)
registry_accounts outcomes =
    let (consistent, counted) =
      run_outcomes-IsConsistent create_initial_registry outcomes
        (record { applied = refl; activations = refl; latch = refl }) in
    (consistent, omega (arith, counted))
