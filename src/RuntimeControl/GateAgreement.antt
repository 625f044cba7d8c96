-- ===== src/RuntimeControl/GateAgreement.antt =====
-- The collection gate and the reported state agree (runtime-control/gate.js, apply-document.js).
use frontend_observability.Base.{
  ℕ, ◌≤◌, ◌<◌, ◌≡◌, ◌≢◌, ◌↔◌, refl, Bool, true, false, Option, none, some, List, [], ◌∷◌, arith,
  is_some,
}
use frontend_observability.RuntimeControl.Registry.{
  Document, Registry, RuntimeControlState, create_initial_registry, fresh, refreshing, degraded,
  expired, invalid, rollback_rejected, kill_switched,
}
use frontend_observability.RuntimeControl.Document.{is_document_live}
use frontend_observability.RuntimeControl.Apply.{
  FetchResult, fetched, failed, document_invalid, transport, apply_fetch_outcome,
  compute_runtime_control_state, is_collection_gate_open,
}
use frontend_observability.RuntimeControl.Latch.{run_outcomes}

-- The gate is open exactly while a document on file is unexpired and the latch is not set.
pub gate_open_iff :
    (r : Registry) (now : ℕ)
    → (is_collection_gate_open r now ≡ true) ↔ (
        (r.has_applied_once ≡ true)
        × (r.kill_switch_latched ≡ false)
        × ((d : Document) × (e : ℕ) × (r.current_document ≡ some d)
            × (d.expires_at.parsed ≡ some e)
            × (now < e)))
unfolding is_collection_gate_open is_document_live
gate_open_iff r now = (to, from)
  where
    live_at :
        (o : Option Document)
        → is_document_live o now ≡ true
        → (d : Document) × (e : ℕ) × (o ≡ some d) × (d.expires_at.parsed ≡ some e) × (now < e)
    live_at none h = cc
    live_at (some d) h = expiry d.expires_at.parsed refl
      where
        expiry :
            (p : Option ℕ)
            → d.expires_at.parsed ≡ p
            → (d' : Document) × (e : ℕ) × (◌≡◌ {A = Option Document} (some d) (some d'))
              × (d'.expires_at.parsed ≡ some e)
              × (now < e)
        expiry none q = cc
        expiry (some e) q = (d, e, refl, q, ground arith)

    to :
        is_collection_gate_open r now ≡ true
        → (r.has_applied_once ≡ true)
          × (r.kill_switch_latched ≡ false)
          × ((d : Document) × (e : ℕ) × (r.current_document ≡ some d)
              × (d.expires_at.parsed ≡ some e)
              × (now < e))
    to h = (ground arith, ground arith, live_at r.current_document (ground arith))

    from :
        (r.has_applied_once ≡ true)
          × (r.kill_switch_latched ≡ false)
          × ((d : Document) × (e : ℕ) × (r.current_document ≡ some d)
              × (d.expires_at.parsed ≡ some e)
              × (now < e))
        → is_collection_gate_open r now ≡ true
    from (applied, open_latch, (d, e, c, p, lt)) = ground arith

live_before :
    (o : Option Document) (t u : ℕ)
    → t ≤ u
    → is_document_live o u ≡ true
    → is_document_live o t ≡ true
unfolding is_document_live
live_before none t u h l = cc
live_before (some d) t u h l = ground arith

-- The time of the last outcome.
abbrev pub last_time : ℕ → List (FetchResult × ℕ) → ℕ
last_time t [] = t
last_time t ((result, now) ∷ rest) = last_time now rest

-- What the last outcome's state says of the document on file, at the time of that outcome.
pub record IsTimely (r : Registry) (t : ℕ) : Type 0 where
  pub applied : r.has_applied_once ≡ is_some r.current_document
  pub recorded : r.last_outcome_state ≡ none → r.has_applied_once ≡ false
  pub lapsed : r.last_outcome_state ≡ some expired → is_document_live r.current_document t ≡ false
  pub not_switched : r.last_outcome_state ≢ some kill_switched
  pub usable : (r.last_outcome_state ≡ some fresh) → r.has_applied_once ≡ true
  pub degrades : (r.last_outcome_state ≡ some degraded) → r.has_applied_once ≡ true
  pub rolled : (r.last_outcome_state ≡ some rollback_rejected) → r.has_applied_once ≡ true
  pub not_refreshing : r.last_outcome_state ≢ some refreshing

apply_fetch_outcome-IsTimely :
    (r : Registry) (t : ℕ) (result : FetchResult) (now : ℕ)
    → IsTimely r t
    → IsTimely (apply_fetch_outcome r result now).0 now
unfolding apply_fetch_outcome is_document_live
apply_fetch_outcome-IsTimely r t (fetched d) now v = ground arith
apply_fetch_outcome-IsTimely r t (failed (document_invalid why)) now v = ground arith
apply_fetch_outcome-IsTimely r t (failed (transport why)) now v = ground arith

run_outcomes-IsTimely :
    (r : Registry) (t : ℕ) (outcomes : List (FetchResult × ℕ))
    → IsTimely r t
    → IsTimely (run_outcomes r outcomes) (last_time t outcomes)
unfolding run_outcomes
run_outcomes-IsTimely r t [] v = v
run_outcomes-IsTimely r t ((result, now) ∷ rest) v =
    run_outcomes-IsTimely (apply_fetch_outcome r result now).0 now rest
      (apply_fetch_outcome-IsTimely r t result now v)

-- Whether collection is on under a reported state; `invalid` leaves it as it was.
abbrev pub admits : RuntimeControlState → Bool → Bool
admits expired has_document = false
admits kill_switched has_document = false
admits invalid has_document = has_document
admits _ has_document = true

agreement :
    (r : Registry) (t now : ℕ)
    → IsTimely r t
    → t ≤ now
    → is_collection_gate_open r now
      ≡ admits (compute_runtime_control_state r now) r.has_applied_once
unfolding is_collection_gate_open compute_runtime_control_state
agreement r t now v h = ground (arith, live_before r.current_document t now h)

-- From a fresh page, after any outcomes, at any time from the last of them on, and whether or not a
-- refresh is under way, the gate is open exactly if the reported state is one that admits collection: never
-- while the state is expired or kill-switched, always while it is fresh, refreshing, degraded or
-- rollback-rejected, and under `invalid` exactly if a document was applied before.
pub gate_agrees_with_state :
    (outcomes : List (FetchResult × ℕ)) (busy : Bool) (now : ℕ)
    → last_time 0 outcomes ≤ now
    → let r : Registry = record (run_outcomes create_initial_registry outcomes) {
      currently_refreshing = busy;
    } in
      is_collection_gate_open r now
      ≡ admits (compute_runtime_control_state r now) r.has_applied_once
gate_agrees_with_state outcomes busy now h =
    let v = run_outcomes-IsTimely create_initial_registry 0 outcomes first in
    agreement _ (last_time 0 outcomes) now
      (record {
        applied = v.applied;
        recorded = v.recorded;
        lapsed = v.lapsed;
        not_switched = v.not_switched;
        usable = v.usable;
        degrades = v.degrades;
        rolled = v.rolled;
        not_refreshing = v.not_refreshing;
      })
      h
  where
    first : IsTimely create_initial_registry 0
    first = ground arith
