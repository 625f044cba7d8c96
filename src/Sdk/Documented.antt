-- ===== src/Sdk/Documented.antt =====
-- Which document is on file while a runtime is active (bootstrap/coordinator.js,
-- runtime-control/refresh-engine.js and fetch-document.js).
use frontend_observability.Base.{ℕ, String, ◌≡◌, refl, true, some}
use frontend_observability.RuntimeControl.Registry.{Document, Registry}
use frontend_observability.RuntimeControl.Apply.{FetchResult, fetched}
use frontend_observability.RuntimeControl.Fetch.{Platform, Attempt, fetch_control_document}
use frontend_observability.RuntimeControl.Engine.{
  Engine, Step, initial, started, stopped, fired, woken, settled,
}
use frontend_observability.Sdk.Coordinator.{World, give_up}
use frontend_observability.Sdk.Page.{Event, loop_event, History, loads, continues}

-- A document may be on file, and which.
abbrev pub SameFile : Registry → Registry → Type 0
SameFile r r' =
    (r'.has_applied_once ≡ r.has_applied_once) × (r'.current_document ≡ r.current_document)

give_up-registry :
    (w : World) (ref : ℕ) (why : String) (now : ℕ)
    → (give_up w ref why now).0.engine.registry ≡ w.engine.registry
unfolding give_up
give_up-registry w ref why now = refl

module _ (p : Platform) where
  -- What a fetch gave.
  abbrev pub Obtained : FetchResult → Type 0
  Obtained result =
      (attempt : Attempt) × (began : ℕ) × (fetch_control_document p attempt began ≡ result)

  abbrev pub StepFetches : {e e' : Engine} → Step e e' → Type 0
  StepFetches (settled f result now a) = Obtained result
  StepFetches initial = Unit
  StepFetches (started is_browser a) = Unit
  StepFetches stopped = Unit
  StepFetches (fired t rest a) = Unit
  StepFetches (woken a) = Unit

  abbrev pub EventFetches : {w w' : World} → Event w w' → Type 0
  EventFetches (loop_event s) = StepFetches s
  EventFetches _ = Unit

  -- In this history each fetch that settles gives what fetchControlDocument makes of some response or
  -- exception.
  abbrev pub Fetches : {now : ℕ} {w : World} → History now w → Type 0
  Fetches loads = Unit
  Fetches (continues h e) = Fetches h × EventFetches e

  -- Once a document has been applied, one that a fetch gave is on file.
  pub record OnFile (r : Registry) : Type 0 where
    pub held :
        r.has_applied_once ≡ true
        → (d : Document) × (r.current_document ≡ some d) × Obtained (fetched d)
