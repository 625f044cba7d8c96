-- ===== src/Lib.antt =====
-- The frontend observability platform: a browser package that collects actions and errors of a page, an
-- ingest service that admits them, a broker, and a worker that delivers them to OpenObserve. A narrow
-- control document with a kill switch governs all three: the page fetches it again and again, the ingest
-- asks for it on each request, and the worker is held by a file that is made from it.
--
-- Base: what the other modules share. Base/Tests has Boolean tests, Base/Lists lists over the native
-- numbers, Base/Json the values of a program (JSON and undefined), Base/Text texts as lists of code units
-- with the functions of String that the source calls on them, Base/Regex regular expressions with the
-- search and the replacement of JavaScript, Base/Try computations that return or throw.
--
-- RuntimeControl: packages/browser-observability/src/runtime-control. Registry is registry.js and
-- constants.js, Document validate-document.js and document-lifetime.js, Apply apply-document.js with
-- gate.js and status.js, Schedule jitter.js and the delays of refresh-engine.js, Engine the rest of
-- refresh-engine.js, DuplicateKeys duplicate-keys.js, Fetch fetch-document.js. Latch, Bookkeeping,
-- GateAgreement, Validation, Delay, Loop and FailClosed are proofs, named for what they prove.
--
-- Sdk: the package around it. Reasons and Counters are diagnostics/, Correlation the context of
-- correlation/, NativeContext and Enrichment the rest of it, Options config/validate-options.js,
-- Configuration the rest of config/, Lifecycle lifecycle/transitions.js and state-machine.js, Consent
-- consent/consent-manager.js, Recording actions/record-action.js and errors/record-error.js, Coordinator
-- bootstrap/coordinator.js with bootstrap/runtime-registry.js and lifecycle/shutdown.js, Page the events
-- of a page in any order. Machine, Privacy, Inactive, Activation, Orphan, Documented, Unforged, Governed
-- and Accepted are proofs.
--
-- Sanitization: packages/browser-observability/src/sanitization. Patterns and Strings are detectors/ and
-- sanitizers/string.js, Results diagnostics/ and limits/, Attributes, Actions, Errors, Urls and Events
-- the sanitizers of those names, Urls with policy/. Bounds, Removed and Kept are proofs.
--
-- Delivery: apps/telemetry-delivery-worker/src and the parts of packages/telemetry-delivery-core/src that
-- it uses. Routing is constants.js, rabbitmq.js and openobserve.js, Patterns and Redaction are
-- redaction.js, Payload the building of messages in payload.js, Messages the handler of runtime.js,
-- Control control-state.js, Consumers the holding and resuming of runtime.js. NoLoss, Counting, Fate,
-- Holding, Clean, Redacted, Shape and Scoped are proofs.
--
-- Ingest: apps/telemetry-ingest/src. Guard is runtime-control.js, Admission server.js with
-- validateAdmissionRequest of packages/telemetry-delivery-core/src/payload.js. Agreement and Admitted are
-- proofs.
--
-- ControlPlane: apps/observability-control-plane/src. Documents is the control documents of io.js, Store
-- the part of state.js that deals with them. Revisions and Holds are proofs.
--
-- Sessions: apps/session-metadata-sync/src/sync.js. Rows is what is read of a row, Aggregate the sessions
-- and their records, Sync a cycle. Grouping, Records, Watermark and Windows are proofs.
--
-- How the code is rendered. An object is a record, and a function that changes it returns the new record.
-- A function that awaits is split at its awaits, and what the awaited promise gave is an argument; the
-- orders in which the event loop may run the parts are the constructors of a step relation
-- (RuntimeControl/Engine, Sdk/Page). Runtime objects live in a store and are named by references, since a
-- start or a shutdown keeps its object across an await while another may take its place. Timers and
-- listeners are those that the page really holds, beside the handle and the flag that the code keeps of
-- them. Times are milliseconds counted from the earliest date, so they are natural numbers. JSON.parse,
-- JSON.stringify, Date.parse, the URL class, decodeURI, encodeURIComponent and the coding of UTF-8 are
-- parameters; whether an adapter's call throws, what a sanitizer decides, what a request met and whether
-- the broker confirms are arguments. The offset of the jitter is rounded exactly where the source rounds
-- a double.
--
-- Loops. The scan for duplicate keys runs on as much fuel as its text has units, and each round takes a
-- unit or more. The journey of a message runs on fuel, and sixteen rounds are shown to be enough. A
-- repetition in a pattern goes on for as many rounds as characters are left, since a round that takes
-- none is not tried again, and a numeral has no more digits than its number plus one, its fuel. All other
-- loops are structural recursion.
--
-- Not modelled: the OpenObserve adapter, the control plane's configuration documents, the status
-- snapshot. Nor are health servers, operational summaries, connections to the broker, and the scripts,
-- which are input and output and orchestration.
pub mod Base
pub mod RuntimeControl
pub mod Sdk
pub mod Delivery
pub mod Ingest
pub mod ControlPlane
pub mod Sessions
pub mod Sanitization
