-- ===== src/Lib.antt =====
-- DiffractLLM, a gateway in front of LLM providers: a request carries a virtual key, the key's policy
-- says which models it may use and which budget pays, the data plane picks a deployment, and what the
-- answer used is priced, charged to the budget and written to the usage history.
--
-- The parts, and the files that model them:
--   * Base: numbers, lists, maps and results as the Go code has them. An `int64` is an integer that
--     every operation wraps (`add64`, `sub64`, `neg64`); a map is an association list; a pair of value
--     and error is a `Result`; a pointer that may be nil is an `Option`.
--   * Pricing: internal/core/pricing.go. A price is a function from its 132 fields to optional amounts
--     (Fields, Complete, Merge); each method `xRate` of `Pricing` is `x_rate` (Rates, UnitRates); the
--     callback of `costLines` becomes the list of its calls (Cost). `float64` is a type with the
--     operations that the file uses (Float), and what is assumed of them is in `FloatLaws`.
--   * Governance: internal/governance. Budget is the cache of budgets and its windows (budget.go);
--     Settle is the two jobs that write counters to the database (governance.go), as functions of what
--     the database refuses, and in Settle/Interleaving as a step relation with requests and syncs
--     between their steps; Usage is the buffer of usage records and its flush (usage.go).
--     The virtual keys are in KeyCache (virtualkey.go), authentication and the hooks that admit a
--     request in Admission, and the hook that bills it in Billing, with the order of the hooks.
--   * Core: internal/core. Errors, the names of models and providers (Models, Capabilities), and the
--     policy of a virtual key, compiled once and asked at every request (VirtualKey). KeyFormat is the
--     text of a key and its checksum, Credential a deployment of a provider, Context what a request
--     carries from hook to hook, Hooks the engine that runs them (hooks.go), Money the conversion of a
--     cost to nano dollars (money.go).
--   * Dataplane: Plane is the snapshot of credentials (internal/providerplane/plane.go); Selection
--     picks the credential of a request (internal/dataplane/dataplane.go), reading the plane as a
--     function from catalog keys to credentials; Transport is the loop of attempts, the waits between
--     them and the limit on a body, Clients the addresses that may be dialed, the replacement of clients
--     the report of their settings, and Headers the
--     headers that are sent on and those that are taken away (internal/dataplane/transport.go).
--   * Catalog: internal/modelcatalog/modelcatalog.go. Prices is the base and the custom prices and the
--     choice between them; Models is the list of models with its indexes, the loads, and what the
--     catalog gives to the admission of a request. Feed is the remote source: the parser of its keys and
--     the lists that are built from its rows (internal/modelcatalog/pricing-source.go).
--   * Worker: internal/worker/worker.go. The statistics of a job over its runs (`exec`), the validation
--     of a job and the jobs that are added to a group.
--   * Store: internal/dbstore, the operations that the administration calls. Tables are the rows of
--     virtual keys and budgets and a transaction over them; VirtualKeys and Creation the operations
--     (virtualkeys.go, budget.go); Invariant the runs of all of them, in any order. Credentials
--     is the row of a credential with its secrets (credentials.go).
--   * Metrics: internal/metrics-engine. Events is what `fill` and `capturePayload` record of a request,
--     Stages its stages, Buffer the bounded buffer, Engine the additions and flushes with their retries
--     as steps, Queries the guards in front of the store and the buckets of a range, Recording the hook
--     by which a request records its event (hook.go), and the hooks of the whole gateway.
--   * Server: internal/server. Handler is GenericRequestHandler with all that it calls (handlers.go), Chat the
--     chat completion and its stream (chat.go), Answer the fields of the context that an answer sets,
--     Phases the hooks of the gateway by phase, Serving and Charges how a request comes to its charge,
--     Streams, Kept, Outcomes and Endings how it ends.
--   * Tests: the definitions at concrete inputs.
--
-- A request passes ValidatevKeyAuth, the hooks before the call, Resolve and ServeHTTP, and then the
-- hooks after the provider; they share the context, which each operation here takes and returns.
-- Clocks, generated identifiers, random numbers, SHA-256, what a provider answers and the failures of
-- the database are arguments, and so are the zero values that gorm replaces by the default of a tag, and
-- whether net/http can build a request. Loops are structural recursion on the list they range over, and the loop
-- of attempts on the number that are left; the digits of a base-62 number are as many as asked for, so
-- that no fuel is needed. Go ranges over a map in any order: the model has the order of the list. A
-- lock or an atomic pointer makes the operations on what it guards a sequence. Logging is left out,
-- and so are the JSON forms, the statements of the database beyond those named, the routes of the HTTP
-- server, the provider adapters, the SQL of the metrics store and the sync of the catalog.
pub mod Base
pub mod Pricing
pub mod Governance
pub mod Core
pub mod Dataplane
pub mod Catalog
pub mod Worker
pub mod Store
pub mod Metrics
pub mod Server
mod Tests
