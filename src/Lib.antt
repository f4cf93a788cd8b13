-- ===== src/Lib.antt =====
-- maniflex: a model of the core of the framework, and what holds of it.
--
-- A Maniflex application registers middleware on the six steps of a request pipeline, and the framework
-- composes them into one chain for each model and operation; beside the pipeline it has a job queue
-- with workers and schedules, an event bus that delivers with retries, sagas, a ledger, authenticators
-- and policies that the Auth and DB steps run, and state machines on a field of a model. The files model
-- these parts:
--
-- Request: the data of a request (context.go, model.go, request_body.go), the writes of the server
-- and the client to its body (typed_body.go: SetField, DeleteField, reassertServerSet,
-- syncRecordField; steps.go: stripClientWrites). Request/Writes proves which of them last.
-- Pipeline: Chain (middleware.go: buildNamedChain, buildChain), Registry (middleware.go:
-- StepRegistry, Register, freeze, build, compose, scopeMiddlewares and the options), Execute
-- (pipeline.go: chainFor, scopeChain, executeAction, executeTrimmed), Checks (pipeline.go: the
-- startup checks). Order, RequestOrder, Cache and Reach hold the proofs, and Agree, Sound, Touched and
-- Requests carry the caches through every history of calls. A handler is a function of
-- the continuation and the context, since all middleware share one *ServerContext.
-- Jobs: Job and Backoff (jobs/jobs.go, jobs/backoff.go), Inproc (jobs/inproc/queue.go). Inproc/Defs
-- and Queries have the operations; Counts, Finds and Claims count and look up entries; Invariant, Preserve and
-- Reachable carry the invariant through every history; Take and Listing are about Dequeue and List,
-- Resolve and Release are about what becomes of a claimed job. Worker (jobs/worker.go): Defs has handle
-- and what it calls, for any source; OnQueue and Settles run it on the in-process queue, and Unhandled
-- follows a job that no worker handles. Cron (jobs/cron/cron.go): Defs has the Scheduler, Once its firings.
-- Realtime: Resume (realtime/resume.go), Ring and Replay, which compare it with the log of all events.
-- Files (file_range.go): ByteRange (parseByteRange and its parts), Serve (serveStoredFile and its
-- parts), Window and Honest, which hold the proofs.
-- Events: Delivery and Settled (events/events.go: DeliverWithRetry), Dedupe (events/dedupe.go:
-- InMemoryDedupeStore, Dedupe), ReadBackoff (events/backoff.go), Bus (events/inproc/inproc.go): Glob and Defs,
-- Manned, Offered and Reachable for the invariant over all interleavings, Drain and Handed.
-- Saga (pkg/saga): Execute and compensate.
-- Auth: FirstOf (middleware/auth/firstof.go) and Policy (middleware/auth/abac.go: AllOf, AnyOf, Not),
-- Enforce (abac.go: Enforce and its branches) and Guarded, which holds the proofs about it.
-- Memo (cache.go): MemoryCache, Pruned and Transparent, which compare it with a plain dictionary.
-- Sql (db/sqlcore/rebind.go): Scan (scanSQL), Rebind (rebind) and Pieces, which holds the proofs.
-- Idempotency (middleware/idempotency): Defs (Middleware and the default Locker) and Replayed.
-- Money (pkg/money): Amount, Arithmetic and RoundTrip. Ledger (pkg/ledger): Lines (what Post checks), Post,
-- Balanced, Closed and Atomic. The database is a record of operations there; Atomic and Closed state what
-- it promises.
-- Workflow (middleware/workflow): Middleware on the Validate step and Hooks on the DB step; Rules tells
-- which rule and which hooks are meant, and Transitions proves that they decide.
-- Prelude holds shared names and lists, bytes and decimal numbers; Examples holds concrete runs.
--
-- How the code is read: a struct is a record and an operation a function from the state to the state
-- and the result; a mutex makes an operation one step, so interleavings are sequences of operations. A
-- map is an association list with each key once, and where the code ranges over a map the list is the
-- order that it ranges in. Pointers that are compared or aliased are handles. Numbers are from 0 on
-- unless a file says otherwise; a doubling on int64 is written with its wrap. Clocks, random draws, new
-- ids and the answers of a context are arguments. Loops are over a list or a bounded count. Fuel stands in
-- three: the digits of a number (as many rounds as the number and one more), scanSQL (a round for each
-- byte), and path.Match with its classes in Events/Bus/Glob (a round for each byte of pattern and text).
-- The theorems about the first two start from the full fuel and reach the end; a round of the third
-- takes a byte of the pattern or of the text, so that it ends before its fuel does.
--
-- Not modelled: HTTP and routing, SQL adapters and the query compiler, OpenAPI and AsyncAPI documents,
-- the file storage backends, the realtime hub, brokers and their adapters, JWT and sessions, and logging.
pub mod Auth
pub mod Events
pub mod Examples
pub mod Files
pub mod Idempotency
pub mod Jobs
pub mod Ledger
pub mod Memo
pub mod Money
pub mod Pipeline
pub mod Prelude
pub mod Realtime
pub mod Request
pub mod Saga
pub mod Sql
pub mod Workflow
