-- ===== src/Lib.antt =====
-- Orbit telemetry orchestrator: a model of the program, and what is proved of it.
--
-- The program registers devices and their telemetry streams, ingests batches of samples, compares
-- windows of them with the rules of the policy in force, opens incidents for the anomalies that it
-- finds, runs response actions and collects evidence. A service (internal/service) holds a
-- repository in memory (internal/store), a bus of events (internal/events), an audit log
-- (internal/audit), a registry of metrics (internal/metrics) and a queue of jobs (internal/queue),
-- and works on the values of internal/domain.
--
-- Which file models which part:
-- - Domain/Device, Domain/Stream, Domain/Policy, Domain/Incident, Domain/Action, Domain/Anomaly,
--   Domain/Evidence and Domain/Telemetry: the files of internal/domain with the same names. A
--   `New…` function is `new_…`, and a method that changes its receiver returns the value after it.
-- - Store and its children: internal/store. `Memory` is the struct with its maps, and each method is
--   a function to its error and the repository after it.
-- - RateLimit: internal/ratelimit/limiter.go. Audit: internal/audit/log.go. Metrics:
--   internal/metrics/registry.go. Queue: internal/queue/queue.go, its workers in Queue/Workers as a
--   step relation, and Queue/Scheduler: internal/queue/scheduler.go. Events: internal/events.
--   Aggregate: internal/aggregate.
-- - Service: internal/service/app.go, the state `App` behind the handlers. Service/Devices,
--   Service/Streams, Service/Policies, Service/Actions, Service/Incidents, Service/Evidence and
--   Service/Telemetry: the handlers of the files with those names. `App.TransitionDevice` is
--   `transition_device`, and the `App.List…` methods are `devices_listed` and so on.
-- - Service/Jobs: `Seed`, `Stats`, the handlers of the queue's jobs (internal/service/app.go) and a turn
--   of one of its workers. Service/Report, Service/Maintenance and Service/Validation: the files with
--   those names. Service/Contracts: contracts for the steps of handlers, and Service/Soundness with its
--   children: the handlers against the invariant of the repository, Store/Sound.
-- - Http: internal/httpapi, its codec and status codes; Http/Endpoints and Http/Endpoints/Incidents:
--   the handlers of requests; Http/Routes: the mux with its patterns, the limit before it and the
--   server.
-- - System: cmd/orbitd/main.go as far as it joins the parts: the app that `main` makes, its seed, and
--   the steps of the running process, a request or a turn of a worker.
-- - Prelude and its children: what the program uses of Go and of its standard library. Tests and its
--   children: the theorems at concrete values.
--
-- How the code is modelled:
-- - A method that may fail and changes a state is a function from the state to a `Result` and the
--   state after it; what was done before an error stays done. Handlers are do blocks of these.
-- - Every method of the repository, of the log, of the metrics, of the bus and of the limiter holds
--   its lock for the whole of its body, so each is one step. A handler is modelled without another
--   one between its steps; two writers of one device are two steps that are written out.
-- - A map is a list of its entries in the order of their insertion, and a `range` over it takes that
--   order, one of those that Go may take; in `FindOpenIncident` it begins at any entry, by a parameter,
--   so that any match may be the answer. `sort.Slice` is an insertion sort. `Clone` is
--   the identity, as values are not shared. `nil` and empty slices are not told apart.
-- - An `int` or `int64` is an integer, and `++` and `-1` on versions and attempts wrap as on 64 bits.
--   Lengths and counts are naturals. Times are nanoseconds from the first instant that a `time.Time`
--   can hold; `UTC` is left out, as is the overflow of times. Ids are built by `itoa`, whose buffer
--   of 20 digits is enough for every number of 64 bits.
-- - A status that is none of the named constants is `other s`; a filter with the empty text is `none`.
-- - `float64` is a parameter with an interface (Prelude/Floats), and so is `strings.ToLower`. The
--   clock is a function of the number of its readings. A job is stamped with a reading of the clock.
-- - A publisher that waits for ever on a full channel is the error `publish_blocks`.
--
-- - Requests and turns of workers follow one another in System, in any order and number; the steps of
--   two handlers are not interleaved there. Queue/Workers interleaves the calls and the workers of the
--   queue, and Queue/Scheduler a timer's callback with the calls of the scheduler.
-- - A body that is decoded is a parameter, `Decoders`: what `json.Decoder` makes of the bytes, which the
--   model cuts at the limit of the size. An answer holds the values, before they become JSON.
-- - No loop of the code needs fuel: the loops over slices and texts are structural, and the buffer of
--   `itoa` has 20 places.
--
-- Not modelled: the encoding of JSON, the log lines and the recovery from panics of
-- internal/httpapi/middleware.go, what an event stream writes after it has subscribed, the defaults
-- that `service.New` sets for fields that `main` always gives, and in cmd/orbitd the environment, the
-- signals and the shutdown. The reading of the system's clock, internal/clock, is a function.
pub mod Prelude
pub mod Domain
pub mod Store
pub mod RateLimit
pub mod Audit
pub mod Metrics
pub mod Queue
pub mod Events
pub mod Aggregate
pub mod Service
pub mod Http
pub mod System
pub mod Tests
