-- ===== src/Lib.antt =====
-- A model of tsa-bench, a load generator for RFC 3161 timestamp authorities, and its correctness.
--
-- A run sends a planned number of requests at a constant rate. The profile says how many and how fast;
-- the scheduler releases the slots; the quota guard issues a unit for each attempt; the outcomes go to
-- the circuit breaker, as classes of the error taxonomy, and their latencies into histograms; texts are
-- redacted before they are written anywhere.
--
-- Base: names that all modules share; int64 and durations as integers, with the wrap-around written out
--   where the code adds; float64 as a parameter (Base/Float), fractions in its place for tests.
-- Quota (internal/load/quota.go): the budget (`Quota`, NewQuota is `new`). `Acquire` is a program
--   counter (`Call`) that `advance` takes to its next atomic access; Quota/Calls interleaves any number
--   of calls with `Close`, Quota/Solo is about one call.
-- Breaker (internal/load/breaker.go): `Record` is `record_outcome`, made of the ring buffer's update
--   `file_outcome` and the switch `judge`. Breaker/Window is about the buffer, Breaker/Trips about runs.
-- Profile (internal/load/profile.go): `validate`, `total_planned` and `check_against_quota`.
-- Clock (internal/load/clock.go): the interface with its contract, and the virtual clock.
-- Scheduler (internal/load/scheduler.go): `run` over a clock and a callback; `round` is one round.
-- Histogram (internal/metrics/histogram.go): NewHistogram is `new` with `layout`; Record is
--   `record_value`, Snapshot `snapshot`. The buckets are in Rows and Buckets, recording in Samples.
-- Collector (internal/metrics/collector.go): `record_sent`, `record_saturation` and `record_attempt` on
--   the stages, the seconds and `overall`; Collector/Gains and Collector/Totals are about sums,
--   Collector/Overall is about `overall`, Collector/Names about `stage`; Collector/Series models what
--   reports read off it.
-- Runner (internal/load/runner.go): `attempt` and `send` make one attempt from a job, a request in
--   flight. Runner/Loop has the state that a run shares and what the goroutines do to it: `acquire` is
--   `take_unit`, `dispatch`, `perform`, `stop`, and `run_stage` is `runStage` over the scheduler's `run`.
--   Runner/Loop/Run is `Run` itself. Runner/Loop/Keeps and Run/Keeps walk a predicate on the state from the
--   start to the end; Runner/Loop/Balanced (with the counts of Runner/Loop/Due) and Runner/Loop/Stopped
--   are two such predicates, and Runner/Loop/Moves a third, the states that a run passes through, which
--   Run/Stops puts together with Stopped. Runner/Loop/Live with its child Issues and Run/Complete follow a run in
--   which nothing fails.
-- Tsp (internal/tsp): the types and the parameter `Libs` for the packages that it calls. Tsp/Status is
--   statusinfo.go, Tsp/GenTime gentime.go, Tsp/Ess ess.go and Tsp/Verify verify.go; `gather` is `Verify` up
--   to its test of the clock, in the code's order of checks. Tsp/Verify/Accepts takes the first steps
--   apart and Tsp/Verify/Chain puts the whole together.
-- Config (internal/config/config.go): `budget` is Budget, over the part of Limits that it reads.
-- Digest (internal/config/digest.go, Credentials of auth.go): Digest/Reader reads a challenge
--   (`parse_challenge`, with `split_digest_params` as a machine over the bytes), Digest/Answer writes an
--   answer (`digest_header`), Digest/State has the credentials with the shared challenge and its methods.
--   Digest/Fields and Digest/Scan take the reader over one shown field and over a list of them,
--   Digest/Shown and Digest/RoundTrip over an answer; Digest/Accepts, Cache, Session and Counts are about
--   which challenges are taken, the cached hash, the shared challenge and the interleaving of its accesses.
-- Transport (internal/transport/auth.go and challenge.go, Apply of internal/config/auth.go): `Auth` is the
--   Authenticator with the requests sent, `post_timestamp` is PostTimestamp. Transport/Traffic counts requests, Transport/Stale is about the
--   second request after a stale nonce.
-- ErrClass (internal/errclass/errclass.go): classes, `classify`, `from_http_status`, `itoa`.
-- Redact (internal/redact/redact.go): `headers`, `url` and `text`; net/url is the parameter
--   `UrlLib`, whose users are opaque values. Redact/Scan, Redact/Pieces and Redact/Urls are about the scan of a text,
--   Redact/Headers (with Redact/Blanks) about the names of headers.
--
-- Bounds and fuel: the loops of NewHistogram have 64 rounds, the bits of an int64; the loop of `Text`
-- has one round more than the text has bytes; `itoa` has the 8 bytes of its buffer; the loop of `Run`
-- recurses on the count; the loops over encoded fields have one round for each byte and one more.
-- The printer of a count in hexadecimal has 16 digits, those of a uint64.
-- Counters that the code keeps at 0 or above are natural numbers.
--
-- Assumed: laws of float64 only where a theorem names them; a clock's contract (`Lawful`), which the
-- virtual clock is shown to keep; that a decoded value takes a byte (`Shrinking`). Histogram, collector
-- and breaker methods are single steps: the first two use atomics one field at a time, the last a mutex.
-- In the runner's model `Acquire` is one step too, so that a `Close` does not fall between its test of
-- `closed` and its swap; Quota/Calls has those interleavings. The runner only logs a sink that fails to
-- write: the sink of the model holds the attempts given to it.
-- A worker of the pool finishes in one step, at a point where the issuing goroutine reads the clock,
-- sleeps or waits for a slot; which workers finish where, the context and the network are the runner's
-- parameter `Env`, which also stands for the builder, the verifier and the authenticator. Status codes
-- are not negative. `time.Time` is the number of nanoseconds from Go's zero time, and conversions of
-- float64 values to int64 are the parameter's.
--
-- Texts are read by bytes where digest.go reads characters, and letters change case as in ASCII: the same
-- for headers of ASCII characters. The package net/http, the hash functions, base64 and the client nonces
-- are the parameter `Http`; a request's headers are the calls of Header.Set in their order.
--
-- Not modelled: the runner's logs, connection counters, debug artifacts and the times of a stage; the
-- builder of requests, the HTTP client's settings, connection traces, credentials from the environment,
-- the configuration but for its budget, and the reports; the mock server, process metrics and the command
-- line; files, YAML and the network.
pub mod Base
pub mod Clock
pub mod Quota
pub mod Breaker
pub mod Histogram
pub mod Redact
pub mod ErrClass
pub mod Profile
pub mod Scheduler
pub mod Collector
pub mod Runner
pub mod Tsp
pub mod Config
pub mod Digest
pub mod Transport
