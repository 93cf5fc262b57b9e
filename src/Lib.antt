-- ===== src/Lib.antt =====
-- Codex Tempo: time tracking for parallel Codex sessions.
--
-- An agent on each machine records events of Codex sessions; a server projects the events to runs and
-- summarises the runs of a time window. The files model the Go code of these parts.
--
-- - Domain.antt: internal/domain/types.go, the records that the parts exchange.
-- - Interval.antt: internal/interval/interval.go, `Clip`, `Merge` and `Duration`; Interval/Summary.antt has
--   `Summarize`, whose loops are `visit_all`, `project_spans`, `add_spans` and `sweep`. The other files of
--   Interval/ hold the proofs: Cover and Canonical on covered instants, Measure on durations, Sweep and
--   Weight on the last loop, Pieces, Groups and Filling on the first, Report on the whole.
-- - Projector.antt: internal/projector/projector.go. The loop of `Project` is `run_events`, its body `step`,
--   its switch `dispatch`; `ReconcileOpen` is `reconcile_open`. Projector/ has the proofs.
-- - Localdb.antt: internal/localdb/store.go, the tables of the agent's SQLite database as lists of rows.
--   Localdb/Queue.antt has the operations under their names in the source, Localdb/Beats.antt
--   `AdvanceHookHeartbeat`, Localdb/Stamp.antt the text of times, by which SQL compares them. Table, Commit,
--   Reach, Range and Hooks hold the proofs.
-- - Sync.antt: internal/sync/client.go. `SyncOnce` is `sync_once` on a store, with the server as a
--   function from requests to responses; `Run` is `run`, the delays of a number of rounds, in each of
--   which the server may be another function.
-- - Codex.antt: internal/codex. Codex/Lines.antt splits a file as the reader does, Codex/Records.antt has
--   `parseLine`, Codex/Parser.antt `ParseFile`, Codex/Metrics.antt `Scan` and `metricEvents`. Growth,
--   Numbers, Scans and Usage hold the proofs.
-- - Postgres.antt: internal/postgres, the server's tables as lists of rows. Machines, Ingest, Rows, Rebuild
--   and Queries have the operations of the store: `ingest` is `Ingest`, `rebuild_session` `RebuildSession`,
--   `runs_between` `Runs`. An operation returns its result, or `none` for an error, with the database after
--   it. Tokens, Steps, Rebuilt, Counts, Stored, Fixed, Settled, Retry, Expiry and Projection hold the
--   proofs.
-- - Api.antt: internal/api/server.go. Api/Handlers.antt has a function for each handler, Api/Routes.antt the
--   router as `handle`. Access holds the proofs on tokens; Accepted and Delivered join Sync.antt, this and
--   the store.
-- - Agent.antt: internal/agent/service.go, `ScanOnce` as `scan_once` and `Run` as `run_service` over the
--   signals of its loop; Agent/Settled.antt and Agent/Rescan.antt have the proofs, Agent/Commands.antt has
--   apps/agent/main.go.
-- - Cli.antt: apps/cli/main.go, the reports; Cli/Intervals.antt has `hookIntervalEvents`, Cli/Hook.antt
--   `runHook`, Cli/Import.antt `importWakapi`. Drained, Triple and Worked hold the proofs.
-- - Wakapi.antt: internal/wakapi/client.go; Wakapi/Gaps.antt has `unixTime` and `Export`.
--   Wakapi/Clock.antt has the laws of float64 and what `unixTime` does by them, Wakapi/Sums.antt the other
--   proofs.
-- - Config.antt, Registration.antt, Hooklog.antt, Resolver.antt: internal/config, internal/registration,
--   internal/hooklog, internal/projectresolver.
-- - Common.antt: numbers, lists, strings, maps, sorting and int64 arithmetic.
-- - Examples.antt: runs on concrete inputs.
--
-- A `time.Time` is the number of nanoseconds since the zero time, 0001-01-01T00:00:00Z, so instants before
-- it are not modelled. A string is its bytes. An int64 is its bit pattern, with the wrap-around of its
-- operations written out. A Go map is an association list; where the program's result depends on the
-- order of iteration over a map, or on a sort that is not stable, the model takes one order and the file
-- says so. JSON, the hash of UUIDs, PostgreSQL's
-- casts, git, TOML, float64 and the clock are parameters, and so is the project resolver where the parser
-- calls it. Loops go over a list or a number of days; only the loop of deliveries of the import runs on
-- fuel, for which as many rounds as events are pending are enough.
--
-- Not modelled: connections, migrations and failures of both databases; opening, writing and removing
-- files, among them the one of the configuration; flags, printing, logging and the middleware of the HTTP
-- server; the start of the server process; deadlines; the web dashboard, which is no Go code.
pub mod Common
pub mod Domain
pub mod Interval
pub mod Projector
pub mod Localdb
pub mod Sync
pub mod Codex
pub mod Postgres
pub mod Api
pub mod Agent
pub mod Wakapi
pub mod Cli
pub mod Config
pub mod Registration
pub mod Hooklog
pub mod Resolver
mod Examples
