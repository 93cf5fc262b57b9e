-- ===== src/Api/Handlers.antt =====
-- internal/api/server.go: the handlers. An error of `decodeJSON` has the start of its message.
use codex_tempo.Common.{
  ℕ, ◌+◌, ◌*◌, true, false, not, ◌&&◌, Option, none, some, List, [], length, ltb, if◌then◌else◌,
}
use codex_tempo.Common.Text.{Text, codes, text_eq}
use codex_tempo.Domain.{Run}
use codex_tempo.Postgres.{Engine, Database, timestamp}
use codex_tempo.Api.{
  Server, Request, IngestRequest, Wire, Body, status, registered, ingested, summary, timeline,
  active, Response, answer, write_error, fail, bearer_matches, trim_prefix, day, range, bad_range,
  date_range, optional_project_id,
}
use codex_tempo.Interval.Summary.{summarize}
use codex_tempo.Localdb.Stamp.{second}
use codex_tempo.Codex.Lines.{trim_space}
use codex_tempo.Postgres.Machines.{register_machine, authenticate_machine}
use codex_tempo.Postgres.Ingest.{IngestResult, ingest}
use codex_tempo.Postgres.Rebuild.{rebuild_all}
use codex_tempo.Postgres.Queries.{runs_between}

unfoldable pub register :
    Server → Engine → Wire → ℕ → Text → Text → Request → Database → Response × Database
unfolding bearer_matches trim_space
register server engine wire now fresh secret request db =
    if not (text_eq server.admin_token []) && not (bearer_matches request server.admin_token)
    then (write_error 401 (codes "invalid admin token"), db)
    else elim (wire.parse_register request.body) [
      | none ↦ (write_error 400 (codes "invalid JSON"), db)
      | some input ↦
          let name =
            if text_eq (trim_space input.name) [] then codes "codex-machine" else input.name in
          let r = register_machine engine now fresh secret input.machine_id name db in
          elim r.0 [
            | none ↦ (fail, r.1)
            | some (id, token) ↦ (answer 201 (registered id token), r.1)
          ]
    ]

-- The answer to the result of `Ingest`.
abbrev pub ingest_answer : Option IngestResult × Database → Response × Database
ingest_answer (none, db) = (fail, db)
ingest_answer (some result, db) = (answer 200 (ingested result), db)

abbrev pub max_batch : ℕ
max_batch = 5000

-- The handler for the decoded body.
unfoldable pub ingest_batch : Engine → ℕ → Text → IngestRequest → Database → Response × Database
unfolding authenticate_machine trim_prefix
ingest_batch engine now authorization input db =
    if authenticate_machine engine input.machine_id (trim_prefix (codes "Bearer ") authorization) db
    then (if ltb max_batch (length input.events)
        then (write_error 413 (codes "batch exceeds 5000 events"), db)
        else ingest_answer (ingest engine now input.machine_id input.events db))
    else (write_error 401 (codes "invalid machine credentials"), db)

unfoldable pub ingest_handler : Engine → Wire → ℕ → Request → Database → Response × Database
unfolding ingest_batch
ingest_handler engine wire now request db = elim (wire.parse_ingest request.body) [
  | none ↦ (write_error 400 (codes "invalid JSON"), db)
  | some input ↦ ingest_batch engine now request.authorization input db
]

-- The runs for a report, or the failure.
abbrev with_runs : Option (List Run) × Database → (List Run → Body) → Response × Database
with_runs (none, db) f = (fail, db)
with_runs (some runs, db) f = (answer 200 (f runs), db)

-- The guards that `summary` and `timeline` share, and the query.
unfoldable pub report :
    Engine → Wire → ℕ → Request → Database → (ℕ → ℕ → List Run → Body) → Response × Database
unfolding date_range optional_project_id
report engine wire now request db f = elim (date_range wire now request) [
  | bad_range message ↦ (write_error 400 message, db)
  | range from to ↦ elim (optional_project_id engine request) [
    | none ↦ (write_error 400 (codes "project_id must be a valid UUID"), db)
    | some id ↦ with_runs (runs_between engine (timestamp now) from to false id db) (f from to)
  ]
]

unfoldable pub summary_handler : Engine → Wire → ℕ → Request → Database → Response × Database
unfolding report
summary_handler engine wire now request db = report engine wire now request db (λ from to runs.
    summary (record { from = from; to = to; summary = summarize runs from to now }))

unfoldable pub timeline_handler : Engine → Wire → ℕ → Request → Database → Response × Database
unfolding report
timeline_handler engine wire now request db =
    report engine wire now request db
      (λ from to runs. timeline (record { from = from; to = to; runs = runs }))

-- 1970-01-01.
abbrev pub unix_epoch : ℕ
unix_epoch = 62135596800 * second

unfoldable pub active_handler : Engine → ℕ → Database → Response × Database
unfolding day
active_handler engine now db =
    with_runs (runs_between engine (timestamp now) unix_epoch (now + day) true [] db) active

unfoldable pub rebuild_handler : Engine → ℕ → Database → Response × Database
rebuild_handler engine now db =
    let r = rebuild_all engine (timestamp now) db in
    (if r.0 then answer 202 (status (codes "rebuilt")) else fail, r.1)
