-- ===== src/Postgres/Rebuild.antt =====
-- internal/postgres/store.go: `RebuildSession` and `RebuildAll`. An error leaves the database as the
-- session found it.
use codex_tempo.Common.{
  ℕ, Bool, true, false, not, ◌||◌, ◌&&◌, Option, none, some, List, [], ◌∷◌, ◌++◌, any, filter, ltb,
  if◌then◌else◌,
}
use codex_tempo.Common.Text.{Text, codes, text_eq}
use codex_tempo.Domain.{Event, Run}
use codex_tempo.Projector.{project}
use codex_tempo.Localdb.Queue.{take}
use codex_tempo.Postgres.{ProjectMetadata, Engine, ProjectRow, Database}
use codex_tempo.Postgres.Rows.{
  session_events, project_from_events, session_project, project_named, upsert_project,
  session_source, upsert_session, session_row,
}

abbrev pub is_open : Run → Bool
is_open run = elim run.ended_at [ none ↦ true | some at ↦ false ]

abbrev ends_early : Run → Bool
ends_early run = elim run.ended_at [ none ↦ false | some at ↦ ltb at run.started_at ]

-- A row that the primary key or `runs_active_idx` does not admit beside this one.
unfoldable pub excludes : Run → Run → Bool
excludes run row =
    text_eq row.id run.id || (text_eq row.session_id run.session_id && (is_open run && is_open row))

-- `INSERT INTO runs …`, with the table's check that a run does not end before it starts. The run's id
-- is that of its events' column, a uuid or the empty text, which is no uuid.
unfoldable pub insert_run : Text → Run → List Run → Option (List Run)
unfolding excludes
insert_run project_id run runs =
    let row = record run { project_id = project_id } in
    if text_eq run.id [] || (ends_early run || any (excludes row) runs)
    then none
    else some (runs ++ row ∷ [])

unfoldable pub insert_runs : Text → List Run → List Run → Option (List Run)
unfolding insert_run
insert_runs project_id [] runs = some runs
insert_runs project_id (run ∷ rest) runs = elim (insert_run project_id run runs) [
  | none ↦ none
  | some next ↦ insert_runs project_id rest next
]

-- `DELETE FROM runs WHERE session_id=$1`
unfoldable pub delete_runs : Text → List Run → List Run
delete_runs id runs = filter (λ run. not (text_eq run.session_id id)) runs

-- The project of that name, or the values given.
unfoldable pub known_project : Option ProjectRow → Text → Text → Text × Text
known_project none id fingerprint = (id, fingerprint)
known_project (some p) id fingerprint = (p.id, p.fingerprint)

-- The statements that follow the project's.
unfoldable pub replace_runs :
    Text
    → Text
    → Text
    → ProjectMetadata
    → List Event
    → ℕ
    → List Run
    → List ProjectRow
    → Database
    → Option Database
unfolding upsert_session session_row session_source insert_runs delete_runs
replace_runs id machine_id project_id metadata events started_at runs projects db =
    elim (insert_runs project_id runs (delete_runs id db.runs)) [
      | none ↦ none
      | some rows ↦ some (record db {
        projects = projects;
        sessions =
            upsert_session
              (session_row id machine_id project_id metadata (session_source events) started_at)
              db.sessions;
        runs = rows;
      })
    ]

-- What follows the project's statement.
unfoldable pub use_projects :
    Option (List ProjectRow)
    → Text
    → Text
    → Text
    → ProjectMetadata
    → List Event
    → ℕ
    → List Run
    → Database
    → Option Database
unfolding replace_runs
use_projects none id machine_id project_id metadata events started_at runs db = none
use_projects (some projects) id machine_id project_id metadata events started_at runs db =
    replace_runs id machine_id project_id metadata events started_at runs projects db

-- The project's statement, for its id after the cast.
unfoldable pub use_project :
    Option Text
    → Text
    → Text
    → ℕ
    → Text
    → Text
    → ProjectMetadata
    → List Event
    → ℕ
    → List Run
    → Database
    → Option Database
unfolding upsert_project use_projects
use_project none fingerprint name now id machine_id metadata events started_at runs db = none
use_project (some key) fingerprint name now id machine_id metadata events started_at runs db =
    use_projects (upsert_project key fingerprint name metadata.remote_hash now db.projects) id
      machine_id key metadata events started_at runs db

-- The transaction, for a project id that is a uuid.
unfoldable pub rebuild_project :
    Engine
    → ℕ
    → Text
    → Text
    → Text
    → ProjectMetadata
    → List Event
    → ℕ
    → List Run
    → Database
    → Option Database
unfolding project_named known_project use_project
rebuild_project engine now machine_id id project_id metadata events started_at runs db =
    let name =
      if text_eq metadata.project_name []
      then codes "project-" ++ take 8 project_id
      else metadata.project_name in
    let fingerprint =
      if text_eq metadata.project_fingerprint []
      then project_id
      else metadata.project_fingerprint in
    let known = known_project (project_named name db) project_id fingerprint in
    use_project (engine.cast_uuid known.0) known.1 name now id machine_id metadata events started_at
      runs db

-- What follows the query for the session's events.
unfoldable pub rebuild_events : Engine → ℕ → Text → Text → List Event → Database → Option Database
unfolding project_from_events session_project rebuild_project
rebuild_events engine now machine_id id [] db = some db
rebuild_events engine now machine_id id (event ∷ events) db =
    let all = event ∷ events in
    let runs = project engine.decode all in
    let metadata = project_from_events engine all in
    let project_id = session_project metadata runs in
    if text_eq project_id []
    then some db
    else (if engine.is_uuid project_id
        then rebuild_project engine now machine_id id project_id metadata all event.occurred_at runs
            db
        else none)

-- Whether there is no error, and the database after it.
abbrev pub or_unchanged : Option Database → Database → Bool × Database
or_unchanged none db = (false, db)
or_unchanged (some next) db = (true, next)

unfoldable pub rebuild_session : Engine → ℕ → Text → Text → Database → Bool × Database
unfolding session_events rebuild_events
rebuild_session engine now machine_id id db =
    or_unchanged (rebuild_events engine now machine_id id (session_events id db) db) db

-- `SELECT DISTINCT machine_id::text,session_id`, in the order of the first row of each.
unfoldable pub add_pair : Event → List (Text × Text) → List (Text × Text)
add_pair row pairs =
    if any (λ p. text_eq p.0 row.machine_id && text_eq p.1 row.session_id) pairs
    then pairs
    else pairs ++ (row.machine_id, row.session_id) ∷ []

unfoldable pub session_pairs : List Event → List (Text × Text) → List (Text × Text)
unfolding add_pair
session_pairs [] pairs = pairs
session_pairs (row ∷ rows) pairs = session_pairs rows (add_pair row pairs)

unfoldable pub rebuild_pairs : Engine → ℕ → List (Text × Text) → Database → Bool × Database
unfolding rebuild_session
rebuild_pairs engine now [] db = (true, db)
rebuild_pairs engine now ((machine_id, id) ∷ pairs) db =
    let r = rebuild_session engine now machine_id id db in
    elim r.0 [ true ↦ rebuild_pairs engine now pairs r.1 | false ↦ (false, r.1) ]

unfoldable pub rebuild_all : Engine → ℕ → Database → Bool × Database
unfolding session_pairs rebuild_pairs
rebuild_all engine now db = rebuild_pairs engine now (session_pairs db.events []) db
