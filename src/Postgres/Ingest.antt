-- ===== src/Postgres/Ingest.antt =====
-- internal/postgres/store.go: `Ingest`. The map of touched sessions is the list of its keys in the
-- order of their first event, one order of its iteration.
use codex_tempo.Common.{
  ℕ, suc, Bool, true, false, not, ◌||◌, ◌&&◌, Option, none, some, List, [], ◌∷◌, ◌++◌, any,
  if◌then◌else◌, ◌==◌,
}
use codex_tempo.Common.Text.{Text, codes, text_eq}
use codex_tempo.Common.Word.{eq64}
use codex_tempo.Domain.{Event}
use codex_tempo.Sync.{Rejection}
use codex_tempo.Postgres.{Engine, Database, update, timestamp}
use codex_tempo.Postgres.Machines.{is_machine}
use codex_tempo.Postgres.Rebuild.{rebuild_session}

-- The event with the values its row has: `none` where one of them cannot be cast.
unfoldable pub event_row : Engine → Text → Event → Option Event
event_row engine machine_id event = elim (engine.cast_uuid event.id) [
  | none ↦ none
  | some id ↦ elim (if text_eq event.run_id [] then some [] else engine.cast_uuid event.run_id) [
    | none ↦ none
    | some run ↦ elim (engine.cast_json event.payload) [
      | none ↦ none
      | some payload ↦ some (record event {
        id = id;
        machine_id = machine_id;
        run_id = run;
        occurred_at = timestamp event.occurred_at;
        payload = payload;
      })
    ]
  ]
]

abbrev pub is_event : Text → Event → Bool
is_event id row = text_eq row.id id

-- `UNIQUE(machine_id,session_id,sequence)`
unfoldable pub takes_place : Event → Event → Bool
takes_place event row =
    text_eq row.machine_id event.machine_id
    && (text_eq row.session_id event.session_id && eq64 row.sequence event.sequence)

-- `WHERE events.source='wakapi' AND (… IS DISTINCT FROM …)`
unfoldable pub is_changed : Event → Event → Bool
is_changed event row =
    text_eq row.source (codes "wakapi")
    && (not (row.occurred_at == event.occurred_at) || not (text_eq row.payload event.payload))

-- The statement on a row of values: whether a row is affected, and the table, or an error.
unfoldable pub insert_event : Event → List Event → Option (Bool × List Event)
unfolding takes_place is_changed
insert_event event rows =
    if any (is_event event.id) rows
    then (if any (λ row. is_event event.id row && is_changed event row) rows
        then some (
          true,
          update (is_event event.id)
              (λ row. record row { occurred_at = event.occurred_at; payload = event.payload }) rows,
        )
        else some (false, rows))
    else (if any (takes_place event) rows then none else some (true, rows ++ event ∷ []))

pub record IngestResult : Type 0 where
  pub accepted : ℕ
  pub duplicates : ℕ
  pub rejected : List Rejection

-- The variables of the loop; `touched` is the keys of its map.
pub record Progress : Type 0 where
  pub result : IngestResult
  pub touched : List Text
  pub rows : List Event

-- The guards of an event, with the reason to reject it.
unfoldable pub rejection : Engine → Event → Option Text
rejection engine event =
    if text_eq event.session_id [] || (text_eq event.id [] || event.occurred_at == 0)
    then some (codes "invalid_event")
    else (if engine.is_uuid event.id
        then (if text_eq event.run_id [] || engine.is_uuid event.run_id
            then none
            else some (codes "invalid_run_id"))
        else some (codes "invalid_event_id"))

unfoldable pub touch_session : Text → List Text → List Text
touch_session id touched = if any (text_eq id) touched then touched else touched ++ id ∷ []

unfoldable pub count_event : Event → Bool → IngestResult → IngestResult
count_event event true result = record result { accepted = suc result.accepted }
count_event event false result = record result { duplicates = suc result.duplicates }

-- What follows the statement.
unfoldable pub use_statement : Event → Option (Bool × List Event) → Progress → Option Progress
unfolding count_event touch_session
use_statement event none s = none
use_statement event (some (affected, rows)) s = some (record {
  result = count_event event affected s.result;
  touched = if affected then touch_session event.session_id s.touched else s.touched;
  rows = rows;
})

unfoldable pub run_statement : Event → Option Event → Progress → Option Progress
unfolding insert_event use_statement
run_statement event none s = none
run_statement event (some row) s = use_statement event (insert_event row s.rows) s

unfoldable pub ingest_event : Engine → Text → Event → Progress → Option Progress
unfolding rejection event_row run_statement
ingest_event engine machine_id event s = elim (rejection engine event) [
  | some reason ↦ some (record s {
    result = record s.result {
      rejected = s.result.rejected ++ record { id = event.id; reason = reason } ∷ [];
    };
  })
  | none ↦ run_statement event (event_row engine machine_id event) s
]

unfoldable pub ingest_events : Engine → Text → List Event → Progress → Option Progress
unfolding ingest_event
ingest_events engine machine_id [] s = some s
ingest_events engine machine_id (event ∷ events) s = elim (ingest_event engine machine_id event s) [
  | none ↦ none
  | some next ↦ ingest_events engine machine_id events next
]

abbrev pub no_progress : List Event → Progress
no_progress rows = record {
  result = record { accepted = 0; duplicates = 0; rejected = [] };
  touched = [];
  rows = rows;
}

-- The rebuilding of each touched session, up to the first error.
unfoldable pub rebuild_sessions : Engine → ℕ → Text → List Text → Database → Bool × Database
unfolding rebuild_session
rebuild_sessions engine now machine_id [] db = (true, db)
rebuild_sessions engine now machine_id (id ∷ ids) db =
    let r = rebuild_session engine now machine_id id db in
    elim r.0 [ true ↦ rebuild_sessions engine now machine_id ids r.1 | false ↦ (false, r.1) ]

-- The committed transaction.
unfoldable pub commit_events : ℕ → Text → List Event → Database → Database
commit_events now machine_id rows db = record db {
  events = rows;
  machines = update (is_machine machine_id) (λ m. record m { last_seen_at = some now }) db.machines;
}

-- What follows the loop.
unfoldable pub finish_ingest :
    Engine → ℕ → Text → Option Progress → Database → Option IngestResult × Database
unfolding rebuild_sessions commit_events
finish_ingest engine now machine_id none db = (none, db)
finish_ingest engine now machine_id (some s) db =
    let r =
      rebuild_sessions engine now machine_id s.touched (commit_events now machine_id s.rows db) in
    (if r.0 then some s.result else none, r.1)

-- `Ingest`; `none` is an error, which may come after the commit. A machine that is no uuid is one, at
-- the latest in the update of the table `machines`.
unfoldable pub ingest : Engine → ℕ → Text → List Event → Database → Option IngestResult × Database
unfolding finish_ingest ingest_events
ingest engine now machine_id events db = elim (engine.cast_uuid machine_id) [
  | none ↦ (none, db)
  | some key ↦
      finish_ingest engine (timestamp now) key
        (ingest_events engine key events (no_progress db.events)) db
]
