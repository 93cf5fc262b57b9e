-- ===== src/Examples/Stores.antt =====
-- A concrete table of machines and events, to which the theorems of the server's store are applied.
use codex_tempo.Common.{
  ◌+◌, ◌≡◌, ◌≢◌, refl, true, false, Option, none, some, List, [], ◌∷◌, map, All, length, ◌↔◌,
}
use codex_tempo.Common.Text.{Text, codes, text_eq}
use codex_tempo.Domain.{Event, run_started}
use codex_tempo.Postgres.{Engine, Database}
use codex_tempo.Postgres.Machines.{equal}
use codex_tempo.Postgres.Tokens.{equal_iff}
use codex_tempo.Postgres.Ingest.{ingest, IngestResult}
use codex_tempo.Postgres.Counts.{answered, IsHandled}
use codex_tempo.Postgres.Stored.{ingest_lem}
use codex_tempo.Postgres.Retry.{seen, ingest_again}
use codex_tempo.Postgres.Fixed.{IsFixed}
use codex_tempo.Postgres.Rebuild.{rebuild_session}
use codex_tempo.Postgres.Rows.{session_events, session_project, project_from_events}
use codex_tempo.Postgres.Queries.{expire_runs}
use codex_tempo.Postgres.Expiry.{run_grace, run_maximum, expire_runs-reconcile}
use codex_tempo.Postgres.Projection.{IsProjected, rebuild_session-IsProjected}
use codex_tempo.Projector.{project, reconcile_open}
use codex_tempo.Projector.Results.{project-IsConsistent}
use codex_tempo.Common.Sort.{sort_by}
use codex_tempo.Common.Assoc.{get, put, values}
use codex_tempo.Common.{◌*◌}
use codex_tempo.Localdb.Stamp.{second}
use codex_tempo.Api.{IngestRequest}

abbrev pub engine : Engine
engine = record {
  is_uuid = λ id. true;
  cast_uuid = λ id. some id;
  cast_json = λ t. some t;
  sha256 = λ t. t;
  decode = λ t. record {
    project_id = 4 ∷ [];
    model = [];
    reasoning_effort = [];
    input_tokens = 0;
    cached_input_tokens = 0;
    output_tokens = 0;
    reasoning_tokens = 0;
  };
  decode_metadata = λ t. record {
    project_id = [];
    project_name = [];
    project_fingerprint = [];
    remote_hash = [];
    worktree_name = [];
    worktree_path = [];
    is_worktree = false;
    codex_version = [];
  };
}

abbrev pub event_one : Event
event_one = record {
  id = 1 ∷ [];
  machine_id = [];
  session_id = 8 ∷ [];
  run_id = 9 ∷ [];
  sequence = 1;
  occurred_at = 5000;
  kind = run_started;
  source = 6 ∷ [];
  payload = 123 ∷ 125 ∷ [];
}

-- Without a session.
abbrev event_two : Event
event_two = record event_one { id = 2 ∷ []; session_id = [] }

abbrev pub events : List Event
events = event_one ∷ event_two ∷ []

abbrev pub database : Database
database = record {
  machines =
      record { id = 7 ∷ []; name = []; token_hash = 3 ∷ []; created_at = 0; last_seen_at = none }
      ∷ [];
  projects = [];
  sessions = [];
  events = [];
  runs = [];
}

abbrev last : Database
last = (ingest engine 9000 (7 ∷ []) events database).1

abbrev pub machine_of : Option IngestRequest → Text
machine_of none = []
machine_of (some input) = input.machine_id

abbrev pub result : IngestResult
result = record {
  accepted = 1;
  duplicates = 0;
  rejected = record { id = 2 ∷ []; reason = codes "invalid_event" } ∷ [];
}

abbrev pub token : Text
token = 1 ∷ 2 ∷ []

abbrev other_token : Text
other_token = 1 ∷ 3 ∷ []

equal_iff_example : (equal token other_token ≡ true) ↔ (token ≡ other_token)
equal_iff_example = equal_iff token other_token

answered_so : (ingest engine 9000 (7 ∷ []) events database).0 ≡ some result
unfolding ingest rebuild_session text_eq sort_by project values get put
answered_so = refl

ingested_so : ingest engine 9000 (7 ∷ []) events database ≡ (some result, last)
ingested_so i = (answered_so i, last)

ingest_lem_example :
    (answered result ≡ length events) × All (IsHandled engine result.rejected last.events) events
ingest_lem_example = ingest_lem engine 9000 (7 ∷ []) events database last result ingested_so

IsFixed-events : All IsFixed events
unfolding text_eq
IsFixed-events = (refl, (refl, tt))

ingest_again_example :
    let (again, later) = ingest engine 9500 (7 ∷ []) events last in
    (again
      ≡ some (record {
        accepted = 0;
        duplicates = result.accepted + result.duplicates;
        rejected = result.rejected;
      }))
    × (later.events ≡ last.events)
    × (later.runs ≡ last.runs)
    × (later.sessions ≡ last.sessions)
    × (later.projects ≡ last.projects)
    × (later.machines ≡ map (seen (some (7 ∷ [])) 9500) last.machines)
ingest_again_example =
    ingest_again engine 9000 9500 (7 ∷ []) events database last result tt IsFixed-events ingested_so

-- The database with the runs of the event.
abbrev running : Database
running = record database { runs = project engine.decode (event_one ∷ []) }

expire_runs-reconcile_example : expire_runs (5000 + 100 * second) running ≡ record running {
  runs = reconcile_open running.runs (5000 + 100 * second) run_grace run_maximum;
}
expire_runs-reconcile_example =
    expire_runs-reconcile (5000 + 100 * second) running
      (project-IsConsistent engine.decode (event_one ∷ []))

abbrev stored : Database
stored = record database { events = event_one ∷ [] }

abbrev rebuilt : Database
rebuilt = (rebuild_session engine 9000 (7 ∷ []) (8 ∷ []) stored).1

named_four :
    session_project
      (project_from_events engine (session_events (8 ∷ []) stored))
      (project engine.decode (session_events (8 ∷ []) stored))
    ≡ 4 ∷ []
unfolding session_project project_from_events session_events project text_eq sort_by values get put
named_four = refl

names_project :
    session_project
      (project_from_events engine (session_events (8 ∷ []) stored))
      (project engine.decode (session_events (8 ∷ []) stored))
    ≢ []
names_project e = cc (named_four, e)

rebuilt_so : (rebuild_session engine 9000 (7 ∷ []) (8 ∷ []) stored).0 ≡ true
unfolding rebuild_session text_eq sort_by project values get put
rebuilt_so = refl

rebuild_session-IsProjected_example : IsProjected engine (8 ∷ []) stored rebuilt
rebuild_session-IsProjected_example =
    rebuild_session-IsProjected engine 9000 (7 ∷ []) (8 ∷ []) stored rebuilt names_project
      (λ i. (rebuilt_so i, rebuilt))
