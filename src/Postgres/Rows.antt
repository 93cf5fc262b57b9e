-- ===== src/Postgres/Rows.antt =====
-- internal/postgres/store.go: what `RebuildSession` reads of a session, and its statements on the tables
-- `projects` and `sessions`.
use codex_tempo.Common.{
  ℕ, Bool, true, false, ◌||◌, Option, none, some, List, [], ◌∷◌, ◌++◌, any, filter, ltb,
  if◌then◌else◌, ◌==◌,
}
use codex_tempo.Common.Text.{Text, codes, text_eq, text_lt}
use codex_tempo.Common.Sort.{sort_by}
use codex_tempo.Common.Word.{eq64, lt64}
use codex_tempo.Domain.{Event, Run}
use codex_tempo.Postgres.{
  ProjectMetadata, Engine, ProjectRow, SessionRow, Database, null_if_empty, coalesce, update,
}

-- `ORDER BY sequence,occurred_at,id`
unfoldable pub row_less : Event → Event → Bool
row_less a b =
    if eq64 a.sequence b.sequence
    then (if a.occurred_at == b.occurred_at
        then text_lt a.id b.id
        else ltb a.occurred_at b.occurred_at)
    else lt64 a.sequence b.sequence

abbrev pub in_session : Text → Event → Bool
in_session id row = text_eq row.session_id id

unfoldable pub session_events : Text → Database → List Event
unfolding row_less
session_events id db = sort_by row_less (filter (in_session id) db.events)

abbrev no_metadata : ProjectMetadata
no_metadata = record {
  project_id = [];
  project_name = [];
  project_fingerprint = [];
  remote_hash = [];
  worktree_name = [];
  worktree_path = [];
  is_worktree = false;
  codex_version = [];
}

unfoldable pub project_from_events : Engine → List Event → ProjectMetadata
project_from_events engine [] = no_metadata
project_from_events engine (event ∷ events) =
    let payload = engine.decode_metadata event.payload in
    if text_eq payload.project_id [] then project_from_events engine events else payload

-- The project's id, where the events name none: that of the first run.
unfoldable pub session_project : ProjectMetadata → List Run → Text
session_project metadata [] = metadata.project_id
session_project metadata (run ∷ runs) =
    if text_eq metadata.project_id [] then run.project_id else metadata.project_id

-- `ORDER BY created_at,id LIMIT 1`
unfoldable pub older_project : ProjectRow → ProjectRow → Bool
older_project a b =
    if a.created_at == b.created_at then text_lt a.id b.id else ltb a.created_at b.created_at

abbrev head {ℓ} : {A : Type ℓ} → List A → Option A
head [] = none
head (x ∷ xs) = some x

unfoldable pub project_named : Text → Database → Option ProjectRow
unfolding older_project
project_named name db = head (sort_by older_project (filter (λ p. text_eq p.name name) db.projects))

-- `name LIKE 'project-%'`
unfoldable pub has_prefix : Text → Text → Bool
has_prefix [] t = true
has_prefix (c ∷ p) [] = false
has_prefix (c ∷ p) (d ∷ t) = if c == d then has_prefix p t else false

abbrev is_project : Text → ProjectRow → Bool
is_project id p = text_eq p.id id

-- `INSERT INTO projects … ON CONFLICT(id) DO UPDATE …`; a fingerprint that another project has is an
-- error.
unfoldable pub upsert_project :
    Text → Text → Text → Text → ℕ → List ProjectRow → Option (List ProjectRow)
unfolding has_prefix
upsert_project id fingerprint name remote_hash now projects =
    if any (is_project id) projects
    then some (
        update (is_project id)
          (λ p. record p {
            name = if has_prefix (codes "project-") name then p.name else name;
            remote_hash = coalesce (null_if_empty remote_hash) p.remote_hash;
            updated_at = now;
          })
          projects)
    else (if any (λ p. text_eq p.fingerprint fingerprint) projects
        then none
        else some (
            projects
            ++ record {
              id = id;
              fingerprint = fingerprint;
              name = name;
              remote_hash = null_if_empty remote_hash;
              created_at = now;
              updated_at = now;
            }
              ∷ []))

-- The source of the first event with one of three sources.
unfoldable pub session_source : List Event → Text
session_source [] = codes "codex"
session_source (event ∷ events) =
    if text_eq event.source (codes "wakapi")
      || (text_eq event.source (codes "hook") || text_eq event.source (codes "metrics"))
    then event.source
    else session_source events

abbrev is_session : Text → SessionRow → Bool
is_session id s = text_eq s.id id

-- `INSERT INTO sessions … ON CONFLICT(id) DO UPDATE …`
unfoldable pub upsert_session : SessionRow → List SessionRow → List SessionRow
upsert_session new sessions =
    if any (is_session new.id) sessions
    then update (is_session new.id)
        (λ s. record s {
          project_id = new.project_id;
          cwd = coalesce new.cwd s.cwd;
          worktree_name = coalesce new.worktree_name s.worktree_name;
          worktree_path = coalesce new.worktree_path s.worktree_path;
          is_worktree = new.is_worktree;
          source = new.source;
          codex_version = coalesce new.codex_version s.codex_version;
        })
        sessions
    else sessions ++ new ∷ []

unfoldable pub session_row : Text → Text → Text → ProjectMetadata → Text → ℕ → SessionRow
session_row id machine_id project_id metadata source started_at = record {
  id = id;
  machine_id = machine_id;
  project_id = project_id;
  cwd = null_if_empty metadata.worktree_path;
  worktree_name = null_if_empty metadata.worktree_name;
  worktree_path = null_if_empty metadata.worktree_path;
  is_worktree = metadata.is_worktree;
  source = source;
  codex_version = null_if_empty metadata.codex_version;
  started_at = started_at;
  ended_at = none;
}
