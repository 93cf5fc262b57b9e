-- ===== src/Postgres/Rebuilt.antt =====
-- internal/postgres/store.go: what a session's rebuilding without an error has done.
use codex_tempo.Common.{
  ℕ, ◌≡◌, refl, true, false, Option, none, some, List, [], ◌∷◌, arith, Option-cases, Bool-cases,
  inl, inr, ap, sym, ◌∙◌,
}
use codex_tempo.Common.Text.{Text, text_eq, text_eq_iff}
use codex_tempo.Common.Sort.{sort_by}
use codex_tempo.Common.Assoc.{values}
use codex_tempo.Domain.{Event, Run}
use codex_tempo.Projector.{project}
use codex_tempo.Postgres.{ProjectMetadata, Engine, ProjectRow, Database}
use codex_tempo.Postgres.Rebuild.{
  insert_runs, delete_runs, replace_runs, use_projects, use_project, rebuild_project,
  rebuild_events, rebuild_session,
}
use codex_tempo.Postgres.Rows.{project_from_events, session_project, upsert_project, session_events}
use codex_tempo.Postgres.Ingest.{rebuild_sessions}

-- The runs are those given, under one project, beside those of other sessions.
pub record IsReplaced (id : Text) (runs : List Run) (db next : Database) : Type 0 where
  pub project_id : Text
  pub inserted : insert_runs project_id runs (delete_runs id db.runs) ≡ some next.runs
  pub events : next.events ≡ db.events

replace_runs-IsReplaced :
    (id machine project_id : Text) (metadata : ProjectMetadata) (events : List Event) (at : ℕ)
    (runs : List Run) (projects : List ProjectRow) (db next : Database)
    → replace_runs id machine project_id metadata events at runs projects db ≡ some next
    → IsReplaced id runs db next
unfolding replace_runs
replace_runs-IsReplaced id machine project_id metadata events at runs projects db next h =
    elim (Option-cases (insert_runs project_id runs (delete_runs id db.runs))) [
      | inl e ↦ ground (arith, h, e)
      | inr (rows, e) ↦ record {
        project_id = project_id;
        inserted = ground (arith, h, e);
        events = ground (arith, h, e);
      }
    ]

use_projects-IsReplaced :
    (o : Option (List ProjectRow)) (id machine project_id : Text) (metadata : ProjectMetadata)
    (events : List Event) (at : ℕ) (runs : List Run) (db next : Database)
    → use_projects o id machine project_id metadata events at runs db ≡ some next
    → IsReplaced id runs db next
unfolding use_projects
use_projects-IsReplaced none id machine project_id metadata events at runs db next h = cc
use_projects-IsReplaced (some projects) id machine project_id metadata events at runs db next h =
    replace_runs-IsReplaced id machine project_id metadata events at runs projects db next h

use_project-IsReplaced :
    (o : Option Text) (fingerprint name : Text) (now : ℕ) (id machine : Text)
    (metadata : ProjectMetadata) (events : List Event) (at : ℕ) (runs : List Run)
    (db next : Database)
    → use_project o fingerprint name now id machine metadata events at runs db ≡ some next
    → IsReplaced id runs db next
unfolding use_project
use_project-IsReplaced none fingerprint name now id machine metadata events at runs db next h = cc
use_project-IsReplaced (some key) fingerprint name now id machine metadata events at runs db next
      h =
    use_projects-IsReplaced
      (upsert_project key fingerprint name metadata.remote_hash now db.projects) id machine key
      metadata events at runs db next h

rebuild_project-IsReplaced :
    (engine : Engine) (now : ℕ) (machine id project_id : Text) (metadata : ProjectMetadata)
    (events : List Event) (at : ℕ) (runs : List Run) (db next : Database)
    → rebuild_project engine now machine id project_id metadata events at runs db ≡ some next
    → IsReplaced id runs db next
unfolding rebuild_project
rebuild_project-IsReplaced engine now machine id project_id metadata events at runs db next h =
    use_project-IsReplaced _ _ _ now id machine metadata events at runs db next h

pub data IsRebuilt (engine : Engine) (id : Text) (events : List Event) (db next : Database)
    : Type 0 where
  unchanged :
      session_project (project_from_events engine events) (project engine.decode events) ≡ []
      → next ≡ db
      → IsRebuilt engine id events db next
  replaced :
      IsReplaced id (project engine.decode events) db next → IsRebuilt engine id events db next

no_events :
    (engine : Engine)
    → session_project (project_from_events engine []) (project engine.decode []) ≡ []
unfolding session_project project_from_events project sort_by values
no_events engine = refl

pub rebuild_events-IsRebuilt :
    (engine : Engine) (now : ℕ) (machine id : Text) (events : List Event) (db next : Database)
    → rebuild_events engine now machine id events db ≡ some next
    → IsRebuilt engine id events db next
unfolding rebuild_events
rebuild_events-IsRebuilt engine now machine id [] db next h = unchanged (no_events engine) cc
rebuild_events-IsRebuilt engine now machine id (event ∷ events) db next h =
    let all = event ∷ events in
    let runs = project engine.decode all in
    let metadata = project_from_events engine all in
    let project_id = session_project metadata runs in
    elim (Bool-cases (text_eq project_id [])) [
      | inl e ↦ unchanged ((text_eq_iff project_id []).0 e) (sym (ground (arith, h, e)))
      | inr e ↦ elim (Bool-cases (engine.is_uuid project_id)) [
        | inl u ↦ replaced (
            rebuild_project-IsReplaced engine now machine id project_id metadata all
              event.occurred_at runs db next (ground (arith, h, e, u)))
        | inr u ↦ ground (arith, h, e, u)
      ]
    ]

-- A session's rebuilding: without an error as above, with one it leaves the database.
pub rebuild_session-cases :
    (engine : Engine) (now : ℕ) (machine id : Text) (db : Database)
    → ((rebuild_session engine now machine id db).0 ≡ true
        → IsRebuilt engine id
            (session_events id db)
            db
            (rebuild_session engine now machine id db).1)
      × ((rebuild_session engine now machine id db).0 ≡ false
          → (rebuild_session engine now machine id db).1 ≡ db)
unfolding rebuild_session
rebuild_session-cases engine now machine id db =
    elim (Option-cases (rebuild_events engine now machine id (session_events id db) db)) [
      | inl e ↦ rw e (λ h. cc, λ h. refl)
      | inr (next, e) ↦ rw e (
        λ h. rebuild_events-IsRebuilt engine now machine id (session_events id db) db next e,
        λ h. cc,
      )
    ]

IsRebuilt-events :
    (engine : Engine) (id : Text) (events : List Event) (db next : Database)
    → IsRebuilt engine id events db next
    → next.events ≡ db.events
IsRebuilt-events engine id events db next (unchanged n e) = rw e refl
IsRebuilt-events engine id events db next (replaced r) = r.events

rebuild_session-events :
    (engine : Engine) (now : ℕ) (machine id : Text) (db : Database)
    → (rebuild_session engine now machine id db).1.events ≡ db.events
rebuild_session-events engine now machine id db =
    let (good, bad) = rebuild_session-cases engine now machine id db in
    elim (Bool-cases (rebuild_session engine now machine id db).0) [
      | inl e ↦ IsRebuilt-events engine id (session_events id db) db _ (good e)
      | inr e ↦ ap (λ d. d.events) (bad e)
    ]

-- Rebuilding leaves the events.
pub rebuild_sessions-events :
    (engine : Engine) (now : ℕ) (machine : Text) (ids : List Text) (db : Database)
    → (rebuild_sessions engine now machine ids db).1.events ≡ db.events
unfolding rebuild_sessions
rebuild_sessions-events engine now machine [] db = refl
rebuild_sessions-events engine now machine (id ∷ ids) db =
    let r = rebuild_session engine now machine id db in
    elim (Bool-cases r.0) [
      | inl e ↦
          rw (rebuild_sessions, e)
            (rebuild_sessions-events engine now machine ids r.1
              ∙ rebuild_session-events engine now machine id db)
      | inr e ↦ rw (rebuild_sessions, e) (rebuild_session-events engine now machine id db)
    ]
