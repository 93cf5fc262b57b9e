-- ===== src/Postgres/Projection.antt =====
-- internal/postgres/store.go: the runs of the table `runs` after `RebuildSession`, beside `Project` of
-- internal/projector/projector.go.
use codex_tempo.Common.{
  ℕ, ◌≡◌, ◌≢◌, refl, ap, ◌∙◌, Bool, true, not, some, List, [], ◌∷◌, ◌++◌, arith, All, map, filter,
  Option-cases, Bool-cases, inl, inr,
}
use mathlib.Core.Path.{subst}
use mathlib.Core.List.{Memᴰ, append_assoc, append-nil}
use codex_tempo.Common.Text.{Text, text_eq}
use codex_tempo.Common.Sort.{All-sort_by}
use codex_tempo.Domain.{Event, Run}
use codex_tempo.Projector.{project}
use codex_tempo.Projector.Origin.{IsOrigin, project-IsOrigin}
use codex_tempo.Postgres.{Engine, Database}
use codex_tempo.Postgres.Rebuild.{insert_run, insert_runs, delete_runs, rebuild_session}
use codex_tempo.Postgres.Rows.{
  row_less, in_session, session_events, project_from_events, session_project,
}
use codex_tempo.Postgres.Rebuilt.{IsReplaced, unchanged, replaced, rebuild_session-cases}

abbrev pub of_session : Text → Run → Bool
of_session id run = text_eq run.session_id id

abbrev pub not_of_session : Text → Run → Bool
not_of_session id run = not (text_eq run.session_id id)

abbrev pub with_project : Text → Run → Run
with_project project_id run = record run { project_id = project_id }

insert_run-append :
    (project_id : Text) (run : Run) (rows next : List Run)
    → insert_run project_id run rows ≡ some next
    → next ≡ rows ++ with_project project_id run ∷ []
unfolding insert_run
insert_run-append project_id run rows next h = ground (arith, h)

-- The statements put the runs after the rows, in their order.
insert_runs-append :
    (project_id : Text) (runs rows next : List Run)
    → insert_runs project_id runs rows ≡ some next
    → next ≡ rows ++ map (with_project project_id) runs
unfolding insert_runs
insert_runs-append project_id [] rows next h = ground (arith, h, append-nil rows)
insert_runs-append project_id (run ∷ runs) rows next h =
    elim (Option-cases (insert_run project_id run rows)) [
      | inl e ↦ ground (arith, h, e)
      | inr (more, e) ↦
          insert_runs-append project_id runs more next (ground (arith, h, e))
          ∙ ap (λ r. r ++ map (with_project project_id) runs)
              (insert_run-append project_id run rows more e)
          ∙ append_assoc rows (with_project project_id run ∷ [])
              (map (with_project project_id) runs)
    ]

filter-append :
    (p : Run → Bool) (xs ys : List Run) → filter p (xs ++ ys) ≡ filter p xs ++ filter p ys
filter-append p [] ys = refl
filter-append p (x ∷ xs) ys = ground (arith, filter-append p xs ys)

deleted-own : (id : Text) (rows : List Run) → filter (of_session id) (delete_runs id rows) ≡ []
unfolding delete_runs
deleted-own id [] = refl
deleted-own id (row ∷ rows) = ground (arith, deleted-own id rows)

deleted-others :
    (id : Text) (rows : List Run)
    → filter (not_of_session id) (delete_runs id rows) ≡ filter (not_of_session id) rows
unfolding delete_runs
deleted-others id [] = refl
deleted-others id (row ∷ rows) = ground (arith, deleted-others id rows)

-- Runs of the session, whatever their project.
own-kept :
    (id project_id : Text) (runs : List Run)
    → All (λ run. of_session id run ≡ true) runs
    → (filter (of_session id) (map (with_project project_id) runs)
        ≡ map (with_project project_id) runs)
      × (filter (not_of_session id) (map (with_project project_id) runs) ≡ [])
own-kept id project_id [] h = (refl, refl)
own-kept id project_id (run ∷ runs) (e, h) =
    let (own, others) = own-kept id project_id runs h in
    (ground (arith, own, e), ground (arith, others, e))

All-filter :
    (id : Text) (rows : List Event)
    → All (λ row. in_session id row ≡ true) (filter (in_session id) rows)
All-filter id [] = tt
All-filter id (row ∷ rows) = elim (Bool-cases (in_session id row)) [
  | inl e ↦ rw e (e, All-filter id rows)
  | inr e ↦ rw e (All-filter id rows)
]

session_events-own :
    (id : Text) (db : Database) → All (λ row. in_session id row ≡ true) (session_events id db)
unfolding session_events
session_events-own id db =
    All-sort_by row_less (λ (row : Event). in_session id row ≡ true) _ (All-filter id db.events)

All-Mem :
    (P : Event → Type 0) (event : Event) (rows : List Event)
    → Memᴰ event rows
    → All P rows
    → P event
All-Mem P event [] m h = elim m [ ]
All-Mem P event (row ∷ rows) (Memᴰ.head e) (h, _) = rw e h
All-Mem P event (row ∷ rows) (Memᴰ.tail m) (_, h) = All-Mem P event rows m h

origins-own :
    (engine : Engine) (id : Text) (events : List Event) (runs : List Run)
    → All (λ row. in_session id row ≡ true) events
    → All (λ run. (event : Event) × IsOrigin engine.decode events run event) runs
    → All (λ run. of_session id run ≡ true) runs
origins-own engine id events [] h o = tt
origins-own engine id events (run ∷ runs) h ((event, origin), o) = (
  rw (origin.session) (All-Mem (λ row. in_session id row ≡ true) event events origin.given h),
  origins-own engine id events runs h o,
)

project-own :
    (engine : Engine) (id : Text) (db : Database)
    → All (λ run. of_session id run ≡ true) (project engine.decode (session_events id db))
project-own engine id db =
    origins-own engine id (session_events id db) _ (session_events-own id db)
      (project-IsOrigin engine.decode (session_events id db))

-- The rows are the projection of the session's events, under one project; other sessions' are as before.
pub record IsProjected (engine : Engine) (id : Text) (db next : Database) : Type 0 where
  pub project_id : Text
  pub own :
      filter (of_session id) next.runs
      ≡ map (with_project project_id) (project engine.decode (session_events id db))
  pub others : filter (not_of_session id) next.runs ≡ filter (not_of_session id) db.runs
  pub events : next.events ≡ db.events

IsReplaced-IsProjected :
    (engine : Engine) (id : Text) (db next : Database)
    → IsReplaced id (project engine.decode (session_events id db)) db next
    → IsProjected engine id db next
IsReplaced-IsProjected engine id db next r =
    let runs = project engine.decode (session_events id db) in
    let rows = delete_runs id db.runs in
    let new = map (with_project r.project_id) runs in
    let all = insert_runs-append r.project_id runs rows next.runs r.inserted in
    let (own, others) = own-kept id r.project_id runs (project-own engine id db) in
    record {
      project_id = r.project_id;
      own =
          ap (filter (of_session id)) all
          ∙ filter-append (of_session id) rows new
          ∙ ap (λ l. l ++ filter (of_session id) new) (deleted-own id db.runs)
          ∙ own;
      others =
          ap (filter (not_of_session id)) all
          ∙ filter-append (not_of_session id) rows new
          ∙ ap (λ l. filter (not_of_session id) rows ++ l) others
          ∙ append-nil (filter (not_of_session id) rows)
          ∙ deleted-others id db.runs;
      events = r.events;
    }

-- Where `RebuildSession` succeeds for a session whose events or runs name a project, the session's rows
-- of `runs` are what `Project` makes of the session's events in the query's order, each with the id of
-- one project, and the rows of other sessions and the table `events` are as before.
pub rebuild_session-IsProjected :
    (engine : Engine) (now : ℕ) (machine_id id : Text) (db next : Database)
    → session_project
        (project_from_events engine (session_events id db))
        (project engine.decode (session_events id db))
      ≢ []
    → rebuild_session engine now machine_id id db ≡ (true, next)
    → IsProjected engine id db next
rebuild_session-IsProjected engine now machine_id id db next named h =
    let (good, _) = rebuild_session-cases engine now machine_id id db in
    elim (good (ap (λ (r : Bool × Database). r.0) h)) [
      | unchanged n e ↦ absurd (named n)
      | replaced r ↦
          subst (λ (r : Bool × Database). IsProjected engine id db r.1) h
            (IsReplaced-IsProjected engine id db _ r)
    ]
