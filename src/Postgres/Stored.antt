-- ===== src/Postgres/Stored.antt =====
-- internal/postgres/store.go: what an `Ingest` without an error has done.
use codex_tempo.Common.{
  ℕ, ◌≡◌, refl, Bool, true, none, some, List, arith, All, length, Option-cases, Bool-cases, inl,
  inr, ap, sym, ◌∙◌,
}
use codex_tempo.Common.Text.{Text}
use codex_tempo.Domain.{Event}
use codex_tempo.Postgres.{Engine, Database, timestamp}
use codex_tempo.Postgres.Ingest.{
  IngestResult, Progress, no_progress, ingest_events, rebuild_sessions, commit_events,
  finish_ingest, ingest,
}
use codex_tempo.Postgres.Counts.{answered, IsHandled, ingest_events-lem}
use codex_tempo.Postgres.Rebuilt.{rebuild_sessions-events}

-- The loop, the commit and the rebuilding that make up the call.
pub record IsIngested (engine : Engine) (now : ℕ) (machine_id : Text) (events : List Event)
    (db : Database) (result : IngestResult) (next : Database) : Type 0 where
  pub key : Text
  pub last : Progress
  pub cast : engine.cast_uuid machine_id ≡ some key
  pub loop : ingest_events engine key events (no_progress db.events) ≡ some last
  pub rebuilt :
      rebuild_sessions engine
        (timestamp now)
        key
        last.touched
        (commit_events (timestamp now) key last.rows db)
      ≡ (true, next)
  pub answer : result ≡ last.result

finish_ingest-some :
    (engine : Engine) (now : ℕ) (key : Text) (t : Progress) (db next : Database)
    (result : IngestResult)
    → finish_ingest engine now key (some t) db ≡ (some result, next)
    → (rebuild_sessions engine now key t.touched (commit_events now key t.rows db) ≡ (true, next))
      × (result ≡ t.result)
unfolding finish_ingest
finish_ingest-some engine now key t db next result h =
    let r = rebuild_sessions engine now key t.touched (commit_events now key t.rows db) in
    elim (Bool-cases r.0) [
      | inl e ↦ (ground (arith, h, e), ground (arith, h, e))
      | inr e ↦ ground (arith, h, e)
    ]

pub ingest-key :
    (engine : Engine) (now : ℕ) (machine_id key : Text) (events : List Event) (db : Database)
    → engine.cast_uuid machine_id ≡ some key
    → ingest engine now machine_id events db
      ≡ finish_ingest engine
          (timestamp now)
          key
          (ingest_events engine key events (no_progress db.events))
          db
unfolding ingest
ingest-key engine now machine_id key events db c = rw (ingest, c) refl

finish_ingest-none :
    (engine : Engine) (now : ℕ) (key : Text) (db next : Database) (result : IngestResult)
    → ¬ (finish_ingest engine now key none db ≡ (some result, next))
unfolding finish_ingest
finish_ingest-none engine now key db next result h = ground (arith, h)

ingest-uncast :
    (engine : Engine) (now : ℕ) (machine_id : Text) (events : List Event) (db next : Database)
    (result : IngestResult)
    → engine.cast_uuid machine_id ≡ none
    → ¬ (ingest engine now machine_id events db ≡ (some result, next))
unfolding ingest
ingest-uncast engine now machine_id events db next result c h = ground (arith, h, c)

pub ingest-IsIngested :
    (engine : Engine) (now : ℕ) (machine_id : Text) (events : List Event) (db next : Database)
    (result : IngestResult)
    → ingest engine now machine_id events db ≡ (some result, next)
    → IsIngested engine now machine_id events db result next
ingest-IsIngested engine now machine_id events db next result h =
    elim (Option-cases (engine.cast_uuid machine_id)) [
      | inl e ↦ absurd (ingest-uncast engine now machine_id events db next result e h)
      | inr (key, e) ↦
          let run = ingest_events engine key events (no_progress db.events) in
          let all = sym (ingest-key engine now machine_id key events db e) ∙ h in
          elim (Option-cases run) [
            | inl q ↦ absurd (
                finish_ingest-none engine (timestamp now) key db next result
                  (sym (ap (λ o. finish_ingest engine (timestamp now) key o db) q) ∙ all))
            | inr (t, q) ↦
                let (rebuilt, answer) =
                  finish_ingest-some engine (timestamp now) key t db next result
                    (sym (ap (λ o. finish_ingest engine (timestamp now) key o db) q) ∙ all) in
                record {
                  key = key;
                  last = t;
                  cast = e;
                  loop = q;
                  rebuilt = rebuilt;
                  answer = answer;
                }
          ]
    ]

commit_events-events :
    (now : ℕ) (key : Text) (rows : List Event) (db : Database)
    → (commit_events now key rows db).events ≡ rows
unfolding commit_events
commit_events-events now key rows db = refl

pub IsIngested-events :
    (engine : Engine) (now : ℕ) (machine_id : Text) (events : List Event) (db next : Database)
    (result : IngestResult)
    → (i : IsIngested engine now machine_id events db result next) → next.events ≡ i.last.rows
IsIngested-events engine now machine_id events db next result i =
    let before = commit_events (timestamp now) i.key i.last.rows db in
    ap (λ (r : Bool × Database). r.1.events) (sym i.rebuilt)
    ∙ rebuild_sessions-events engine (timestamp now) i.key i.last.touched before
    ∙ commit_events-events (timestamp now) i.key i.last.rows db

-- Where `Ingest` returns a result, its counts of accepted and duplicate events and its rejections add up
-- to the number of events, and each event's id is either among the rejections or, as a uuid, that of a
-- row of the table `events`.
pub ingest_lem :
    (engine : Engine) (now : ℕ) (machine_id : Text) (events : List Event) (db next : Database)
    (result : IngestResult)
    → ingest engine now machine_id events db ≡ (some result, next)
    → (answered result ≡ length events) × All (IsHandled engine result.rejected next.events) events
ingest_lem engine now machine_id events db next result h =
    let i = ingest-IsIngested engine now machine_id events db next result h in
    rw (i.answer, IsIngested-events engine now machine_id events db next result i)
      (ingest_events-lem engine i.key events db.events i.last i.loop)
