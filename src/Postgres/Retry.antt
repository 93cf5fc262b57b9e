-- ===== src/Postgres/Retry.antt =====
-- internal/postgres/store.go: a batch that a client sends again, as after a lost response.
use codex_tempo.Common.{
  ℕ, ◌+◌, ◌≡◌, refl, Option, none, some, Bool, false, List, [], ◌∷◌, map, if◌then◌else◌, arith, All,
  length, ap, sym, ◌∙◌,
}
use codex_tempo.Common.Text.{Text, text_eq}
use codex_tempo.Domain.{Event}
use codex_tempo.Sync.{Rejection}
use codex_tempo.Postgres.{Engine, Machine, Database, update, timestamp}
use codex_tempo.Postgres.Machines.{is_machine}
use codex_tempo.Postgres.Ingest.{
  IngestResult, Progress, no_progress, ingest_events, rebuild_sessions, commit_events,
  finish_ingest, ingest,
}
use codex_tempo.Postgres.Counts.{ingest_events-lem}
use codex_tempo.Postgres.Stored.{ingest-IsIngested, IsIngested-events, ingest-key}
use codex_tempo.Postgres.Fixed.{IsFixed}
use codex_tempo.Postgres.Settled.{loop-settles, loop-refusals, ingest_events-IsIdle}

result-path :
    (r : IngestResult) {a d : ℕ} {rejected : List Rejection}
    → r.accepted ≡ a
    → r.duplicates ≡ d
    → r.rejected ≡ rejected
    → r ≡ record { accepted = a; duplicates = d; rejected = rejected }
result-path r a d e i = record { accepted = a i; duplicates = d i; rejected = e i }

commit_events-frame :
    (now : ℕ) (key : Text) (rows : List Event) (db : Database)
    → let next = commit_events now key rows db in
      (next.events ≡ rows)
      × (next.runs ≡ db.runs)
      × (next.sessions ≡ db.sessions)
      × (next.projects ≡ db.projects)
unfolding commit_events
commit_events-frame now key rows db = (refl, refl, refl, refl)

-- Whether a machine is the one of an id that may be cast.
abbrev pub is_called : Option Text → Machine → Bool
is_called none m = false
is_called (some key) m = text_eq m.id key

-- The machine of the id was last seen at the time, and the others as before.
abbrev pub seen : Option Text → ℕ → Machine → Machine
seen key at m = record m {
  last_seen_at = if is_called key m then some (timestamp at) else m.last_seen_at;
}

update-map :
    (now : ℕ) (key : Text) (machines : List Machine)
    → update (is_machine key) (λ m. record m { last_seen_at = some (timestamp now) }) machines
      ≡ map (seen (some key) now) machines
update-map now key [] = refl
update-map now key (m ∷ machines) = ground (arith, update-map now key machines)

commit_events-machines :
    (now : ℕ) (key : Text) (rows : List Event) (db : Database)
    → (commit_events (timestamp now) key rows db).machines ≡ map (seen (some key) now) db.machines
unfolding commit_events
commit_events-machines now key rows db = update-map now key db.machines

-- A loop that touched no session ends the call at once.
idle-finish :
    (engine : Engine) (now : ℕ) (key : Text) (t : Progress) (db : Database)
    → t.touched ≡ []
    → finish_ingest engine now key (some t) db ≡ (some t.result, commit_events now key t.rows db)
unfolding finish_ingest rebuild_sessions
idle-finish engine now key t db e = rw (finish_ingest, rebuild_sessions, e) refl

idle-result :
    (engine : Engine) (key : Text) (events rows : List Event) (t : Progress) (again : Progress)
    → ingest_events engine key events (no_progress rows) ≡ some t
    → ingest_events engine key events (no_progress t.rows) ≡ some again
    → again.result.accepted ≡ 0
    → again.result ≡ record {
      accepted = 0;
      duplicates = t.result.accepted + t.result.duplicates;
      rejected = t.result.rejected;
    }
idle-result engine key events rows t again p q a =
    let first = loop-refusals engine key events (no_progress rows) t p in
    let second = loop-refusals engine key events (no_progress t.rows) again q in
    let same : again.result.rejected ≡ t.result.rejected = second ∙ sym first in
    let (m, _) = ingest_events-lem engine key events rows t p in
    let (n, _) = ingest_events-lem engine key events t.rows again q in
    let d : again.result.duplicates ≡ t.result.accepted + t.result.duplicates =
      omega (arith, m, n, a, ap length same) in
    result-path again.result a d same

-- A table without Wakapi events takes a batch without any, and the call has no error; the client that
-- sends the batch again, at whatever time, gets the same rejections and all else as duplicates; events,
-- runs, sessions and projects stay, and of the machines nothing changes but the time at which the one
-- that sends was last seen.
pub ingest_again :
    (engine : Engine) (now later : ℕ) (machine_id : Text) (events : List Event) (db next : Database)
    (result : IngestResult)
    → All IsFixed db.events
    → All IsFixed events
    → ingest engine now machine_id events db ≡ (some result, next)
    → let (again, last) = ingest engine later machine_id events next in
      (again
        ≡ some (record {
          accepted = 0;
          duplicates = result.accepted + result.duplicates;
          rejected = result.rejected;
        }))
      × (last.events ≡ next.events)
      × (last.runs ≡ next.runs)
      × (last.sessions ≡ next.sessions)
      × (last.projects ≡ next.projects)
      × (last.machines ≡ map (seen (engine.cast_uuid machine_id) later) next.machines)
ingest_again engine now later machine_id events db next result fixed own h =
    let i = ingest-IsIngested engine now machine_id events db next result h in
    let (settled, kept, _) =
      loop-settles engine i.key events (no_progress db.events) i.last own fixed i.loop in
    let rows = IsIngested-events engine now machine_id events db next result i in
    let (t, q, idle) =
      ingest_events-IsIdle engine i.key events (no_progress next.events) (rw rows kept)
        (rw rows settled) in
    let result_path =
      idle-result engine i.key events db.events i.last t i.loop (rw (← rows) q) idle.accepted in
    let call : ingest engine later machine_id events next
        ≡ (some t.result, commit_events (timestamp later) i.key t.rows next) =
      ingest-key engine later machine_id i.key events next i.cast
      ∙ rw q (idle-finish engine (timestamp later) i.key t next idle.touched) in
    let frame = commit_events-frame (timestamp later) i.key t.rows next in
    (
      ap (λ (r : Option IngestResult × Database). r.0) call
          ∙ ap (λ (r : IngestResult). some r) (rw (i.answer) result_path),
      ap (λ (r : Option IngestResult × Database). r.1.events) call ∙ frame.0 ∙ idle.rows,
      ap (λ (r : Option IngestResult × Database). r.1.runs) call ∙ frame.1,
      ap (λ (r : Option IngestResult × Database). r.1.sessions) call ∙ frame.2,
      ap (λ (r : Option IngestResult × Database). r.1.projects) call ∙ frame.3,
      ap (λ (r : Option IngestResult × Database). r.1.machines) call
          ∙ commit_events-machines later i.key t.rows next
          ∙ ap (λ key. map (seen key later) next.machines) (sym i.cast),
    )
