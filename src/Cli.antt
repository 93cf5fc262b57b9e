-- ===== src/Cli.antt =====
-- apps/cli/main.go: the commands on the local database. A command's error ends the program, `none`
-- here; the printing of its value as JSON is not modelled. `Zone` is the calendar of the local time.
pub mod Intervals
pub mod Hook
pub mod Import
pub mod Drained
pub mod Triple
pub mod Worked
use codex_tempo.Common.{
  ℕ, ◌+◌, ◌-◌, ◌*◌, ◌%◌, true, false, none, some, List, [], ◌∷◌, ◌++◌, any, filter, if◌then◌else◌,
}
use codex_tempo.Common.Text.{Text, codes, text_eq, text_lt}
use codex_tempo.Common.Sort.{sort_by}
use codex_tempo.Domain.{Run}
use codex_tempo.Interval.Summary.{Summary, summarize}
use codex_tempo.Projector.{EventPayload, project, reconcile_open}
use codex_tempo.Localdb.{Store}
use codex_tempo.Localdb.Stamp.{second}
use codex_tempo.Localdb.Queue.{events_between, Diagnostics, diagnostics, machine_id, reset_cursors}

-- The start of an instant's day, its weekday (Sunday is 0), and the day so many days later or earlier.
pub record Zone : Type 0 where
  pub start_of_day : ℕ → ℕ
  pub weekday : ℕ → ℕ
  pub later : ℕ → ℕ → ℕ
  pub earlier : ℕ → ℕ → ℕ

-- `rangeFor`
unfoldable pub range_for : Zone → Text → ℕ → ℕ × ℕ
range_for zone period now =
    let today = zone.start_of_day now in
    if text_eq period (codes "week")
    then (
      zone.earlier today ((zone.weekday today + 6) % 7),
      zone.later (zone.earlier today ((zone.weekday today + 6) % 7)) 7,
    )
    else (today, zone.later today 1)

abbrev half_day : ℕ
half_day = 43200 * second

-- 1970-01-01, from which the lists of sessions and projects read.
abbrev pub unix_time : ℕ
unix_time = 62135596800 * second

module _ (decode : Text → EventPayload) where
  -- `report`
  unfoldable pub report : Zone → Text → ℕ → Store → Summary
  unfolding range_for
  report zone period now s =
      let (from, to) = range_for zone period now in
      let events = events_between (from - half_day) to s in
      summarize (reconcile_open (project decode events) now (90 * second) half_day) from to now

  -- `timeline`
  unfoldable pub timeline : Zone → ℕ → Store → List Run
  unfolding range_for
  timeline zone now s =
      let (from, to) = range_for zone (codes "today") now in
      project decode (events_between (from - half_day) to s)

  -- The runs of all events up to now.
  unfoldable pub all_runs : ℕ → Store → List Run
  all_runs now s = project decode (events_between unix_time (now + second) s)

  -- `sessions`
  unfoldable pub active_sessions : ℕ → Store → List Run
  unfolding all_runs
  active_sessions now s =
      filter (λ run. elim run.ended_at [ none ↦ true | some at ↦ false ]) (all_runs now s)

  -- The loop over the runs of `projects`.
  unfoldable pub distinct_projects : List Run → List Text → List Text
  distinct_projects [] ids = ids
  distinct_projects (run ∷ runs) ids =
      distinct_projects runs
        (if any (text_eq run.project_id) ids then ids else ids ++ run.project_id ∷ [])

  -- `projects`
  unfoldable pub projects : ℕ → Store → List Text
  unfolding all_runs distinct_projects
  projects now s = sort_by text_lt (distinct_projects (all_runs now s) [])

-- `doctor`: the machine's id, made where there is none, and the counts.
unfoldable pub doctor : Text → Store → (Text × Diagnostics) × Store
doctor fresh s =
    let counts = diagnostics s in let (id, s') = machine_id fresh s in ((id, counts), s')

-- `reparse`
unfoldable pub reparse : Store → Store
unfolding reset_cursors
reparse s = reset_cursors s
