-- ===== src/Postgres/Queries.antt =====
-- internal/postgres/store.go: the queries of the server's reports, with `now` the transaction's time in
-- microseconds. Rows that an `ORDER BY` does not tell apart come in the order of their table, one of the
-- orders PostgreSQL may take. A difference of times is kept as its nanoseconds.
use codex_tempo.Common.{
  ℕ, ◌+◌, ◌-◌, ◌*◌, Bool, true, false, not, ◌&&◌, Option, none, some, List, [], ◌∷◌, map, filter,
  length, total, ltb, leb, min, if◌then◌else◌,
}
use codex_tempo.Common.Text.{Text, codes, text_eq, text_lt}
use codex_tempo.Common.Sort.{sort_by}
use codex_tempo.Domain.{abandoned, Run, Session}
use codex_tempo.Localdb.Stamp.{second}
use codex_tempo.Localdb.Queue.{take}
use codex_tempo.Postgres.{
  Engine, Machine, ProjectRow, SessionRow, Database, or_else, coalesce, timestamp,
}

-- `LEAST(last_activity_at + interval '90 seconds', started_at + interval '12 hours')`
unfoldable pub run_deadline : Run → ℕ
run_deadline run = min (run.last_activity_at + 90 * second) (run.started_at + 43200 * second)

-- `UPDATE runs SET … WHERE ended_at IS NULL AND now() >= LEAST(…)`
unfoldable pub expire_run : ℕ → Run → Run
unfolding run_deadline
expire_run now run = elim run.ended_at [
  | some at ↦ run
  | none ↦
      if leb (run_deadline run) now
      then record run {
        ended_at = some (run_deadline run);
        last_activity_at = run_deadline run;
        status = abandoned;
        close_reason = codes "lease_expired";
      }
      else run
]

unfoldable pub expire_runs : ℕ → Database → Database
unfolding expire_run
expire_runs now db = record db { runs = map (expire_run now) db.runs }

-- `started_at<$2 AND COALESCE(ended_at,now())>$1`
unfoldable pub is_within : ℕ → ℕ → ℕ → Run → Bool
is_within now from to run = ltb run.started_at to && ltb from (or_else run.ended_at now)

abbrev is_running : Run → Bool
is_running run = elim run.ended_at [ none ↦ true | some at ↦ false ]

-- The conditions of the query; the last is of the project's uuid, where one is asked for.
unfoldable pub is_selected : ℕ → ℕ → ℕ → Bool → Option Text → Run → Bool
unfolding is_within
is_selected now from to active_only project run =
    is_within now from to run
    && ((if active_only then is_running run else true)
        && elim project [ none ↦ true | some id ↦ text_eq run.project_id id ])

-- `$3` where it is used: `none` is the error of a text that is no uuid.
unfoldable pub project_argument : Engine → Text → Option (Option Text)
project_argument engine [] = some none
project_argument engine (c ∷ id) = elim (engine.cast_uuid (c ∷ id)) [
  | none ↦ none
  | some key ↦ some (some key)
]

unfoldable pub select_runs : ℕ → ℕ → ℕ → Bool → Option Text → List Run → List Run
unfolding is_selected
select_runs now from to active_only project runs =
    sort_by (λ a b. ltb b.started_at a.started_at)
      (filter (is_selected now from to active_only project) runs)

-- `Runs`; the update stays when the query fails.
unfoldable pub runs_between :
    Engine → ℕ → ℕ → ℕ → Bool → Text → Database → Option (List Run) × Database
unfolding expire_runs project_argument select_runs
runs_between engine now from to active_only project_id db =
    let expired = expire_runs now db in
    (
      elim (project_argument engine project_id) [
        | none ↦ none
        | some project ↦
            some (select_runs now (timestamp from) (timestamp to) active_only project expired.runs)
      ],
      expired,
    )

-- `max`, which is NULL of no rows.
unfoldable pub latest : List ℕ → Option ℕ
latest [] = none
latest (t ∷ ts) = elim (latest ts) [ none ↦ some t | some m ↦ some (if ltb m t then t else m) ]

pub record ProjectSummary : Type 0 where
  pub id : Text
  pub name : Text
  pub run_count : ℕ
  pub agent_time : ℕ
  pub last_active_at : Option ℕ

unfoldable pub summary_of : List Run → ProjectRow → ProjectSummary
unfolding latest
summary_of runs p =
    let own = filter (λ run. text_eq run.project_id p.id) runs in
    record {
      id = p.id;
      name = p.name;
      run_count = length own;
      agent_time = total (λ run. or_else run.ended_at run.last_activity_at - run.started_at) own;
      last_active_at = latest (map (λ run. run.last_activity_at) own);
    }

-- `ORDER BY … DESC NULLS LAST`
unfoldable pub later_first : Option ℕ → Option ℕ → Bool
later_first none b = false
later_first (some a) none = true
later_first (some a) (some b) = ltb b a

-- `Projects`
unfoldable pub list_projects : Database → List ProjectSummary
unfolding summary_of later_first
list_projects db =
    sort_by (λ a b. later_first a.last_active_at b.last_active_at)
      (map (summary_of db.runs) db.projects)

-- A session of the list, with the time and the number of its runs.
unfoldable pub session_of_row : List Run → SessionRow → Session
unfolding latest
session_of_row runs s =
    let own = filter (λ run. text_eq run.session_id s.id) runs in
    record {
      id = s.id;
      machine_id = s.machine_id;
      project_id = s.project_id;
      cwd = or_else s.cwd [];
      worktree_name = or_else s.worktree_name [];
      worktree_path = or_else s.worktree_path [];
      is_worktree = s.is_worktree;
      source = s.source;
      codex_version = or_else s.codex_version [];
      started_at = s.started_at;
      ended_at = s.ended_at;
      last_activity_at =
          or_else
            (coalesce (latest (map (λ run. or_else run.ended_at run.last_activity_at) own))
              s.ended_at)
            s.started_at;
      run_count = length own;
    }

-- `Sessions`
unfoldable pub list_sessions : Database → List Session
unfolding session_of_row
list_sessions db = take 200 (
    sort_by (λ a b. ltb b.last_activity_at a.last_activity_at)
      (map (session_of_row db.runs)
        (filter (λ s. not (text_eq s.source (codes "wakapi"))) db.sessions)))

-- `Machines`: without the hash of the token. The order of names is that of their bytes, the collation
-- `C`.
pub record MachineSummary : Type 0 where
  pub id : Text
  pub name : Text
  pub created_at : ℕ
  pub last_seen_at : Option ℕ

unfoldable pub list_machines : Database → List MachineSummary
list_machines db =
    map
      (λ m. record {
        id = m.id;
        name = m.name;
        created_at = m.created_at;
        last_seen_at = m.last_seen_at;
      })
      (sort_by (λ (a b : Machine). text_lt a.name b.name) db.machines)
