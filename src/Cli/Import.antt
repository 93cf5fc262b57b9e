-- ===== src/Cli/Import.antt =====
-- apps/cli/main.go: the command `import wakapi`. `lower` is `strings.ToLower`. The deadline of ten
-- minutes and the printing of the result are not modelled.
use codex_tempo.Common.{
  ℕ, zero, suc, Bool, true, false, ◌||◌, Option, none, some, List, [], ◌∷◌, ◌++◌, ltb,
  if◌then◌else◌, length,
}
use codex_tempo.Common.Text.{Text, codes, text_eq}
use codex_tempo.Common.Word.{add64, time_sub}
use codex_tempo.Domain.{Event, session_started, run_started, run_completed}
use codex_tempo.Localdb.{Store}
use codex_tempo.Localdb.Stamp.{format_time}
use codex_tempo.Localdb.Queue.{enqueue, pending_events, machine_id, time_metadata}
use codex_tempo.Codex.{World, string, deterministic_uuid}
use codex_tempo.Wakapi.{Interval, Export}
use codex_tempo.Sync
use codex_tempo.Sync.{Client, sync_once}
use codex_tempo.Cli.Intervals.{HookConfig, System}

-- An interval up to the cutover, if something is left of it.
unfoldable pub interval_before : ℕ → Interval → Option Interval
interval_before cutover item =
    let cut = if ltb cutover item.ended_at then record item { ended_at = cutover } else item in
    if ltb item.started_at cutover
    then (if ltb cut.started_at cut.ended_at then some cut else none)
    else none

-- `intervalsBefore`
unfoldable pub intervals_before : ℕ → List Interval → List Interval
unfolding interval_before
intervals_before cutover [] = []
intervals_before cutover (item ∷ items) =
    let rest = intervals_before cutover items in
    elim (interval_before cutover item) [ none ↦ rest | some cut ↦ cut ∷ rest ]

unfoldable pub total_duration : List Interval → ℕ → ℕ
total_duration [] sum = sum
total_duration (item ∷ items) sum =
    total_duration items (add64 sum (time_sub item.ended_at item.started_at))

-- The export up to the cutover, where there is one.
unfoldable pub cut_export : ℕ × Bool → Export → Export
unfolding intervals_before total_duration
cut_export (cutover, false) exported = exported
cut_export (cutover, true) exported =
    let intervals = intervals_before cutover exported.intervals in
    record exported { intervals = intervals; duration = total_duration intervals 0 }

module _ (w : World) (lower : Text → Text) where
  unfoldable pub wakapi_run_id : Interval → Text
  wakapi_run_id item =
      deterministic_uuid w (codes "wakapi-run" ∷ item.project ∷ format_time item.started_at ∷ [])

  unfoldable pub wakapi_event_id : Text → Text → Text
  wakapi_event_id run kind = deterministic_uuid w (codes "wakapi-event" ∷ run ∷ kind ∷ [])

  unfoldable pub wakapi_project_id : Interval → Text
  wakapi_project_id item = deterministic_uuid w (codes "wakapi-project" ∷ item.project ∷ [])

  unfoldable pub wakapi_payload : Interval → Text
  unfolding wakapi_project_id
  wakapi_payload item = w.marshal (
      (codes "project_id", string (wakapi_project_id item))
      ∷ (codes "project_name", string item.project)
      ∷ (codes "project_fingerprint", string (codes "wakapi:" ++ lower item.project))
      ∷ [])

  -- The events of one interval.
  unfoldable pub wakapi_interval_events : Text → Interval → List Event
  unfolding wakapi_run_id wakapi_event_id wakapi_payload
  wakapi_interval_events machine item =
      let run = wakapi_run_id item in
      let session = codes "wakapi:" ++ run in
      record {
        id = wakapi_event_id run (codes "session_started");
        machine_id = machine;
        session_id = session;
        run_id = [];
        sequence = 1;
        occurred_at = item.started_at;
        kind = session_started;
        source = codes "wakapi";
        payload = wakapi_payload item;
      }
      ∷ record {
        id = wakapi_event_id run (codes "run_started");
        machine_id = machine;
        session_id = session;
        run_id = run;
        sequence = 2;
        occurred_at = item.started_at;
        kind = run_started;
        source = codes "wakapi";
        payload = wakapi_payload item;
      }
      ∷ record {
        id = wakapi_event_id run (codes "run_completed");
        machine_id = machine;
        session_id = session;
        run_id = run;
        sequence = 3;
        occurred_at = item.ended_at;
        kind = run_completed;
        source = codes "wakapi";
        payload = codes "{}";
      }
      ∷ []

  -- `wakapiEvents`
  unfoldable pub wakapi_events : Text → List Interval → List Event
  unfolding wakapi_interval_events
  wakapi_events machine [] = []
  wakapi_events machine (item ∷ items) =
      wakapi_interval_events machine item ++ wakapi_events machine items

-- How the loop of deliveries ends: nothing is pending, a call has an error, or the rounds are over.
pub data Drained : Type 0 where
  drained : Store → Drained
  refused : Store → Drained
  out_of_rounds : Store → Drained

unfoldable pub drain : (Sync.Request → Option Sync.Response) → Client → ℕ → Store → Drained
drain post client zero s = elim (pending_events 1 s) [ [] ↦ drained s | _ ∷ _ ↦ out_of_rounds s ]
drain post client (suc n) s = elim (pending_events 1 s) [
  | [] ↦ drained s
  | _ ∷ _ ↦
      let r = sync_once post client s in
      elim r.0 [ true ↦ drain post client n r.1 | false ↦ refused r.1 ]
]

-- The counts that the command prints.
pub record Imported : Type 0 where
  pub export : Export
  pub events : ℕ

-- What follows the reading of the cutover.
unfoldable pub import_export :
    World
    → (Text → Text)
    → HookConfig
    → System
    → ℕ
    → ℕ × Bool
    → Export
    → Store
    → Option (Imported × Drained)
unfolding cut_export wakapi_events drain
import_export w lower config system rounds cutover exported s =
    let cut = cut_export cutover exported in
    let (machine, named) = machine_id system.fresh s in
    let events = wakapi_events w lower machine cut.intervals in
    elim (enqueue events named) [
      | none ↦ none
      | some queued ↦ some (
        record { export = cut; events = length events },
        drain system.post
            (record {
              server_url = config.server_url;
              token = config.machine_token;
              machine_id = machine;
            })
            rounds queued,
      )
    ]

-- `importWakapi` with the result of `Export`, and so many rounds of deliveries at most; `none` is an
-- error before them.
unfoldable pub import_wakapi :
    World
    → (Text → Text)
    → HookConfig
    → System
    → ℕ
    → Option Export
    → Store
    → Option (Imported × Drained)
unfolding import_export
import_wakapi w lower config system rounds none s = none
import_wakapi w lower config system rounds (some exported) s =
    if text_eq config.server_url [] || text_eq config.machine_token []
    then none
    else elim (time_metadata system.parse_time (codes "hook_cutover_at") s) [
      | none ↦ none
      | some cutover ↦ import_export w lower config system rounds cutover exported s
    ]
