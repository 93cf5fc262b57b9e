-- ===== src/Cli/Hook.antt =====
-- apps/cli/main.go: the command `hook`. The deadline of two seconds and the errors of the local database
-- are not modelled, but for that of the time of the last delivery and of a conflict in `enqueue`. The log
-- line at the end is the record `Outcome`.
use codex_tempo.Common.{
  ℕ, Bool, true, false, ◌&&◌, ◌||◌, Option, none, some, [], length, if◌then◌else◌,
}
use codex_tempo.Common.Text.{Text, codes, text_eq}
use codex_tempo.Common.Word.{lt64, time_sub}
use codex_tempo.Localdb.{HookHeartbeat, HookInterval, Store}
use codex_tempo.Localdb.Queue.{
  enqueue, commit_metrics, machine_id, metric_cursor_of, ensure_time_metadata, time_metadata,
  set_time_metadata,
}
use codex_tempo.Localdb.Beats.{advance_hook_heartbeat}
use codex_tempo.Codex.{World, Result}
use codex_tempo.Codex.Metrics.{MetricScanner, StateCodec, scan}
use codex_tempo.Sync.{sync_once}
use codex_tempo.Cli.Intervals.{
  HookInput, HookConfig, System, Status, Outcome, hook_interval_events, ok, degraded, failed,
}

unfoldable pub hook_heartbeat : HookInput → Result → ℕ → HookHeartbeat
hook_heartbeat input project now = record {
  session_id = input.session_id;
  project_id = project.id;
  project_name = project.name;
  project_fingerprint = project.fingerprint;
  remote_hash = project.remote_hash;
  worktree_name = project.worktree_name;
  worktree_path = project.worktree_path;
  is_worktree = project.is_worktree;
  model = input.model;
  occurred_at = now;
}

-- The events of an interval, if there is one; `none` is the error of `Enqueue`.
unfoldable pub enqueue_interval : World → Text → Option HookInterval → Store → Option (ℕ × Store)
unfolding hook_interval_events
enqueue_interval w machine none s = some (0, s)
enqueue_interval w machine (some item) s =
    let events = hook_interval_events w machine item in
    elim (enqueue events s) [ none ↦ none | some next ↦ some (length events, next) ]

-- The metrics of a transcript: how many events there are, and `none` for an error of the scanner.
unfoldable pub scan_metrics :
    World → StateCodec → MetricScanner → System → ℕ → Text → Store → Option (ℕ × Store)
scan_metrics w codec scanner system cutover path s = elim (system.read path) [
  | none ↦ none
  | some file ↦
      let (cursor, events) = scan w codec scanner file (metric_cursor_of path s) cutover in
      some (length events, commit_metrics cursor events s)
]

abbrev outcome : Status → Text → ℕ → ℕ → Bool → Bool → Outcome
outcome status stage events metrics attempted succeeded = record {
  status = status;
  stage = stage;
  events_enqueued = events;
  metric_events = metrics;
  sync_attempted = attempted;
  sync_succeeded = succeeded;
}

-- The end of the command: the answer of the delivery and the time of the last one.
unfoldable pub finish_sync : Status → ℕ → ℕ → ℕ → Bool × Store → Outcome × Store
finish_sync status now events metrics (false, s) =
    (outcome failed (codes "sync") events metrics true false, s)
finish_sync status now events metrics (true, s) = (
  outcome status (codes "complete") events metrics true true,
  set_time_metadata (codes "hook_last_sync_at") now s,
)

-- Whether the last delivery is too recent for another one.
unfoldable pub is_recent : HookConfig → ℕ → ℕ × Bool → Bool
is_recent config now (last, is_there) =
    is_there && lt64 (time_sub now last) config.hook_sync_interval

-- The delivery, where a server is configured and the last one is long enough ago.
unfoldable pub hook_sync : HookConfig → System → Text → Status → ℕ → ℕ → Store → Outcome × Store
unfolding finish_sync is_recent
hook_sync config system machine status events metrics s =
    if text_eq config.server_url [] || text_eq config.machine_token []
    then (outcome status (codes "complete") events metrics false false, s)
    else elim (time_metadata system.parse_time (codes "hook_last_sync_at") s) [
      | none ↦ (outcome failed (codes "sync_metadata") events metrics false false, s)
      | some last ↦ elim (is_recent config system.now last) [
        | true ↦ (outcome status (codes "complete") events metrics false false, s)
        | false ↦ finish_sync status system.now events metrics (
            sync_once system.post
              (record {
                server_url = config.server_url;
                token = config.machine_token;
                machine_id = machine;
              })
              s)
      ]
    ]

-- What follows the heartbeat's events: the metrics, whose errors only degrade the outcome.
unfoldable pub hook_metrics :
    World → StateCodec → HookConfig → System → HookInput → Text → ℕ → ℕ → Store → Outcome × Store
unfolding hook_sync scan_metrics
hook_metrics w codec config system input machine cutover events s = elim input.transcript_path [
  | none ↦ hook_sync config system machine ok events 0 s
  | some path ↦ elim (text_eq path []) [
    | true ↦ hook_sync config system machine ok events 0 s
    | false ↦
        elim (scan_metrics w codec
          (record { machine_id = machine; store_paths = config.store_paths }) system cutover path
          s) [
            | none ↦ hook_sync config system machine degraded events 0 s
            | some (metrics, next) ↦ hook_sync config system machine ok events metrics next
          ]
  ]
]

-- The heartbeat and what follows it.
unfoldable pub hook_beat :
    World → StateCodec → HookConfig → System → HookInput → Text → ℕ → Store → Outcome × Store
unfolding hook_metrics enqueue_interval hook_heartbeat
hook_beat w codec config system input machine cutover s =
    let cwd = if text_eq input.cwd [] then system.cwd else input.cwd in
    let project = w.resolve cwd machine config.store_paths in
    let (item, beaten) =
      advance_hook_heartbeat (hook_heartbeat input project system.now) config.hook_activity_timeout
        s in
    elim (enqueue_interval w machine item beaten) [
      | none ↦ (outcome failed (codes "enqueue") 0 0 false false, beaten)
      | some (events, next) ↦ hook_metrics w codec config system input machine cutover events next
    ]

-- `runHook`
unfoldable pub run_hook :
    World → StateCodec → HookConfig → System → HookInput → Store → Outcome × Store
unfolding hook_beat
run_hook w codec config system input s =
    let (machine, named) = machine_id system.fresh s in
    let (cutover, marked) =
      ensure_time_metadata system.parse_time (codes "hook_cutover_at") system.now named in
    elim cutover [
      | none ↦ (outcome failed (codes "ensure_cutover") 0 0 false false, marked)
      | some at ↦ hook_beat w codec config system input machine at marked
    ]

-- `runHookCommand`, where the standard input is decoded or not.
unfoldable pub hook_command :
    World → StateCodec → HookConfig → System → Option HookInput → Store → Outcome × Store
unfolding run_hook
hook_command w codec config system none s =
    (outcome failed (codes "decode_input") 0 0 false false, s)
hook_command w codec config system (some input) s =
    if text_eq input.session_id []
    then (outcome failed (codes "validate_input") 0 0 false false, s)
    else run_hook w codec config system input s
