-- ===== src/Cli/Intervals.antt =====
-- apps/cli/main.go: `hookIntervalEvents`, and the types of the command `hook`.
use codex_tempo.Common.{ℕ, Bool, Option, List, [], ◌∷◌, ◌++◌}
use codex_tempo.Common.Text.{Text, codes}
use codex_tempo.Domain.{Event, session_started, run_started, run_completed}
use codex_tempo.Localdb.{HookInterval}
use codex_tempo.Localdb.Stamp.{format_time}
use codex_tempo.Codex.{World, string, boolean, deterministic_uuid}
use codex_tempo.Codex.Records.{File}
use codex_tempo.Sync
use codex_tempo.Sync.{Client, sync_once}

pub record HookInput : Type 0 where
  pub session_id : Text
  pub turn_id : Text
  pub cwd : Text
  pub model : Text
  pub event_name : Text
  pub transcript_path : Option Text

-- The settings that the command reads.
pub record HookConfig : Type 0 where
  pub store_paths : Bool
  pub server_url : Text
  pub machine_token : Text
  pub hook_activity_timeout : ℕ
  pub hook_sync_interval : ℕ

-- What the program asks of the system: a fresh id, the directory it runs in, the time, the files, the
-- server, and `time.Parse`.
pub record System : Type 0 where
  pub fresh : Text
  pub cwd : Text
  pub now : ℕ
  pub read : Text → Option File
  pub post : Sync.Request → Option Sync.Response
  pub parse_time : Text → Option ℕ

pub data Status : Type 0 where
  ok degraded failed : Status

pub record Outcome : Type 0 where
  pub status : Status
  pub stage : Text
  pub events_enqueued : ℕ
  pub metric_events : ℕ
  pub sync_attempted : Bool
  pub sync_succeeded : Bool

unfoldable pub interval_payload : World → HookInterval → Text
interval_payload w item = w.marshal (
    (codes "project_id", string item.project_id)
    ∷ (codes "project_name", string item.project_name)
    ∷ (codes "project_fingerprint", string item.project_fingerprint)
    ∷ (codes "remote_hash", string item.remote_hash)
    ∷ (codes "worktree_name", string item.worktree_name)
    ∷ (codes "worktree_path", string item.worktree_path)
    ∷ (codes "is_worktree", boolean item.is_worktree)
    ∷ (codes "model", string item.model)
    ∷ [])

unfoldable pub hook_run_id : World → HookInterval → Text
hook_run_id w item = deterministic_uuid w (
    codes "hook-run"
    ∷ item.session_id
    ∷ item.project_id
    ∷ format_time item.started_at
    ∷ format_time item.ended_at
    ∷ [])

-- The id of one of the events of a run.
unfoldable pub hook_event_id : World → Text → Text → Text
hook_event_id w run kind = deterministic_uuid w (codes "hook-event" ∷ run ∷ kind ∷ [])

-- `hookIntervalEvents`
unfoldable pub hook_interval_events : World → Text → HookInterval → List Event
unfolding hook_run_id hook_event_id interval_payload
hook_interval_events w machine item =
    let run = hook_run_id w item in
    let session = codes "hook:" ++ run in
    let payload = interval_payload w item in
    record {
      id = hook_event_id w run (codes "session_started");
      machine_id = machine;
      session_id = session;
      run_id = [];
      sequence = 1;
      occurred_at = item.started_at;
      kind = session_started;
      source = codes "hook";
      payload = payload;
    }
    ∷ record {
      id = hook_event_id w run (codes "run_started");
      machine_id = machine;
      session_id = session;
      run_id = run;
      sequence = 2;
      occurred_at = item.started_at;
      kind = run_started;
      source = codes "hook";
      payload = payload;
    }
    ∷ record {
      id = hook_event_id w run (codes "run_completed");
      machine_id = machine;
      session_id = session;
      run_id = run;
      sequence = 3;
      occurred_at = item.ended_at;
      kind = run_completed;
      source = codes "hook";
      payload = codes "{}";
    }
    ∷ []
