-- ===== src/Localdb.antt =====
-- internal/localdb/store.go: the agent's SQLite database, its tables as lists of rows.
-- A transaction that fails leaves the store as it was; failures of the database itself are not
-- modelled. A time column holds `format_time t`; the row keeps the instant `t`, which `time.Parse`
-- reads back, and compares by the text.
pub mod Stamp
pub mod Queue
pub mod Table
pub mod Commit
pub mod Reach
pub mod Range
pub mod Beats
pub mod Hooks
use codex_tempo.Common.{ℕ, Bool, List}
use codex_tempo.Common.Text.{Text}
use codex_tempo.Domain.{Event}

abbrev pub schema_version : ℕ
schema_version = 1

pub record Cursor : Type 0 where
  pub path : Text
  pub file_identity : Text
  pub byte_offset : ℕ
  pub last_event_id : Text
  pub session_id : Text
  pub project_id : Text
  pub project_name : Text
  pub project_fingerprint : Text
  pub remote_hash : Text
  pub cwd : Text
  pub worktree_name : Text
  pub worktree_path : Text
  pub is_worktree : Bool
  pub last_sequence : ℕ
  pub last_modified : ℕ

pub record HookHeartbeat : Type 0 where
  pub session_id : Text
  pub project_id : Text
  pub project_name : Text
  pub project_fingerprint : Text
  pub remote_hash : Text
  pub worktree_name : Text
  pub worktree_path : Text
  pub model : Text
  pub is_worktree : Bool
  pub occurred_at : ℕ

pub record HookInterval : Type 0 where
  pub started_at : ℕ
  pub ended_at : ℕ
  pub session_id : Text
  pub project_id : Text
  pub project_name : Text
  pub project_fingerprint : Text
  pub remote_hash : Text
  pub worktree_name : Text
  pub worktree_path : Text
  pub model : Text
  pub is_worktree : Bool

pub record MetricCursor : Type 0 where
  pub path : Text
  pub file_identity : Text
  pub byte_offset : ℕ
  pub state : Text
  pub last_modified : ℕ

-- The column `sync_state` of the table `events`.
pub data SyncState : Type 0 where
  pending acknowledged : SyncState

-- A row of the table `events`; the columns of the event are those of its fields.
pub record Row : Type 0 where
  pub event : Event
  pub sync_state : SyncState
  pub error : Text

pub record ParserError : Type 0 where
  pub path : Text
  pub byte_offset : ℕ
  pub message : Text

pub record Store : Type 0 where
  pub metadata : List (Text × Text)
  pub transcript_cursors : List (Text × Cursor)
  pub events : List Row
  pub parser_errors : List ParserError
  pub hook_heartbeats : List (Text × HookHeartbeat)
  pub metric_cursors : List (Text × MetricCursor)
