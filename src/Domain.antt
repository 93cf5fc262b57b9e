-- ===== src/Domain.antt =====
-- internal/domain/types.go: events, runs, sessions and projects.
-- A `time.Time` is its nanoseconds since the zero `time.Time` (0 is `IsZero`), a nil `*time.Time`
-- is `none`, a string its bytes, an int64 its bit pattern, and a `json.RawMessage` its bytes.
use codex_tempo.Common.{ℕ, Bool, Option}
use codex_tempo.Common.Text.{Text}

abbrev pub projection_version : ℕ
projection_version = 1

-- `other_kind` is any string that is none of the named constants: a client may send one.
pub data EventKind : Type 0 where
  session_started session_closed prompt_submitted run_started tool_started : EventKind
  tool_finished assistant_message run_completed run_interrupted run_failed : EventKind
  lease token_usage project_changed : EventKind
  other_kind : Text → EventKind

pub data RunStatus : Type 0 where
  running completed interrupted failed superseded abandoned : RunStatus

pub record Event : Type 0 where
  pub id : Text
  pub machine_id : Text
  pub session_id : Text
  pub run_id : Text
  pub sequence : ℕ
  pub occurred_at : ℕ
  pub kind : EventKind
  pub source : Text
  pub payload : Text

pub record Project : Type 0 where
  pub id : Text
  pub fingerprint : Text
  pub name : Text
  pub root_path : Text
  pub remote_hash : Text
  pub created_at : ℕ
  pub updated_at : ℕ

pub record Session : Type 0 where
  pub id : Text
  pub machine_id : Text
  pub project_id : Text
  pub cwd : Text
  pub worktree_name : Text
  pub worktree_path : Text
  pub is_worktree : Bool
  pub source : Text
  pub codex_version : Text
  pub started_at : ℕ
  pub ended_at : Option ℕ
  pub last_activity_at : ℕ
  pub run_count : ℕ

pub record Run : Type 0 where
  pub id : Text
  pub session_id : Text
  pub project_id : Text
  pub started_at : ℕ
  pub ended_at : Option ℕ
  pub last_activity_at : ℕ
  pub status : RunStatus
  pub model : Text
  pub reasoning_effort : Text
  pub input_tokens : ℕ
  pub cached_input_tokens : ℕ
  pub output_tokens : ℕ
  pub reasoning_tokens : ℕ
  pub close_reason : Text
  pub projection_version : ℕ

pub record TokenUsage : Type 0 where
  pub input_tokens : ℕ
  pub cached_input_tokens : ℕ
  pub output_tokens : ℕ
  pub reasoning_tokens : ℕ
