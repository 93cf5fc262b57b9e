-- ===== src/Codex/Metrics.antt =====
-- internal/codex/metrics.go: `MetricScanner`. Its state between two scans is kept as JSON by the
-- parameter `StateCodec`.
use codex_tempo.Common.{
  ℕ, Bool, true, not, ◌||◌, ◌&&◌, none, some, List, [], ◌∷◌, ◌++◌, ltb, ◌==◌, if◌then◌else◌, length,
}
use codex_tempo.Common.Text.{Text, codes, text_eq}
use codex_tempo.Common.Word.{add64, sub64, lt64, eq64}
use codex_tempo.Domain.{Event, EventKind, session_started, run_started, run_completed, token_usage}
use codex_tempo.Localdb.{MetricCursor}
use codex_tempo.Localdb.Queue.{no_metric_cursor}
use codex_tempo.Codex.{
  World, RawRecord, Envelope, TokenUsage, Result, string, boolean, number, deterministic_uuid,
}
use codex_tempo.Codex.Lines.{complete_lines, drop, trim_space}
use codex_tempo.Codex.Records.{File, or_time, session_of}

pub record MetricState : Type 0 where
  pub session_id : Text
  pub project_id : Text
  pub project_name : Text
  pub project_fingerprint : Text
  pub remote_hash : Text
  pub worktree_name : Text
  pub worktree_path : Text
  pub active_turn : Text
  pub model : Text
  pub reasoning_effort : Text
  pub is_worktree : Bool
  pub baseline : TokenUsage
  pub current : TokenUsage
  pub last : TokenUsage

pub record MetricScanner : Type 0 where
  pub machine_id : Text
  pub store_paths : Bool

-- `json.Unmarshal` into the zero state, its error dropped, and `json.Marshal`.
pub record StateCodec : Type 0 where
  pub parse_state : Text → MetricState
  pub print_state : MetricState → Text

unfoldable pub max64 : ℕ → ℕ → ℕ
max64 a b = if lt64 b a then a else b

unfoldable pub token_delta : TokenUsage → TokenUsage → TokenUsage
unfolding max64
token_delta current baseline = record {
  input_tokens = max64 0 (sub64 current.input_tokens baseline.input_tokens);
  cached_input_tokens = max64 0 (sub64 current.cached_input_tokens baseline.cached_input_tokens);
  output_tokens = max64 0 (sub64 current.output_tokens baseline.output_tokens);
  reasoning_tokens = max64 0 (sub64 current.reasoning_tokens baseline.reasoning_tokens);
}

-- `usage == (TokenUsage{})`
unfoldable pub is_no_usage : TokenUsage → Bool
is_no_usage u =
    eq64 u.input_tokens 0
    && (eq64 u.cached_input_tokens 0 && (eq64 u.output_tokens 0 && eq64 u.reasoning_tokens 0))

unfoldable pub project_payload : World → MetricState → Text
project_payload w state = w.marshal (
    (codes "project_id", string state.project_id)
    ∷ (codes "project_name", string state.project_name)
    ∷ (codes "project_fingerprint", string state.project_fingerprint)
    ∷ (codes "remote_hash", string state.remote_hash)
    ∷ (codes "worktree_name", string state.worktree_name)
    ∷ (codes "worktree_path", string state.worktree_path)
    ∷ (codes "is_worktree", boolean state.is_worktree)
    ∷ (codes "model", string state.model)
    ∷ (codes "reasoning_effort", string state.reasoning_effort)
    ∷ [])

unfoldable pub token_payload : World → TokenUsage → Text
token_payload w usage = w.marshal (
    (codes "input_tokens", number usage.input_tokens)
    ∷ (codes "cached_input_tokens", number usage.cached_input_tokens)
    ∷ (codes "output_tokens", number usage.output_tokens)
    ∷ (codes "reasoning_tokens", number usage.reasoning_tokens)
    ∷ [])

unfoldable pub metric_run_id : World → MetricState → Text
unfolding deterministic_uuid
metric_run_id w state =
    deterministic_uuid w (codes "metric-run" ∷ state.session_id ∷ state.active_turn ∷ [])

unfoldable pub metric_event_id : World → Text → Text → Text
unfolding deterministic_uuid
metric_event_id w run part = deterministic_uuid w (codes "metric-event" ∷ run ∷ part ∷ [])

abbrev metric_event : Text → Text → Text → Text → ℕ → ℕ → EventKind → Text → Event
metric_event id machine_id session_id run_id sequence at kind payload = record {
  id = id;
  machine_id = machine_id;
  session_id = session_id;
  run_id = run_id;
  sequence = sequence;
  occurred_at = at;
  kind = kind;
  source = codes "metrics";
  payload = payload;
}

-- The four events of the run with this id.
unfoldable pub metric_run_events : World → Text → Text → MetricState → ℕ → TokenUsage → List Event
unfolding project_payload token_payload metric_event_id
metric_run_events w machine_id run state at usage =
    let session = codes "metrics:" ++ run in
    let id = metric_event_id w run in
    metric_event (id (codes "session")) machine_id session [] 1 at session_started
      (project_payload w state)
    ∷ metric_event (id (codes "start")) machine_id session run 2 at run_started
        (project_payload w state)
    ∷ metric_event (id (codes "tokens")) machine_id session run 3 at token_usage
        (token_payload w usage)
    ∷ metric_event (id (codes "complete")) machine_id session run 4 at run_completed (codes "{}")
    ∷ []

unfoldable pub metric_events : World → Text → MetricState → ℕ → TokenUsage → List Event
unfolding metric_run_events metric_run_id
metric_events w machine_id state at usage =
    metric_run_events w machine_id (metric_run_id w state) state at usage

unfoldable pub set_metric_project : Result → MetricState → MetricState
set_metric_project project state = record state {
  project_id = project.id;
  project_name = project.name;
  project_fingerprint = project.fingerprint;
  remote_hash = project.remote_hash;
  worktree_name = project.worktree_name;
  worktree_path = project.worktree_path;
  is_worktree = project.is_worktree;
}

unfoldable pub use_meta : World → MetricScanner → Envelope → MetricState → MetricState
unfolding set_metric_project session_of
use_meta w scanner payload state =
    let s = record state { session_id = (session_of payload).session_id } in
    if text_eq payload.cwd []
    then s
    else set_metric_project (w.resolve payload.cwd scanner.machine_id scanner.store_paths) s

-- What a completed task adds, for the state with its turn.
unfoldable pub completed_events : World → MetricScanner → ℕ → ℕ → MetricState → List Event
unfolding token_delta is_no_usage metric_events
completed_events w scanner cutover at state =
    if not (text_eq state.active_turn [])
      && (not (text_eq state.project_id []) && (cutover == 0 || not (ltb at cutover)))
    then (let delta = token_delta state.current state.baseline in
        metric_events w scanner.machine_id state at
          (if is_no_usage delta then state.last else delta))
    else []

unfoldable pub complete_task :
    World → MetricScanner → ℕ → ℕ → Envelope → MetricState → MetricState × List Event
unfolding completed_events
complete_task w scanner cutover timestamp payload state =
    let s =
      if text_eq state.active_turn []
      then record state { active_turn = payload.turn_id }
      else state in
    (
      record s { active_turn = []; baseline = s.current },
      completed_events w scanner cutover (or_time payload.completed_at timestamp) s,
    )

-- The three cases of the type of a message.
unfoldable pub use_message :
    World → MetricScanner → ℕ → ℕ → Envelope → MetricState → MetricState × List Event
unfolding complete_task
use_message w scanner cutover timestamp payload state =
    if text_eq payload.type (codes "task_started")
    then (record state { active_turn = payload.turn_id; baseline = state.current }, [])
    else (if text_eq payload.type (codes "token_count")
        then (record state { current = payload.total; last = payload.last }, [])
        else (if text_eq payload.type (codes "task_complete")
            then complete_task w scanner cutover timestamp payload state
            else (state, [])))

unfoldable pub use_record :
    World → MetricScanner → ℕ → RawRecord → Envelope → MetricState → MetricState × List Event
unfolding use_meta use_message
use_record w scanner cutover raw payload state =
    if text_eq raw.type (codes "session_meta")
    then (use_meta w scanner payload state, [])
    else (if text_eq raw.type (codes "turn_context")
        then (record state { model = payload.model; reasoning_effort = payload.effort }, [])
        else (if text_eq raw.type (codes "event_msg")
            then use_message w scanner cutover raw.timestamp payload state
            else (state, [])))

-- A line; one that does not parse changes nothing.
unfoldable pub metric_line :
    World → MetricScanner → ℕ → Text → MetricState → MetricState × List Event
unfolding use_record trim_space
metric_line w scanner cutover line state = elim (w.parse_record (trim_space line)) [
  | none ↦ (state, [])
  | some raw ↦ elim (w.parse_envelope raw.payload) [
    | none ↦ (state, [])
    | some payload ↦ use_record w scanner cutover raw payload state
  ]
]

-- The offset, the state and the events so far.
pub record Scanned : Type 0 where
  pub byte_offset : ℕ
  pub state : MetricState
  pub events : List Event

unfoldable pub scan_lines : World → MetricScanner → ℕ → List Text → Scanned → Scanned
unfolding metric_line
scan_lines w scanner cutover [] s = s
scan_lines w scanner cutover (line ∷ lines) s =
    let r = metric_line w scanner cutover line s.state in
    scan_lines w scanner cutover lines (record {
      byte_offset = add64 s.byte_offset (length line);
      state = r.0;
      events = s.events ++ r.1;
    })

unfoldable pub open_metric_cursor : File → MetricCursor → MetricCursor
open_metric_cursor file cursor =
    let same =
      if text_eq cursor.file_identity []
      then true
      else text_eq cursor.file_identity file.identity in
    let c = record (if same then cursor else no_metric_cursor file.path) {
      path = file.path;
      file_identity = file.identity;
      last_modified = file.modified;
    } in
    if ltb (length file.content) c.byte_offset then record c { byte_offset = 0 } else c

unfoldable pub scan :
    World → StateCodec → MetricScanner → File → MetricCursor → ℕ → MetricCursor × List Event
unfolding open_metric_cursor scan_lines complete_lines drop
scan w codec scanner file cursor cutover =
    let c = open_metric_cursor file cursor in
    let s =
      scan_lines w scanner cutover (complete_lines (drop c.byte_offset file.content))
        (record { byte_offset = c.byte_offset; state = codec.parse_state c.state; events = [] }) in
    (record c { byte_offset = s.byte_offset; state = codec.print_state s.state }, s.events)
