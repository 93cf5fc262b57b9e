-- ===== src/Codex/Parser.antt =====
-- internal/codex/parser.go: `Parser`. An error of a line is the offset it is reported with. The cursor
-- keeps its path where the file at it is another one than before.
use codex_tempo.Common.{
  ℕ, true, Option, none, some, List, [], ◌∷◌, ◌++◌, ltb, if◌then◌else◌, length,
}
use codex_tempo.Common.Text.{Text, codes, text_eq}
use codex_tempo.Common.Word.{add64}
use codex_tempo.Domain.{Event, EventKind, session_started}
use codex_tempo.Localdb.{Cursor}
use codex_tempo.Localdb.Queue.{no_cursor}
use codex_tempo.Codex.{
  World, Envelope, Result, string, boolean, deterministic_uuid, run_id, kind_text, format_int,
}
use codex_tempo.Codex.Lines.{complete_lines, drop, trim_space}
use codex_tempo.Codex.Records.{File, Parser, Parsed, parse_line}

unfoldable pub set_project : Result → Cursor → Cursor
set_project project cursor = record cursor {
  project_id = project.id;
  project_name = project.name;
  project_fingerprint = project.fingerprint;
  remote_hash = project.remote_hash;
  worktree_name = project.worktree_name;
  worktree_path = project.worktree_path;
  is_worktree = project.is_worktree;
}

unfoldable pub set_directory : World → Parser → Text → Cursor → Cursor
unfolding set_project
set_directory w p cwd cursor =
    if text_eq cwd []
    then cursor
    else set_project (w.resolve cwd p.machine_id p.store_paths)
        (record cursor { cwd = if p.store_paths then cwd else [] })

unfoldable pub use_metadata : World → Parser → Option Envelope → Cursor → Cursor
unfolding set_directory
use_metadata w p none cursor = cursor
use_metadata w p (some m) cursor = set_directory w p m.cwd (record cursor {
  session_id = if text_eq m.session_id [] then cursor.session_id else m.session_id;
})

-- The payload of a session's start; such an event comes with metadata.
unfoldable pub session_payload : World → Cursor → Envelope → Text
session_payload w cursor m = w.marshal (
    (codes "project_id", string cursor.project_id)
    ∷ (codes "project_name", string cursor.project_name)
    ∷ (codes "project_fingerprint", string cursor.project_fingerprint)
    ∷ (codes "remote_hash", string cursor.remote_hash)
    ∷ (codes "worktree_name", string cursor.worktree_name)
    ∷ (codes "worktree_path", string cursor.worktree_path)
    ∷ (codes "is_worktree", boolean cursor.is_worktree)
    ∷ (codes "codex_version", string m.cli_version)
    ∷ [])

unfoldable pub with_session : World → Cursor → Option Envelope → Event → Event
unfolding session_payload
with_session w cursor none event = event
with_session w cursor (some m) event = elim event.kind [
  | session_started ↦ record event { payload = session_payload w cursor m }
  | _ ↦ event
]

unfoldable pub event_id : World → Text → Text → EventKind → Text → ℕ → Text
unfolding deterministic_uuid kind_text format_int
event_id w machine_id session_id kind run_id sequence =
    deterministic_uuid w
      (machine_id ∷ session_id ∷ kind_text kind ∷ run_id ∷ format_int sequence ∷ [])

-- The event with its number, machine, session and id.
unfoldable pub stamp : World → Parser → Cursor → Event → Event
unfolding event_id
stamp w p cursor event =
    let sequence = add64 cursor.last_sequence 1 in
    record event {
      sequence = sequence;
      machine_id = p.machine_id;
      session_id = cursor.session_id;
      id = event_id w p.machine_id cursor.session_id event.kind event.run_id sequence;
    }

-- The cursor, the events and the offsets of errors so far.
pub record Progress : Type 0 where
  pub cursor : Cursor
  pub events : List Event
  pub errors : List ℕ

unfoldable pub emit : World → Parser → Option Envelope → Option Event → Progress → Progress
unfolding with_session stamp
emit w p m none s = s
emit w p m (some event) s =
    let stamped = stamp w p s.cursor (with_session w s.cursor m event) in
    record s {
      cursor = record s.cursor { last_sequence = stamped.sequence; last_event_id = stamped.id };
      events = s.events ++ stamped ∷ [];
    }

unfoldable pub use_parsed : World → Parser → ℕ → Option Parsed → Progress → Progress
unfolding use_metadata emit
use_parsed w p start none s = record s { errors = s.errors ++ start ∷ [] }
use_parsed w p start (some (event, m)) s =
    emit w p m event (record s { cursor = use_metadata w p m s.cursor })

unfoldable pub advance_cursor : ℕ → Text → Cursor → Cursor
advance_cursor modified raw c = record c {
  byte_offset = add64 c.byte_offset (length raw);
  last_modified = modified;
}

-- A line without the white space around it; `start` is its offset.
unfoldable pub use_line : World → Parser → ℕ → Text → Progress → Progress
unfolding parse_line use_parsed
use_line w p start line s =
    if text_eq line [] then s else use_parsed w p start (parse_line w line s.cursor) s

-- One complete line of the file.
unfoldable pub line_step : World → Parser → ℕ → Text → Progress → Progress
unfolding use_line trim_space advance_cursor
line_step w p modified raw s =
    use_line w p s.cursor.byte_offset (trim_space raw)
      (record s { cursor = advance_cursor modified raw s.cursor })

unfoldable pub parse_lines : World → Parser → ℕ → List Text → Progress → Progress
unfolding line_step
parse_lines w p modified [] s = s
parse_lines w p modified (raw ∷ lines) s =
    parse_lines w p modified lines (line_step w p modified raw s)

-- The cursor with which the loop begins.
unfoldable pub open_cursor : File → Cursor → Cursor
open_cursor file cursor =
    let same =
      if text_eq cursor.file_identity []
      then true
      else text_eq cursor.file_identity file.identity in
    let c = record (if same then cursor else no_cursor file.path) {
      file_identity = file.identity;
    } in
    if ltb (length file.content) c.byte_offset
    then record c { byte_offset = 0; last_sequence = 0 }
    else c

unfoldable pub parse_file : World → Parser → File → Cursor → Progress
unfolding open_cursor parse_lines complete_lines drop
parse_file w p file cursor =
    let c = open_cursor file cursor in
    parse_lines w p file.modified (complete_lines (drop c.byte_offset file.content))
      (record { cursor = c; events = []; errors = [] })
