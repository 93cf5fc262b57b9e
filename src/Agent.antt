-- ===== src/Agent.antt =====
-- internal/agent/service.go: one pass over the transcripts, and the loop of `Run`. The files below the
-- directory of the sessions at one moment are a `Disk`; the watched directories are the loop's state,
-- each once. Log messages are not modelled, and the loop ends where the list of its events does.
pub mod Settled
pub mod Rescan
pub mod Commands
use codex_tempo.Common.{
  ℕ, ◌*◌, Bool, true, false, not, ◌||◌, Option, none, some, List, [], ◌∷◌, ◌++◌, any, if◌then◌else◌,
}
use mathlib.Core.List.{reverse}
use codex_tempo.Common.Text.{Text, codes, text_eq}
use codex_tempo.Common.Word.{lt64}
use codex_tempo.Localdb.{Store}
use codex_tempo.Localdb.Stamp.{second}
use codex_tempo.Localdb.Queue.{cursor_of, record_parser_error, commit_parsed}
use codex_tempo.Codex.{World}
use codex_tempo.Codex.Parser.{Progress, parse_file}
use codex_tempo.Codex.Records.{File, Parser}
use codex_tempo.Postgres.Rows.{has_prefix}

-- `entry` is a call of the function that `filepath.WalkDir` takes, with the path and whether it is a
-- directory; `unreadable` is one with an error.
pub data Entry : Type 0 where
  unreadable : Text → Entry
  entry : Text → Bool → Entry

-- `walk` is the entries in lexical order, and `read` a file that can be opened. `describe` is the text
-- of the error of a file's line at an offset.
pub record Disk : Type 0 where
  pub walk : List Entry
  pub read : Text → Option File
  pub describe : Text → ℕ → Text

-- `strings.HasSuffix`
unfoldable pub has_suffix : Text → Text → Bool
unfolding has_prefix
has_suffix suffix t = has_prefix (reverse suffix) (reverse t)

unfoldable pub record_errors : (ℕ → Text) → Text → ℕ → List ℕ → Store → Store
unfolding record_parser_error
record_errors describe path offset [] s = s
record_errors describe path offset (e ∷ errors) s =
    record_errors describe path offset errors (record_parser_error path offset (describe e) s)

-- What follows the parsing of a file.
unfoldable pub commit_progress : (ℕ → Text) → Text → Progress → Store → Store
unfolding record_errors commit_parsed
commit_progress describe path r s =
    commit_parsed r.cursor r.events (record_errors describe path r.cursor.byte_offset r.errors s)

-- `ScanFile`; `false` is an error.
unfoldable pub scan_file : World → Parser → Disk → Text → Store → Bool × Store
unfolding cursor_of parse_file commit_progress
scan_file w p disk path s = elim (disk.read path) [
  | none ↦ (false, s)
  | some file ↦
      (true, commit_progress (disk.describe path) path (parse_file w p file (cursor_of path s)) s)
]

-- Whether a path is that of a transcript. The name has the suffix where the path has it.
unfoldable pub is_transcript : Text → Bool → Bool
unfolding has_suffix
is_transcript path is_dir = not (is_dir || not (has_suffix (codes ".jsonl") path))

-- The function that walks.
unfoldable pub visit_entry : World → Parser → Disk → Entry → Store → Bool × Store
unfolding scan_file is_transcript
visit_entry w p disk (unreadable path) s = (true, s)
visit_entry w p disk (entry path is_dir) s =
    if is_transcript path is_dir then scan_file w p disk path s else (true, s)

-- The walk ends at the first error.
unfoldable pub visit_entries : World → Parser → Disk → List Entry → Store → Bool × Store
unfolding visit_entry
visit_entries w p disk [] s = (true, s)
visit_entries w p disk (e ∷ entries) s =
    let r = visit_entry w p disk e s in
    elim r.0 [ true ↦ visit_entries w p disk entries r.1 | false ↦ (false, r.1) ]

-- `ScanOnce`
unfoldable pub scan_once : World → Parser → Disk → Store → Bool × Store
unfolding visit_entries
scan_once w p disk s = visit_entries w p disk disk.walk s

abbrev add_path : Text → List Text → List Text
add_path path watched = if any (text_eq path) watched then watched else watched ++ path ∷ []

-- `addDirectories`
unfoldable pub add_directories : List Entry → List Text → List Text
add_directories [] watched = watched
add_directories (unreadable path ∷ entries) watched = add_directories entries watched
add_directories (entry path true ∷ entries) watched =
    add_directories entries (add_path path watched)
add_directories (entry path false ∷ entries) watched = add_directories entries watched

-- The operations of an event of the watcher that the loop asks for.
pub record Operation : Type 0 where
  pub create : Bool
  pub write : Bool
  pub rename : Bool

pub data Signal : Type 0 where
  changed : Operation → Signal
  watcher_error : Signal
  tick : Signal

-- The state of the loop.
pub record Watching : Type 0 where
  pub watched : List Text
  pub store : Store

abbrev pub rescan : World → Parser → Disk → Watching → Watching
rescan w p disk s = record s { store = (scan_once w p disk s.store).1 }

-- One round of the loop, at the disk of its moment.
unfoldable pub handle_signal : World → Parser → Disk → Signal → Watching → Watching
unfolding scan_once add_directories
handle_signal w p disk (changed op) s =
    let s' = if op.create then record s { watched = add_directories disk.walk s.watched } else s in
    if op.write || (op.create || op.rename) then rescan w p disk s' else s'
handle_signal w p disk watcher_error s = s
handle_signal w p disk tick s = rescan w p disk s

unfoldable pub handle_signals : World → Parser → List (Disk × Signal) → Watching → Watching
unfolding handle_signal
handle_signals w p [] s = s
handle_signals w p ((disk, signal) ∷ rest) s =
    handle_signals w p rest (handle_signal w p disk signal s)

-- `s.ScanInterval` when the loop begins.
unfoldable pub scan_interval : ℕ → ℕ
scan_interval interval = if lt64 0 interval then interval else 15 * second

-- `Run`, where `ready` is the success of `fsnotify.NewWatcher`; the directories are found after the
-- first pass.
unfoldable pub run_service :
    World → Parser → Bool → Disk → Disk → List (Disk × Signal) → Store → Watching
unfolding handle_signals add_directories scan_once
run_service w p ready first later signals s =
    let s' = (scan_once w p first s).1 in
    if ready
    then handle_signals w p signals (record { watched = add_directories later.walk []; store = s' })
    else record { watched = []; store = s' }
