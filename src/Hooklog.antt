-- ===== src/Hooklog.antt =====
-- internal/hooklog/logger.go: the files that `removeExpired` removes, and the one that is opened. A
-- directory entry has its time, or `none` for an error of `Info`; creating, opening and removing files
-- are not modelled.
use codex_tempo.Common.{
  ℕ, ◌-◌, Bool, false, not, ◌||◌, ◌&&◌, Option, none, some, List, ◌++◌, filter, ltb, if◌then◌else◌,
}
use codex_tempo.Common.Text.{Text, codes}
use codex_tempo.Common.Word.{lt64}
use codex_tempo.Postgres.Rows.{has_prefix}
use codex_tempo.Agent.{has_suffix}

pub record LogEntry : Type 0 where
  pub name : Text
  pub is_dir : Bool
  pub modified : Option ℕ

abbrev file_prefix : Text
file_prefix = codes "hook-"

-- Before the cutoff; there are no instants before the zero time.
unfoldable pub is_expired : ℕ → ℕ → LogEntry → Bool
unfolding has_prefix has_suffix
is_expired retention now e =
    not (
      e.is_dir || (not (has_prefix file_prefix e.name) || not (has_suffix (codes ".jsonl") e.name)))
    && elim e.modified [ none ↦ false | some at ↦ ltb at (now - retention) ]

-- `removeExpired`: the entries that stay.
unfoldable pub remove_expired : ℕ → ℕ → List LogEntry → List LogEntry
unfolding is_expired
remove_expired retention now entries = filter (λ e. not (is_expired retention now e)) entries

-- The name of the file that `open` opens, and the directory before it; `date` is the date of `now`.
unfoldable pub open_log : Text → ℕ → ℕ → List LogEntry → Text × List LogEntry
unfolding remove_expired
open_log date retention now entries = (
  file_prefix ++ (date ++ codes ".jsonl"),
  if lt64 0 retention then remove_expired retention now entries else entries,
)
