-- ===== src/Examples/Transcripts.antt =====
-- A short transcript, to which the theorems of the parser are applied.
use codex_tempo.Common.{ℕ, ◌-◌, ◌≡◌, false, none, some, [], ◌∷◌, arith}
use codex_tempo.Common.Text.{codes}
use codex_tempo.Localdb.Queue.{no_cursor}
use codex_tempo.Codex.{World, TokenUsage}
use codex_tempo.Codex.Parser.{parse_file}
use codex_tempo.Codex.Records.{File, Parser}
use codex_tempo.Codex.Growth.{after, grown, parse_file-grown}
use codex_tempo.Codex.Parser.{open_cursor}
use codex_tempo.Codex.Numbers.{IsNumbered, last_number, parse_file-IsNumbered}
use codex_tempo.Codex.Metrics.{token_delta}
use codex_tempo.Codex.Usage.{token_delta_lem}

abbrev usage : ℕ → TokenUsage
usage n = record {
  input_tokens = n;
  cached_input_tokens = 0;
  output_tokens = n;
  reasoning_tokens = 1;
}

-- Every line is the start of the session `1`.
abbrev pub world : World
world = record {
  parse_record = λ line. some (record { timestamp = 5; type = codes "session_meta"; payload = [] });
  parse_envelope = λ payload. some (record {
    type = [];
    id = [];
    session_id = 1 ∷ [];
    turn_id = [];
    cwd = [];
    model = [];
    effort = [];
    cli_version = [];
    started_at = none;
    completed_at = none;
    last = usage 0;
    total = usage 0;
  });
  marshal = λ fields. [];
  hash_uuid = λ t. t;
  resolve = λ cwd machine paths. record {
    id = [];
    fingerprint = [];
    name = [];
    root_path = [];
    remote_hash = [];
    worktree_name = [];
    worktree_path = [];
    is_worktree = false;
  };
}

abbrev parser : Parser
parser = record { machine_id = 7 ∷ []; store_paths = false }

-- A line and the beginning of another.
abbrev pub file : File
file = record { path = []; identity = 3 ∷ []; modified = 9; content = 65 ∷ 10 ∷ 66 ∷ [] }

parse_file-grown_example :
    parse_file world parser (grown file (67 ∷ 10 ∷ [])) (no_cursor [])
    ≡ after (parse_file world parser file (no_cursor [])) (
        parse_file world parser
          (grown file (67 ∷ 10 ∷ []))
          (parse_file world parser file (no_cursor [])).cursor)
parse_file-grown_example =
    parse_file-grown world parser file (67 ∷ 10 ∷ []) (no_cursor []) (omega arith) (omega arith)

token_delta_lem_example : token_delta (usage 3) (usage 8) ≡ record {
  input_tokens = 3 - 8;
  cached_input_tokens = 0 - 0;
  output_tokens = 3 - 8;
  reasoning_tokens = 1 - 1;
}
token_delta_lem_example =
    token_delta_lem (usage 3) (usage 8) (omega arith, omega arith, omega arith, omega arith)
      (omega arith, omega arith, omega arith, omega arith)

parse_file-IsNumbered_example :
    IsNumbered world parser
      (open_cursor file (no_cursor [])).last_sequence
      (parse_file world parser file (no_cursor [])).events
    × ((parse_file world parser file (no_cursor [])).cursor.last_sequence
        ≡ last_number
            (open_cursor file (no_cursor [])).last_sequence
            (parse_file world parser file (no_cursor [])).events)
parse_file-IsNumbered_example = parse_file-IsNumbered world parser file (no_cursor [])
