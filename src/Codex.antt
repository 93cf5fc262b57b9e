-- ===== src/Codex.antt =====
-- internal/codex: transcripts of Codex to events. Reading a file is a pure function of its bytes, its
-- identity and its time; failures to open or read it are not modelled, nor white space beyond ASCII at
-- the ends of a line. The JSON codec, the hash behind UUIDs and the resolver of projects, which runs
-- git, are the fields of `World`.
pub mod Lines
pub mod Records
pub mod Parser
pub mod Metrics
pub mod Growth
pub mod Usage
pub mod Numbers
pub mod Scans
use codex_tempo.Common.{
  ℕ, zero, suc, ◌+◌, ◌-◌, ◌/◌, ◌%◌, Bool, Option, List, [], ◌∷◌, ◌++◌, ltb, if◌then◌else◌,
}
use codex_tempo.Common.Text.{Text, codes}
use codex_tempo.Common.Word.{int64_mod}
use codex_tempo.Domain.{
  EventKind, session_started, session_closed, prompt_submitted, run_started, tool_started,
  tool_finished, assistant_message, run_completed, run_interrupted, run_failed, lease, token_usage,
  project_changed, other_kind,
}

pub record RawRecord : Type 0 where
  pub timestamp : ℕ
  pub type : Text
  pub payload : Text

pub record TokenUsage : Type 0 where
  pub input_tokens : ℕ
  pub cached_input_tokens : ℕ
  pub output_tokens : ℕ
  pub reasoning_tokens : ℕ

-- The fields `last` and `total` are those of `info`; a time that is not valid is `none`.
pub record Envelope : Type 0 where
  pub type : Text
  pub id : Text
  pub session_id : Text
  pub turn_id : Text
  pub cwd : Text
  pub model : Text
  pub effort : Text
  pub cli_version : Text
  pub started_at : Option ℕ
  pub completed_at : Option ℕ
  pub last : TokenUsage
  pub total : TokenUsage

-- The result of `projectresolver.Resolve`.
pub record Result : Type 0 where
  pub id : Text
  pub fingerprint : Text
  pub name : Text
  pub root_path : Text
  pub remote_hash : Text
  pub worktree_name : Text
  pub worktree_path : Text
  pub is_worktree : Bool

pub data JsonValue : Type 0 where
  string : Text → JsonValue
  boolean : Bool → JsonValue
  number : ℕ → JsonValue

-- `parse_record` and `parse_envelope` are `json.Unmarshal`, with `none` for an error; `marshal` is
-- `json.Marshal` of a map; `hash_uuid` is the text of `uuid.NewSHA1` in the namespace OID;
-- `resolve` takes the directory, the machine and whether paths are stored.
pub record World : Type 0 where
  pub parse_record : Text → Option RawRecord
  pub parse_envelope : Text → Option Envelope
  pub marshal : List (Text × JsonValue) → Text
  pub hash_uuid : Text → Text
  pub resolve : Text → Text → Bool → Result

-- `strings.Join(parts, "\x00")`
unfoldable pub join_parts : List Text → Text
join_parts [] = []
join_parts (part ∷ []) = part
join_parts (part ∷ p ∷ parts) = part ++ 0 ∷ join_parts (p ∷ parts)

unfoldable pub deterministic_uuid : World → List Text → Text
unfolding join_parts
deterministic_uuid w parts = w.hash_uuid (join_parts parts)

unfoldable pub run_id : World → Text → Text → Text
unfolding deterministic_uuid
run_id w session_id [] = []
run_id w session_id (c ∷ native) =
    deterministic_uuid w (codes "run" ∷ session_id ∷ (c ∷ native) ∷ [])

unfoldable pub kind_text : EventKind → Text
kind_text session_started = codes "session_started"
kind_text session_closed = codes "session_closed"
kind_text prompt_submitted = codes "prompt_submitted"
kind_text run_started = codes "run_started"
kind_text tool_started = codes "tool_started"
kind_text tool_finished = codes "tool_finished"
kind_text assistant_message = codes "assistant_message"
kind_text run_completed = codes "run_completed"
kind_text run_interrupted = codes "run_interrupted"
kind_text run_failed = codes "run_failed"
kind_text lease = codes "lease"
kind_text token_usage = codes "token_usage"
kind_text project_changed = codes "project_changed"
kind_text (other_kind k) = k

-- The decimal digits of a number below 10 ^ n, without leading zeros.
unfoldable pub decimal : ℕ → ℕ → Text
decimal zero x = []
decimal (suc n) x = (if ltb x 10 then [] else decimal n (x / 10)) ++ (48 + x % 10) ∷ []

-- `strconv.FormatInt(x, 10)`
unfoldable pub format_int : ℕ → Text
unfolding decimal
format_int x = if ltb x 9223372036854775808 then decimal 19 x else 45 ∷ decimal 19 (int64_mod - x)
