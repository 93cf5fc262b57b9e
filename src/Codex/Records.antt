-- ===== src/Codex/Records.antt =====
-- internal/codex/parser.go: `parseLine`, a line of a transcript to an event.
use codex_tempo.Common.{ℕ, Bool, Option, none, some, [], ◌∷◌, if◌then◌else◌}
use codex_tempo.Common.Text.{Text, codes, text_eq}
use codex_tempo.Domain.{
  Event, EventKind, session_started, lease, run_started, run_completed, token_usage,
}
use codex_tempo.Localdb.{Cursor}
use codex_tempo.Codex.{World, RawRecord, Envelope, string, number, run_id}

pub record File : Type 0 where
  pub path : Text
  pub identity : Text
  pub modified : ℕ
  pub content : Text

pub record Parser : Type 0 where
  pub machine_id : Text
  pub store_paths : Bool

-- An event with what `parseLine` sets of it.
abbrev pub draft : Text → ℕ → EventKind → Text → Event
draft run_id at kind payload = record {
  id = [];
  machine_id = [];
  session_id = [];
  run_id = run_id;
  sequence = 0;
  occurred_at = at;
  kind = kind;
  source = codes "transcript";
  payload = payload;
}

abbrev pub or_time : Option ℕ → ℕ → ℕ
or_time none at = at
or_time (some t) at = t

abbrev pub Parsed : Type 0
Parsed = Option Event × Option Envelope

unfoldable pub session_of : Envelope → Envelope
session_of payload =
    if text_eq payload.session_id [] then record payload { session_id = payload.id } else payload

-- The three cases of the type of a record; `none` is an error.
unfoldable pub parse_meta : World → ℕ → Envelope → Cursor → Option Parsed
unfolding session_of
parse_meta w at envelope cursor =
    let payload = session_of envelope in
    if text_eq payload.session_id []
    then none
    else some (
      some (
          draft [] at session_started (
            w.marshal (
              (codes "project_id", string cursor.project_id)
              ∷ (codes "codex_version", string payload.cli_version)
              ∷ []))),
      some payload,
    )

unfoldable pub parse_context : World → ℕ → Envelope → Cursor → Parsed
unfolding run_id
parse_context w at payload cursor = if text_eq payload.turn_id [] then (none, some payload) else (
  some (
      draft (run_id w cursor.session_id payload.turn_id) at lease (
        w.marshal (
          (codes "project_id", string cursor.project_id)
          ∷ (codes "model", string payload.model)
          ∷ (codes "reasoning_effort", string payload.effort)
          ∷ []))),
  some payload,
)

unfoldable pub parse_message : World → ℕ → Envelope → Cursor → Parsed
unfolding run_id
parse_message w at payload cursor =
    let run = run_id w cursor.session_id payload.turn_id in
    if text_eq payload.type (codes "task_started")
    then (
      some (
          draft run (or_time payload.started_at at) run_started
            (w.marshal ((codes "project_id", string cursor.project_id) ∷ []))),
      none,
    )
    else (if text_eq payload.type (codes "task_complete")
        then (some (draft run (or_time payload.completed_at at) run_completed (codes "{}")), none)
        else (if text_eq payload.type (codes "token_count")
            then (
              some (
                  draft [] at token_usage (
                    w.marshal (
                      (codes "input_tokens", number payload.last.input_tokens)
                      ∷ (codes "cached_input_tokens", number payload.last.cached_input_tokens)
                      ∷ (codes "output_tokens", number payload.last.output_tokens)
                      ∷ (codes "reasoning_tokens", number payload.last.reasoning_tokens)
                      ∷ []))),
              none,
            )
            else (none, none)))

unfoldable pub parse_payload : World → RawRecord → Envelope → Cursor → Option Parsed
unfolding parse_meta parse_context parse_message
parse_payload w raw payload cursor =
    if text_eq raw.type (codes "session_meta")
    then parse_meta w raw.timestamp payload cursor
    else (if text_eq raw.type (codes "turn_context")
        then some (parse_context w raw.timestamp payload cursor)
        else (if text_eq raw.type (codes "event_msg")
            then some (parse_message w raw.timestamp payload cursor)
            else some (none, none)))

unfoldable pub parse_line : World → Text → Cursor → Option Parsed
unfolding parse_payload
parse_line w line cursor = elim (w.parse_record line) [
  | none ↦ none
  | some raw ↦ elim (w.parse_envelope raw.payload) [
    | none ↦ none
    | some payload ↦ parse_payload w raw payload cursor
  ]
]
