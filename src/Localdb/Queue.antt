-- ===== src/Localdb/Queue.antt =====
-- internal/localdb/store.go: the operations on events, cursors, parser errors and metadata.
use codex_tempo.Common.{
  ℕ, zero, suc, Bool, true, false, not, ◌&&◌, ◌||◌, Option, none, some, List, [], ◌∷◌, ◌++◌, map,
  if◌then◌else◌, any, filter, count, length,
}
use codex_tempo.Common.Text.{Text, codes, text_eq, text_lt}
use codex_tempo.Common.Assoc.{get, put}
use codex_tempo.Common.Sort.{sort_by}
use codex_tempo.Common.Word.{eq64, lt64}
use codex_tempo.Domain.{Event}
use codex_tempo.Localdb.{Cursor, MetricCursor, pending, acknowledged, Row, Store}
use codex_tempo.Localdb.Stamp.{format_time}

-- The order and equality of the text column `occurred_at`.
abbrev pub stamp_lt : ℕ → ℕ → Bool
stamp_lt a b = text_lt (format_time a) (format_time b)

abbrev pub stamp_eq : ℕ → ℕ → Bool
stamp_eq a b = text_eq (format_time a) (format_time b)

unfoldable pub default_payload : Event → Event
default_payload event = record event {
  payload = if text_eq event.payload [] then codes "{}" else event.payload;
}

-- `PRIMARY KEY (id)` and `UNIQUE (machine_id, session_id, sequence)`.
unfoldable pub same_id : Event → Row → Bool
same_id event row = text_eq row.event.id event.id

unfoldable pub same_place : Event → Row → Bool
same_place event row =
    text_eq row.event.machine_id event.machine_id
    && (text_eq row.event.session_id event.session_id && eq64 row.event.sequence event.sequence)

unfoldable pub conflicts : Event → Row → Bool
unfolding same_id same_place
conflicts event row = same_id event row || same_place event row

abbrev pub new_row : Event → Row
new_row event = record { event = event; sync_state = pending; error = [] }

-- `INSERT INTO events … ON CONFLICT DO NOTHING`
unfoldable pub insert_or_ignore : Event → List Row → List Row
unfolding conflicts
insert_or_ignore event rows =
    if any (conflicts event) rows then rows else rows ++ new_row event ∷ []

unfoldable pub insert_all : List Event → List Row → List Row
unfolding insert_or_ignore default_payload
insert_all [] rows = rows
insert_all (event ∷ rest) rows = insert_all rest (insert_or_ignore (default_payload event) rows)

unfoldable pub commit_parsed : Cursor → List Event → Store → Store
unfolding insert_all
commit_parsed cursor events s = record s {
  events = insert_all events s.events;
  transcript_cursors = put cursor.path cursor s.transcript_cursors;
}

unfoldable pub commit_metrics : MetricCursor → List Event → Store → Store
unfolding insert_all
commit_metrics cursor events s =
    let state = if text_eq cursor.state [] then codes "{}" else cursor.state in
    record s {
      events = insert_all events s.events;
      metric_cursors = put cursor.path (record cursor { state = state }) s.metric_cursors;
    }

-- `DO UPDATE SET … WHERE events.source='wakapi' AND (… <> …)`
unfoldable pub update_wakapi : Event → Row → Row
update_wakapi event row =
    if text_eq row.event.source (codes "wakapi")
      && (not (stamp_eq row.event.occurred_at event.occurred_at)
          || not (text_eq row.event.payload event.payload))
    then record row {
      event = record row.event { occurred_at = event.occurred_at; payload = event.payload };
      sync_state = pending;
    }
    else row

-- Applies the change to the rows that pass the test.
unfoldable pub update_where : (Row → Bool) → (Row → Row) → List Row → List Row
update_where p f [] = []
update_where p f (row ∷ rest) = (if p row then f row else row) ∷ update_where p f rest

-- `INSERT INTO events … ON CONFLICT(id) DO UPDATE …`: the conflict on the id comes first; one on
-- the other constraint is an error.
unfoldable pub upsert : Event → List Row → Option (List Row)
unfolding same_id same_place update_wakapi update_where
upsert event rows =
    if any (same_id event) rows
    then some (update_where (same_id event) (update_wakapi event) rows)
    else (if any (same_place event) rows then none else some (rows ++ new_row event ∷ []))

unfoldable pub upsert_all : List Event → List Row → Option (List Row)
unfolding upsert default_payload
upsert_all [] rows = some rows
upsert_all (event ∷ rest) rows = elim (upsert (default_payload event) rows) [
  | none ↦ none
  | some rows' ↦ upsert_all rest rows'
]

-- `none` is the error, after which the transaction is rolled back.
unfoldable pub enqueue : List Event → Store → Option Store
unfolding upsert_all
enqueue events s = elim (upsert_all events s.events) [
  | none ↦ none
  | some rows ↦ some (record s { events = rows })
]

unfoldable pub record_parser_error : Text → ℕ → Text → Store → Store
record_parser_error path offset message s = record s {
  parser_errors =
      s.parser_errors ++ record { path = path; byte_offset = offset; message = message } ∷ [];
}

abbrev events_of : List Row → List Event
events_of = map (λ row. row.event)

-- `ORDER BY occurred_at,sequence`
unfoldable pub stamp_sequence_less : Event → Event → Bool
stamp_sequence_less a b =
    if stamp_eq a.occurred_at b.occurred_at
    then lt64 a.sequence b.sequence
    else stamp_lt a.occurred_at b.occurred_at

unfoldable pub in_range : ℕ → ℕ → Row → Bool
in_range from to row =
    not (stamp_lt row.event.occurred_at from) && stamp_lt row.event.occurred_at to

-- `Events`
unfoldable pub events_between : ℕ → ℕ → Store → List Event
unfolding in_range stamp_sequence_less
events_between from to s =
    sort_by stamp_sequence_less (map (λ row. row.event) (filter (in_range from to) s.events))

abbrev pub is_pending : Row → Bool
is_pending row = elim row.sync_state [ pending ↦ true | acknowledged ↦ false ]

unfoldable pub stamp_less : Event → Event → Bool
stamp_less a b = stamp_lt a.occurred_at b.occurred_at

abbrev pub take {ℓ} : {A : Type ℓ} → ℕ → List A → List A
take zero xs = []
take (suc n) [] = []
take (suc n) (x ∷ xs) = x ∷ take n xs

-- `Pending`
unfoldable pub pending_events : ℕ → Store → List Event
unfolding stamp_less
pending_events limit s =
    take limit (sort_by stamp_less (map (λ row. row.event) (filter is_pending s.events)))

unfoldable pub acknowledge : Row → Row
acknowledge row = record row { sync_state = acknowledged; error = [] }

unfoldable pub mark_rows : List Text → List Row → List Row
unfolding acknowledge update_where
mark_rows [] rows = rows
mark_rows (id ∷ ids) rows =
    mark_rows ids (update_where (λ row. text_eq row.event.id id) acknowledge rows)

unfoldable pub mark_acknowledged : List Text → Store → Store
unfolding mark_rows
mark_acknowledged ids s = record s { events = mark_rows ids s.events }

pub record Diagnostics : Type 0 where
  pub pending : ℕ
  pub acknowledged : ℕ
  pub parser_errors : ℕ
  pub cursors : ℕ

unfoldable pub diagnostics : Store → Diagnostics
diagnostics s = record {
  pending = count is_pending s.events;
  acknowledged = count (λ row. not (is_pending row)) s.events;
  parser_errors = length s.parser_errors;
  cursors = length s.transcript_cursors;
}

unfoldable pub reset_cursors : Store → Store
reset_cursors s = record s { transcript_cursors = []; parser_errors = [] }

abbrev pub no_cursor : Text → Cursor
no_cursor path = record {
  path = path;
  file_identity = [];
  byte_offset = 0;
  last_event_id = [];
  session_id = [];
  project_id = [];
  project_name = [];
  project_fingerprint = [];
  remote_hash = [];
  cwd = [];
  worktree_name = [];
  worktree_path = [];
  is_worktree = false;
  last_sequence = 0;
  last_modified = 0;
}

-- `Cursor`: a path without a row has the zero cursor.
unfoldable pub cursor_of : Text → Store → Cursor
cursor_of path s = elim (get path s.transcript_cursors) [ none ↦ no_cursor path | some c ↦ c ]

abbrev pub no_metric_cursor : Text → MetricCursor
no_metric_cursor path = record {
  path = path;
  file_identity = [];
  byte_offset = 0;
  state = [];
  last_modified = 0;
}

unfoldable pub metric_cursor_of : Text → Store → MetricCursor
metric_cursor_of path s = elim (get path s.metric_cursors) [
  | none ↦ no_metric_cursor path
  | some c ↦ c
]

-- `MachineID`; `fresh` is the result of `uuid.NewString`.
unfoldable pub machine_id : Text → Store → Text × Store
machine_id fresh s = elim (get (codes "machine_id") s.metadata) [
  | some id ↦ (id, s)
  | none ↦ (fresh, record s { metadata = put (codes "machine_id") fresh s.metadata })
]

-- `time.Parse` of RFC 3339 text; `none` is its error.
module _ (parse_time : Text → Option ℕ) where
  unfoldable pub ensure_time_metadata : Text → ℕ → Store → Option ℕ × Store
  ensure_time_metadata key fallback s = elim (get key s.metadata) [
    | some stored ↦ (parse_time stored, s)
    | none ↦ (
      parse_time (format_time fallback),
      record s { metadata = put key (format_time fallback) s.metadata },
    )
  ]

  -- The time, whether the key is there, and an error as `none`.
  unfoldable pub time_metadata : Text → Store → Option (ℕ × Bool)
  time_metadata key s = elim (get key s.metadata) [
    | none ↦ some (0, false)
    | some stored ↦ elim (parse_time stored) [ none ↦ none | some t ↦ some (t, true) ]
  ]

unfoldable pub set_time_metadata : Text → ℕ → Store → Store
set_time_metadata key value s = record s { metadata = put key (format_time value) s.metadata }
