-- ===== src/Localdb/Reach.antt =====
-- internal/localdb/store.go: the stores that the operations lead to from a new database.
use codex_tempo.Common.{
  ℕ, ◌≡◌, ◌≢◌, refl, false, Option, none, some, List, [], ◌∷◌, All, inl, inr, arith, sym,
  Option-cases,
}
use codex_tempo.Common.Text.{Text, codes, text_eq_refl}
use codex_tempo.Domain.{Event}
use codex_tempo.Localdb.{Cursor, MetricCursor, HookHeartbeat, Row, Store}
use codex_tempo.Localdb.Queue.{
  commit_parsed, commit_metrics, upsert_all, enqueue, record_parser_error, mark_acknowledged,
  reset_cursors, machine_id, ensure_time_metadata, set_time_metadata, conflicts, same_id,
  same_place,
}
use codex_tempo.Localdb.Hooks.{HasKeys, keys-from}
use codex_tempo.Localdb.Beats.{advance_hook_heartbeat, advance_from, store_heartbeat}
use codex_tempo.Localdb.Table.{IsUnique, insert_all-IsUnique, upsert_all-IsUnique, mark-IsUnique}
use codex_tempo.Common.Assoc.{get}

abbrev pub no_rows : Store
no_rows = record {
  metadata = [];
  transcript_cursors = [];
  events = [];
  parser_errors = [];
  hook_heartbeats = [];
  metric_cursors = [];
}

-- One operation of the store that succeeds.
pub data Step : Store → Store → Type 0 where
  parsed :
      (cursor : Cursor) (events : List Event) (s : Store) → Step s (commit_parsed cursor events s)
  metrics :
      (cursor : MetricCursor) (events : List Event) (s : Store)
      → Step s (commit_metrics cursor events s)
  enqueued : (events : List Event) (s t : Store) → enqueue events s ≡ some t → Step s t
  marked : (ids : List Text) (s : Store) → Step s (mark_acknowledged ids s)
  error :
      (path : Text) (offset : ℕ) (message : Text) (s : Store)
      → Step s (record_parser_error path offset message s)
  reset : (s : Store) → Step s (reset_cursors s)
  hook :
      (h : HookHeartbeat) (timeout : ℕ) (s : Store) → Step s (advance_hook_heartbeat h timeout s).1
  machine : (fresh : Text) (s : Store) → Step s (machine_id fresh s).1
  ensured :
      (parse_time : Text → Option ℕ) (key : Text) (fallback : ℕ) (s : Store)
      → Step s (ensure_time_metadata parse_time key fallback s).1
  set : (key : Text) (value : ℕ) (s : Store) → Step s (set_time_metadata key value s)

pub data Reachable : Store → Type 0 where
  new : Reachable no_rows
  after : (s t : Store) → Reachable s → Step s t → Reachable t

-- The rows differ in their id, and in their machine, session or sequence number.
abbrev pub AreApart : Row → Row → Type 0
AreApart r s =
    (r.event.id ≢ s.event.id)
    × (r.event.machine_id ≡ s.event.machine_id
        → r.event.session_id ≡ s.event.session_id
        → r.event.sequence ≢ s.event.sequence)

-- So any two rows do.
abbrev pub AreAllApart : List Row → Type 0
AreAllApart [] = Unit
AreAllApart (row ∷ rows) = All (λ r. AreApart r row) rows × AreAllApart rows

conflicts-AreApart : (r s : Row) → conflicts r.event s ≡ false → AreApart r s
unfolding conflicts same_id same_place
conflicts-AreApart r s h = (
  λ e. ground (arith, h, e, text_eq_refl s.event.id),
  λ m n q.
      ground (arith, h, m, n, q, text_eq_refl s.event.machine_id, text_eq_refl s.event.session_id),
)

All-AreApart :
    (row : Row) (rows : List Row)
    → All (λ r. conflicts r.event row ≡ false) rows
    → All (λ r. AreApart r row) rows
All-AreApart row [] a = tt
All-AreApart row (r ∷ rows) a = (conflicts-AreApart r row a.0, All-AreApart row rows a.1)

IsUnique-AreAllApart : (rows : List Row) → IsUnique rows → AreAllApart rows
IsUnique-AreAllApart [] u = tt
IsUnique-AreAllApart (row ∷ rows) u = (All-AreApart row rows u.0, IsUnique-AreAllApart rows u.1)

-- What each operation keeps: no two events conflict, and heartbeats are under their keys.
abbrev pub IsKept : Store → Type 0
IsKept s = IsUnique s.events × HasKeys s

abbrev pub IsSound : Store → Type 0
IsSound s = AreAllApart s.events × HasKeys s

machine_id-IsKept : (fresh : Text) (s : Store) → IsKept s → IsKept (machine_id fresh s).1
unfolding machine_id
machine_id-IsKept fresh s h = elim (Option-cases (get (codes "machine_id") s.metadata)) [
  | inl e ↦ rw (machine_id, e) h
  | inr (v, e) ↦ rw (machine_id, e) h
]

ensure_time_metadata-IsKept :
    (parse_time : Text → Option ℕ) (key : Text) (fallback : ℕ) (s : Store)
    → IsKept s
    → IsKept (ensure_time_metadata parse_time key fallback s).1
unfolding ensure_time_metadata
ensure_time_metadata-IsKept parse_time key fallback s h = elim (Option-cases (get key s.metadata)) [
  | inl e ↦ rw (ensure_time_metadata, e) h
  | inr (v, e) ↦ rw (ensure_time_metadata, e) h
]

enqueue-IsKept :
    (events : List Event) (s t : Store) → enqueue events s ≡ some t → IsKept s → IsKept t
unfolding enqueue
enqueue-IsKept events s t e h = elim (Option-cases (upsert_all events s.events)) [
  | inl q ↦ ground (arith, q)
  | inr (rows, q) ↦
      let r : (record s { events = rows }) ≡ t = ground (arith, q) in
      rw (sym r) (upsert_all-IsUnique events s.events rows h.0 q, h.1)
]

hook-events :
    (previous : Option HookHeartbeat) (h : HookHeartbeat) (timeout : ℕ) (s : Store)
    → (advance_from previous h timeout s).1.events ≡ s.events
unfolding advance_from store_heartbeat
hook-events none h timeout s = refl
hook-events (some p) h timeout s = ground arith

hook-IsKept :
    (h : HookHeartbeat) (timeout : ℕ) (s : Store)
    → IsKept s
    → IsKept (advance_hook_heartbeat h timeout s).1
unfolding advance_hook_heartbeat
hook-IsKept h timeout s (u, keys) =
    let previous = get h.session_id s.hook_heartbeats in
    (rw (hook-events previous h timeout s) u, keys-from previous h timeout s keys)

Step-IsKept : (s t : Store) → Step s t → IsKept s → IsKept t
Step-IsKept _ _ (parsed cursor events s) h =
    unfold commit_parsed in (insert_all-IsUnique events s.events h.0, h.1)
Step-IsKept _ _ (metrics cursor events s) h =
    unfold commit_metrics in (insert_all-IsUnique events s.events h.0, h.1)
Step-IsKept _ _ (enqueued events s t e) h = enqueue-IsKept events s t e h
Step-IsKept _ _ (marked ids s) h = unfold mark_acknowledged in (mark-IsUnique ids s.events h.0, h.1)
Step-IsKept _ _ (error path offset message s) h = unfold record_parser_error in h
Step-IsKept _ _ (reset s) h = unfold reset_cursors in h
Step-IsKept _ _ (hook a timeout s) h = hook-IsKept a timeout s h
Step-IsKept _ _ (machine fresh s) h = machine_id-IsKept fresh s h
Step-IsKept _ _ (ensured parse_time key fallback s) h =
    ensure_time_metadata-IsKept parse_time key fallback s h
Step-IsKept _ _ (set key value s) h = unfold set_time_metadata in h

reachable-IsKept : (s : Store) → Reachable s → IsKept s
reachable-IsKept _ new = (tt, tt)
reachable-IsKept _ (after s t r step) = Step-IsKept s t step (reachable-IsKept s r)

-- In every store that successful operations lead to from an empty one, no two events have one id or
-- one machine, session and sequence number, and each heartbeat is under its session.
pub reachable-IsSound : (s : Store) → Reachable s → IsSound s
reachable-IsSound s r =
    let (unique, keys) = reachable-IsKept s r in (IsUnique-AreAllApart s.events unique, keys)
