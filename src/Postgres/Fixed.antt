-- ===== src/Postgres/Fixed.antt =====
-- internal/postgres/store.go: tables without Wakapi events, whose rows no statement changes.
use codex_tempo.Common.{
  ℕ, ◌≡◌, refl, Bool, false, ◌&&◌, some, List, [], ◌∷◌, arith, any, All, All-append,
}
use codex_tempo.Common.Text.{Text, codes, text_eq}
use codex_tempo.Domain.{Event}
use codex_tempo.Postgres.{Engine, update}
use codex_tempo.Postgres.Ingest.{event_row, is_event, is_changed}
use codex_tempo.Postgres.Steps.{InsertStep, changed, same, added}

-- Not of the source whose events may change.
abbrev pub IsFixed : Event → Type 0
IsFixed event = text_eq event.source (codes "wakapi") ≡ false

pub never-changed :
    (row : Event) (rows : List Event)
    → All IsFixed rows
    → any (λ old. is_event row.id old && is_changed row old) rows ≡ false
unfolding is_changed
never-changed row [] h = refl
never-changed row (old ∷ rows) h = ground (arith, h.0, never-changed row rows h.1)

pub event_row-source :
    (engine : Engine) (m : Text) (event row : Event)
    → event_row engine m event ≡ some row
    → row.source ≡ event.source
unfolding event_row
event_row-source engine m event row h = ground arith

IsFixed-update :
    (id : Text) (at : ℕ) (payload : Text) (rows : List Event)
    → All IsFixed rows
    → All IsFixed
        (update (is_event id) (λ old. record old { occurred_at = at; payload = payload }) rows)
IsFixed-update id at payload [] h = tt
IsFixed-update id at payload (row ∷ rows) h =
    (ground (arith, h.0), IsFixed-update id at payload rows h.1)

pub InsertStep-IsFixed :
    (row : Event) (rows next : List Event) (affected : Bool)
    → InsertStep row rows affected next
    → IsFixed row
    → All IsFixed rows
    → All IsFixed next
InsertStep-IsFixed row rows next affected (changed e c a n) f h =
    rw n (IsFixed-update row.id row.occurred_at row.payload rows h)
InsertStep-IsFixed row rows next affected (same e a n) f h = rw n h
InsertStep-IsFixed row rows next affected (added e a n) f h =
    rw n (All-append IsFixed rows (row ∷ []) h (f, tt))
