-- ===== src/Postgres/Steps.antt =====
-- internal/postgres/store.go: one round of the loop of `Ingest`, by how it ended, and what the statement
-- does to the rows.
use codex_tempo.Common.{
  ◌≡◌, refl, Bool, true, false, ◌&&◌, Option, none, some, List, [], ◌∷◌, ◌++◌, arith, any,
  if◌then◌else◌, Option-cases, Bool-cases, inl, inr, sym, ◌∙◌,
}
use codex_tempo.Common.Text.{Text, text_eq, text_eq_iff}
use codex_tempo.Domain.{Event}
use codex_tempo.Postgres.{Engine, update}
use codex_tempo.Postgres.Ingest.{
  event_row, is_event, takes_place, is_changed, insert_event, Progress, rejection, touch_session,
  count_event, use_statement, run_statement, ingest_event,
}

module _ (engine : Engine) (machine_id : Text) (event : Event) (s : Progress) where
  pub data IngestStep (t : Progress) : Type 0 where
    refused :
        (reason : Text)
        → rejection engine event ≡ some reason
        → t ≡ record s {
          result = record s.result {
            rejected = s.result.rejected ++ record { id = event.id; reason = reason } ∷ [];
          };
        }
        → IngestStep t
    stored :
        (row : Event) (affected : Bool) (rows : List Event)
        → rejection engine event ≡ none
        → event_row engine machine_id event ≡ some row
        → insert_event row s.rows ≡ some (affected, rows)
        → t ≡ record {
          result = count_event event affected s.result;
          touched = if affected then touch_session event.session_id s.touched else s.touched;
          rows = rows;
        }
        → IngestStep t

  use_statement-IngestStep :
      (row : Event) (o : Option (Bool × List Event)) (t : Progress)
      → rejection engine event ≡ none
      → event_row engine machine_id event ≡ some row
      → insert_event row s.rows ≡ o
      → use_statement event o s ≡ some t
      → IngestStep t
  unfolding use_statement
  use_statement-IngestStep row none t r e i h = cc
  use_statement-IngestStep row (some (affected, rows)) t r e i h =
      stored row affected rows r e i (sym (ground (arith, h)))

  run_statement-IngestStep :
      (o : Option Event) (t : Progress)
      → rejection engine event ≡ none
      → event_row engine machine_id event ≡ o
      → run_statement event o s ≡ some t
      → IngestStep t
  unfolding run_statement
  run_statement-IngestStep none t r e h = cc
  run_statement-IngestStep (some row) t r e h =
      use_statement-IngestStep row (insert_event row s.rows) t r e refl h

  -- A round without an error refuses the event or runs its statement.
  pub ingest_event-IngestStep :
      (t : Progress) → ingest_event engine machine_id event s ≡ some t → IngestStep t
  unfolding ingest_event
  ingest_event-IngestStep t h = elim (Option-cases (rejection engine event)) [
    | inl e ↦
        run_statement-IngestStep (event_row engine machine_id event) t e refl (ground (arith, h, e))
    | inr (reason, e) ↦ refused reason e (sym (ground (arith, h, e)))
  ]

  -- A refused event, and one with its statement, from what they come from.
  pub refused_round :
      (reason : Text)
      → rejection engine event ≡ some reason
      → ingest_event engine machine_id event s
        ≡ some (record s {
          result = record s.result {
            rejected = s.result.rejected ++ record { id = event.id; reason = reason } ∷ [];
          };
        })
  unfolding ingest_event
  refused_round reason e = rw (ingest_event, e) refl

  pub stored_round :
      (row : Event) (affected : Bool) (rows : List Event)
      → rejection engine event ≡ none
      → event_row engine machine_id event ≡ some row
      → insert_event row s.rows ≡ some (affected, rows)
      → ingest_event engine machine_id event s
        ≡ some (record {
          result = count_event event affected s.result;
          touched = if affected then touch_session event.session_id s.touched else s.touched;
          rows = rows;
        })
  unfolding ingest_event run_statement use_statement
  stored_round row affected rows r e i = rw (ingest_event, r, run_statement, e, i) refl

any-update :
    (id key : Text) (f : Event → Event) (rows : List Event)
    → ((row : Event) → (f row).id ≡ row.id)
    → any (is_event id) (update (is_event key) f rows) ≡ any (is_event id) rows
any-update id key f [] keep = refl
any-update id key f (row ∷ rows) keep = ground (arith, any-update id key f rows keep, keep row)

any-append :
    (id : Text) (xs ys : List Event)
    → any (is_event id) (xs ++ ys) ≡ (if any (is_event id) xs then true else any (is_event id) ys)
any-append id [] ys = refl
any-append id (x ∷ xs) ys = ground (arith, any-append id xs ys)

-- An id that a row has is no new one.
has-own :
    (id : Text) (row : Event) (rows : List Event)
    → any (is_event row.id) rows ≡ true
    → any (is_event id) rows ≡ (if any (is_event id) rows then true else text_eq row.id id)
has-own id row rows h = ground (arith, h, text_eq_iff row.id id)

-- What the statement did to the rows.
pub data InsertStep (row : Event) (rows : List Event) (affected : Bool) (next : List Event)
    : Type 0 where
  changed :
      any (is_event row.id) rows ≡ true
      → any (λ old. is_event row.id old && is_changed row old) rows ≡ true
      → affected ≡ true
      → next
        ≡ update
            (is_event row.id)
            (λ old. record old { occurred_at = row.occurred_at; payload = row.payload })
            rows
      → InsertStep row rows affected next
  same :
      any (is_event row.id) rows ≡ true
      → affected ≡ false
      → next ≡ rows
      → InsertStep row rows affected next
  added :
      any (is_event row.id) rows ≡ false
      → affected ≡ true
      → next ≡ rows ++ row ∷ []
      → InsertStep row rows affected next

pub insert_event-InsertStep :
    (row : Event) (rows next : List Event) (affected : Bool)
    → insert_event row rows ≡ some (affected, next)
    → InsertStep row rows affected next
unfolding insert_event
insert_event-InsertStep row rows next affected h = elim (Bool-cases (any (is_event row.id) rows)) [
  | inl e ↦ elim (Bool-cases (any (λ old. is_event row.id old && is_changed row old) rows)) [
    | inl c ↦ changed e c (ground (arith, h, e, c)) (ground (arith, h, e, c))
    | inr c ↦ same e (ground (arith, h, e, c)) (ground (arith, h, e, c))
  ]
  | inr e ↦ elim (Bool-cases (any (takes_place row) rows)) [
    | inl c ↦ ground (arith, h, e, c)
    | inr c ↦ added e (ground (arith, h, e, c)) (ground (arith, h, e, c))
  ]
]

-- The statement keeps the ids that are there, and adds the row's.
pub insert_event-has :
    (row : Event) (rows next : List Event) (affected : Bool) (id : Text)
    → InsertStep row rows affected next
    → any (is_event id) next ≡ (if any (is_event id) rows then true else text_eq row.id id)
insert_event-has row rows next affected id (changed e c a n) = rw n (
    any-update id row.id
      (λ old. record old { occurred_at = row.occurred_at; payload = row.payload }) rows
      (λ old. refl)
    ∙ has-own id row rows e)
insert_event-has row rows next affected id (same e a n) = rw n (has-own id row rows e)
insert_event-has row rows next affected id (added e a n) =
    rw n (any-append id rows (row ∷ []) ∙ ground arith)
