-- ===== src/Postgres/Counts.antt =====
-- internal/postgres/store.go: the counts of `Ingest`, and that it stores what it does not reject.
use codex_tempo.Common.{
  ℕ, suc, ◌+◌, ◌≡◌, refl, inl, inr, Bool, true, false, some, List, [], ◌∷◌, ◌++◌, arith, any, All,
  length, length-append, if◌then◌else◌, Option-cases, ◌∙◌,
}
use codex_tempo.Common.Text.{Text, text_eq, text_eq_refl}
use codex_tempo.Domain.{Event}
use codex_tempo.Sync.{Rejection}
use codex_tempo.Postgres.{Engine}
use codex_tempo.Postgres.Ingest.{
  event_row, is_event, IngestResult, Progress, no_progress, count_event, ingest_event,
  ingest_events,
}
use codex_tempo.Postgres.Steps.{
  IngestStep, refused, stored, ingest_event-IngestStep, insert_event-InsertStep, insert_event-has,
}

-- How many events a result speaks of.
abbrev pub answered : IngestResult → ℕ
answered result = result.accepted + result.duplicates + length result.rejected

IngestStep-answered :
    (engine : Engine) (m : Text) (event : Event) (s t : Progress)
    → IngestStep engine m event s t
    → answered t.result ≡ suc (answered s.result)
IngestStep-answered engine m event s t (refused reason r e) = rw e (
    omega (arith, length-append s.result.rejected (record { id = event.id; reason = reason } ∷ [])))
IngestStep-answered engine m event s t (stored row true rows r e i q) =
    rw q (unfold count_event in omega arith)
IngestStep-answered engine m event s t (stored row false rows r e i q) =
    rw q (unfold count_event in omega arith)

-- The id is among those rejected, or a row of the table has it.
abbrev pub is_refused : Text → List Rejection → Bool
is_refused id rejected = any (λ item. text_eq item.id id) rejected

pub data IsHandled (engine : Engine) (rejected : List Rejection) (rows : List Event) (event : Event)
    : Type 0 where
  is_rejected : is_refused event.id rejected ≡ true → IsHandled engine rejected rows event
  is_stored :
      (id : Text)
      → engine.cast_uuid event.id ≡ some id
      → any (is_event id) rows ≡ true
      → IsHandled engine rejected rows event

refused-append :
    (id : Text) (xs ys : List Rejection)
    → is_refused id (xs ++ ys) ≡ (if is_refused id xs then true else is_refused id ys)
refused-append id [] ys = refl
refused-append id (x ∷ xs) ys = ground (arith, refused-append id xs ys)

-- A round keeps what is rejected and what is stored.
IngestStep-refused :
    (engine : Engine) (m : Text) (event : Event) (s t : Progress) (id : Text)
    → IngestStep engine m event s t
    → is_refused id s.result.rejected ≡ true
    → is_refused id t.result.rejected ≡ true
IngestStep-refused engine m event s t id (refused reason r e) h = rw e (
    rw (refused-append id s.result.rejected (record { id = event.id; reason = reason } ∷ []))
      (rw h refl))
IngestStep-refused engine m event s t id (stored row true rows r e i q) h =
    rw q (unfold count_event in h)
IngestStep-refused engine m event s t id (stored row false rows r e i q) h =
    rw q (unfold count_event in h)

IngestStep-stored :
    (engine : Engine) (m : Text) (event : Event) (s t : Progress) (id : Text)
    → IngestStep engine m event s t
    → any (is_event id) s.rows ≡ true
    → any (is_event id) t.rows ≡ true
IngestStep-stored engine m event s t id (refused reason r e) h = rw e h
IngestStep-stored engine m event s t id (stored row affected rows r e i q) h = rw q (
    insert_event-has row s.rows rows affected id
      (insert_event-InsertStep row s.rows rows affected i)
    ∙ rw h refl)

IngestStep-IsHandled :
    (engine : Engine) (m : Text) (event other : Event) (s t : Progress)
    → IngestStep engine m event s t
    → IsHandled engine s.result.rejected s.rows other
    → IsHandled engine t.result.rejected t.rows other
IngestStep-IsHandled engine m event other s t step (is_rejected h) =
    is_rejected (IngestStep-refused engine m event s t other.id step h)
IngestStep-IsHandled engine m event other s t step (is_stored id c h) =
    is_stored id c (IngestStep-stored engine m event s t id step h)

event_row-id :
    (engine : Engine) (m : Text) (event row : Event)
    → event_row engine m event ≡ some row
    → engine.cast_uuid event.id ≡ some row.id
unfolding event_row
event_row-id engine m event row h = ground arith

-- The event of the round is rejected or stored by it.
IngestStep-own :
    (engine : Engine) (m : Text) (event : Event) (s t : Progress)
    → IngestStep engine m event s t
    → IsHandled engine t.result.rejected t.rows event
IngestStep-own engine m event s t (refused reason r e) = is_rejected (
    rw e (
      refused-append event.id s.result.rejected (record { id = event.id; reason = reason } ∷ [])
      ∙ ground (arith, text_eq_refl event.id)))
IngestStep-own engine m event s t (stored row affected rows r e i q) =
    is_stored row.id (event_row-id engine m event row e) (
      rw q (
        insert_event-has row s.rows rows affected row.id
          (insert_event-InsertStep row s.rows rows affected i)
        ∙ ground (arith, text_eq_refl row.id)))

-- The loop answers for every event, and handles every event.
ingest_events-answered :
    (engine : Engine) (m : Text) (events : List Event) (s t : Progress)
    → ingest_events engine m events s ≡ some t
    → answered t.result ≡ answered s.result + length events
unfolding ingest_events
ingest_events-answered engine m [] s t h = ground (arith, h)
ingest_events-answered engine m (event ∷ events) s t h =
    elim (Option-cases (ingest_event engine m event s)) [
      | inl e ↦ ground (arith, h, e)
      | inr (next, e) ↦
          let step = ingest_event-IngestStep engine m event s next e in
          let rest = ingest_events-answered engine m events next t (ground (arith, h, e)) in
          omega (arith, rest, IngestStep-answered engine m event s next step)
    ]

ingest_events-IsHandled :
    (engine : Engine) (m : Text) (events : List Event) (other : Event) (s t : Progress)
    → ingest_events engine m events s ≡ some t
    → IsHandled engine s.result.rejected s.rows other
    → IsHandled engine t.result.rejected t.rows other
unfolding ingest_events
ingest_events-IsHandled engine m [] other s t h k = let e : s ≡ t = cc in rw (← e) k
ingest_events-IsHandled engine m (event ∷ events) other s t h k =
    elim (Option-cases (ingest_event engine m event s)) [
      | inl e ↦ ground (arith, h, e)
      | inr (next, e) ↦
          ingest_events-IsHandled engine m events other next t (ground (arith, h, e)) (
            IngestStep-IsHandled engine m event other s next
              (ingest_event-IngestStep engine m event s next e) k)
    ]

ingest_events-own :
    (engine : Engine) (m : Text) (events : List Event) (s t : Progress)
    → ingest_events engine m events s ≡ some t
    → All (IsHandled engine t.result.rejected t.rows) events
unfolding ingest_events
ingest_events-own engine m [] s t h = tt
ingest_events-own engine m (event ∷ events) s t h =
    elim (Option-cases (ingest_event engine m event s)) [
      | inl e ↦ ground (arith, h, e)
      | inr (next, e) ↦
          let rest : ingest_events engine m events next ≡ some t = ground (arith, h, e) in
          (
            ingest_events-IsHandled engine m events event next t rest (
                IngestStep-own engine m event s next
                  (ingest_event-IngestStep engine m event s next e)),
            ingest_events-own engine m events next t rest,
          )
    ]

-- The loop from the start, on all its events.
pub ingest_events-lem :
    (engine : Engine) (m : Text) (events rows : List Event) (t : Progress)
    → ingest_events engine m events (no_progress rows) ≡ some t
    → (answered t.result ≡ length events) × All (IsHandled engine t.result.rejected t.rows) events
ingest_events-lem engine m events rows t h = (
  omega (arith, ingest_events-answered engine m events (no_progress rows) t h),
  ingest_events-own engine m events (no_progress rows) t h,
)
