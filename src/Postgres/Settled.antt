-- ===== src/Postgres/Settled.antt =====
-- internal/postgres/store.go: the events that a batch leaves with nothing more to do.
use codex_tempo.Common.{
  ◌≡◌, refl, true, false, none, some, List, [], ◌∷◌, ◌++◌, arith, any, All, Option-cases, inl, inr,
  ap, sym, ◌∙◌,
}
use mathlib.Core.List.{append_assoc, append-nil}
use codex_tempo.Common.Text.{Text, text_eq_refl}
use codex_tempo.Domain.{Event}
use codex_tempo.Sync.{Rejection}
use codex_tempo.Postgres.{Engine}
use codex_tempo.Postgres.Ingest.{
  event_row, is_event, insert_event, Progress, rejection, count_event, ingest_event, ingest_events,
}
use codex_tempo.Postgres.Steps.{
  IngestStep, refused, stored, ingest_event-IngestStep, refused_round, stored_round,
  insert_event-InsertStep, insert_event-has,
}
use codex_tempo.Postgres.Fixed.{IsFixed, never-changed, event_row-source, InsertStep-IsFixed}

module _ (engine : Engine) (m : Text) where
  -- The event again changes no row of such a table.
  pub data IsSettled (rows : List Event) (event : Event) : Type 0 where
    stays_refused : (reason : Text) → rejection engine event ≡ some reason → IsSettled rows event
    stays_stored :
        (row : Event)
        → rejection engine event ≡ none
        → event_row engine m event ≡ some row
        → any (is_event row.id) rows ≡ true
        → IsSettled rows event

  step-IsFixed :
      (event : Event) (s t : Progress)
      → IngestStep engine m event s t
      → IsFixed event
      → All IsFixed s.rows
      → All IsFixed t.rows
  step-IsFixed event s t (refused reason r e) f h = rw e h
  step-IsFixed event s t (stored row affected rows r e i q) f h = rw q (
      InsertStep-IsFixed row s.rows rows affected
        (insert_event-InsertStep row s.rows rows affected i)
        (rw (event_row-source engine m event row e) f) h)

  step-own :
      (event : Event) (s t : Progress) → IngestStep engine m event s t → IsSettled t.rows event
  step-own event s t (refused reason r e) = stays_refused reason r
  step-own event s t (stored row affected rows r e i q) = stays_stored row r e (
      rw q (
        insert_event-has row s.rows rows affected row.id
          (insert_event-InsertStep row s.rows rows affected i)
        ∙ ground (arith, text_eq_refl row.id)))

  step-IsSettled :
      (event other : Event) (s t : Progress)
      → IngestStep engine m event s t
      → IsSettled s.rows other
      → IsSettled t.rows other
  step-IsSettled event other s t step (stays_refused reason r) = stays_refused reason r
  step-IsSettled event other s t (refused reason q e) (stays_stored row r c h) =
      stays_stored row r c (rw e h)
  step-IsSettled event other s t (stored new affected rows q e i w) (stays_stored row r c h) =
      stays_stored row r c (
        rw w (
          insert_event-has new s.rows rows affected row.id
            (insert_event-InsertStep new s.rows rows affected i)
          ∙ rw h refl))

  -- What the loop leaves: settled events and a fixed table.
  pub loop-settles :
      (events : List Event) (s t : Progress)
      → All IsFixed events
      → All IsFixed s.rows
      → ingest_events engine m events s ≡ some t
      → All (IsSettled t.rows) events
        × All IsFixed t.rows
        × ((other : Event) → IsSettled s.rows other → IsSettled t.rows other)
  unfolding ingest_events
  loop-settles [] s t f h e = let q : s ≡ t = cc in rw (← q) (tt, h, λ other k. k)
  loop-settles (event ∷ events) s t f h e = elim (Option-cases (ingest_event engine m event s)) [
    | inl q ↦ ground (arith, e, q)
    | inr (next, q) ↦
        let step = ingest_event-IngestStep engine m event s next q in
        let (all, fixed, keeps) =
          loop-settles events next t f.1 (step-IsFixed event s next step f.0 h)
            (ground (arith, e, q)) in
        (
          (keeps event (step-own event s next step), all),
          fixed,
          λ other k. keeps other (step-IsSettled event other s next step k),
        )
  ]

  -- The reasons of the events that are refused.
  unfoldable pub refusals : List Event → List Rejection
  refusals [] = []
  refusals (event ∷ events) = elim (rejection engine event) [
    | none ↦ refusals events
    | some reason ↦ record { id = event.id; reason = reason } ∷ refusals events
  ]

  step-refusals :
      (event : Event) (s t : Progress)
      → IngestStep engine m event s t
      → t.result.rejected ≡ s.result.rejected ++ refusals (event ∷ [])
  unfolding refusals
  step-refusals event s t (refused reason r e) = rw (e, refusals, r) refl
  step-refusals event s t (stored row true rows r e i q) =
      rw (q, refusals, r) (unfold count_event in sym (append-nil s.result.rejected))
  step-refusals event s t (stored row false rows r e i q) =
      rw (q, refusals, r) (unfold count_event in sym (append-nil s.result.rejected))

  refusals-cons :
      (event : Event) (events : List Event)
      → refusals (event ∷ events) ≡ refusals (event ∷ []) ++ refusals events
  unfolding refusals
  refusals-cons event events = elim (Option-cases (rejection engine event)) [
    | inl e ↦ rw (refusals, e) refl
    | inr (reason, e) ↦ rw (refusals, e) refl
  ]

  pub loop-refusals :
      (events : List Event) (s t : Progress)
      → ingest_events engine m events s ≡ some t
      → t.result.rejected ≡ s.result.rejected ++ refusals events
  unfolding ingest_events
  loop-refusals [] s t e =
      let q : s ≡ t = cc in rw (← q) (unfold refusals in sym (append-nil s.result.rejected))
  loop-refusals (event ∷ events) s t e = elim (Option-cases (ingest_event engine m event s)) [
    | inl q ↦ ground (arith, e, q)
    | inr (next, q) ↦
        loop-refusals events next t (ground (arith, e, q))
        ∙ ap (λ r. r ++ refusals events)
            (step-refusals event s next (ingest_event-IngestStep engine m event s next q))
        ∙ append_assoc s.result.rejected (refusals (event ∷ [])) (refusals events)
        ∙ ap (λ r. s.result.rejected ++ r) (sym (refusals-cons event events))
  ]

  -- A round that leaves the rows, the touched sessions and the accepted count.
  pub record IsIdle (s t : Progress) : Type 0 where
    pub rows : t.rows ≡ s.rows
    pub touched : t.touched ≡ s.touched
    pub accepted : t.result.accepted ≡ s.result.accepted

  settled-statement :
      (row : Event) (rows : List Event)
      → All IsFixed rows
      → any (is_event row.id) rows ≡ true
      → insert_event row rows ≡ some (false, rows)
  unfolding insert_event
  settled-statement row rows f h = ground (arith, h, never-changed row rows f)

  ingest_event-IsIdle :
      (event : Event) (s : Progress)
      → All IsFixed s.rows
      → IsSettled s.rows event
      → (t : Progress) × (ingest_event engine m event s ≡ some t) × IsIdle s t
  ingest_event-IsIdle event s f (stays_refused reason r) = (
    _,
    refused_round engine m event s reason r,
    record { rows = refl; touched = refl; accepted = refl },
  )
  ingest_event-IsIdle event s f (stays_stored row r e h) = (
    _,
    stored_round engine m event s row false s.rows r e (settled-statement row s.rows f h),
    record { rows = refl; touched = refl; accepted = unfold count_event in refl },
  )

  pub ingest_events-IsIdle :
      (events : List Event) (s : Progress)
      → All IsFixed s.rows
      → All (IsSettled s.rows) events
      → (t : Progress) × (ingest_events engine m events s ≡ some t) × IsIdle s t
  unfolding ingest_events
  ingest_events-IsIdle [] s f h = (s, refl, record { rows = refl; touched = refl; accepted = refl })
  ingest_events-IsIdle (event ∷ events) s f h =
      let (next, e, idle) = ingest_event-IsIdle event s f h.0 in
      let (t, q, later) =
        ingest_events-IsIdle events next (rw (idle.rows) f) (rw (idle.rows) h.1) in
      (
        t,
        rw (ingest_events, e) q,
        record {
          rows = later.rows ∙ idle.rows;
          touched = later.touched ∙ idle.touched;
          accepted = later.accepted ∙ idle.accepted;
        },
      )
