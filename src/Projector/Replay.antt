-- ===== src/Projector/Replay.antt =====
-- Events that arrive again change nothing.
use codex_tempo.Common.{
  ◌≡◌, refl, sym, ap, inl, inr, true, false, Option, List, [], ◌∷◌, arith, Bool-cases, ltb, ◌||◌,
  All,
}
use mathlib.Core.Path.{subst}
use mathlib.Core.List.{Memᴰ}
use codex_tempo.Common.Text.{Text, text_eq, text_eq_iff, text_eq_refl}
use codex_tempo.Common.Sort.{insert_by, sort_by, IsSorted, sort_by-IsSorted, All-sort_by}
use codex_tempo.Domain.{
  EventKind, session_closed, prompt_submitted, run_started, run_completed, run_interrupted,
  run_failed, token_usage, RunStatus, Event, Run,
}
use codex_tempo.Common.Assoc.{get, values}
use codex_tempo.Projector.{
  start_run, use_tokens, close_matching, close_session, write, EventPayload, State, no_state,
  event_less, dispatch, step, run_events, project, member,
}
use codex_tempo.Projector.Order.{event_order, event_less_total}

seen-start_run :
    (event : Event) (payload : EventPayload) (s : State) → (start_run event payload s).seen ≡ s.seen
unfolding start_run
seen-start_run event payload s = ground (arith, text_eq_iff event.run_id [])

seen-use_tokens :
    (event : Event) (payload : EventPayload) (s : State)
    → (use_tokens event payload s).seen ≡ s.seen
unfolding use_tokens
seen-use_tokens event payload s = ground arith

seen-close_matching :
    (event : Event) (status : RunStatus) (reason : Text) (s : State)
    → (close_matching event status reason s).seen ≡ s.seen
unfolding close_matching
seen-close_matching event status reason s = ground arith

seen-close_session : (event : Event) (s : State) → (close_session event s).seen ≡ s.seen
unfolding close_session
seen-close_session event s = ground arith

seen-write : (p : Option Text) (f : Run → Run) (s : State) → (write p f s).seen ≡ s.seen
unfolding write
seen-write p f s = ground arith

pub seen-dispatch :
    (kind : EventKind) (event : Event) (payload : EventPayload) (s : State)
    → (dispatch kind event payload s).seen ≡ s.seen
unfolding dispatch
seen-dispatch prompt_submitted event payload s = seen-start_run event payload s
seen-dispatch run_started event payload s = seen-start_run event payload s
seen-dispatch token_usage event payload s = seen-use_tokens event payload s
seen-dispatch run_completed event payload s = seen-close_matching event _ _ s
seen-dispatch run_interrupted event payload s = seen-close_matching event _ _ s
seen-dispatch run_failed event payload s = seen-close_matching event _ _ s
seen-dispatch session_closed event payload s = seen-close_session event s
seen-dispatch _ event payload s = seen-write (get event.session_id s.active) _ s

Memᴰ-insert_by_self : (x : Event) (l : List Event) → Memᴰ x (insert_by event_less x l)
unfolding insert_by
Memᴰ-insert_by_self x [] = Memᴰ.head refl
Memᴰ-insert_by_self x (y ∷ l) = elim (Bool-cases (event_less y x)) [
  | inl before ↦ rw before (Memᴰ.tail (Memᴰ-insert_by_self x l))
  | inr after ↦ rw after (Memᴰ.head refl)
]

Memᴰ-insert_by : (e x : Event) (l : List Event) → Memᴰ e l → Memᴰ e (insert_by event_less x l)
unfolding insert_by
Memᴰ-insert_by e x [] m = elim m [ ]
Memᴰ-insert_by e x (y ∷ l) (Memᴰ.head p) = elim (Bool-cases (event_less y x)) [
  | inl before ↦ rw before (Memᴰ.head p)
  | inr after ↦ rw after (Memᴰ.tail (Memᴰ.head p))
]
Memᴰ-insert_by e x (y ∷ l) (Memᴰ.tail m) = elim (Bool-cases (event_less y x)) [
  | inl before ↦ rw before (Memᴰ.tail (Memᴰ-insert_by e x l m))
  | inr after ↦ rw after (Memᴰ.tail (Memᴰ.tail m))
]

Memᴰ-sort_by : (e : Event) (l : List Event) → Memᴰ e l → Memᴰ e (sort_by event_less l)
unfolding sort_by
Memᴰ-sort_by e [] m = elim m [ ]
Memᴰ-sort_by e (x ∷ l) (Memᴰ.head p) = rw p (Memᴰ-insert_by_self x (sort_by event_less l))
Memᴰ-sort_by e (x ∷ l) (Memᴰ.tail m) =
    Memᴰ-insert_by e x (sort_by event_less l) (Memᴰ-sort_by e l m)

All-Memᴰ {ℓ κ} : {A : Type ℓ} (P : A → Type κ) (l : List A) {a : A} → Memᴰ a l → All P l → P a
All-Memᴰ P [] m h = elim m [ ]
All-Memᴰ P (x ∷ l) (Memᴰ.head e) h = subst P (sym e) h.0
All-Memᴰ P (x ∷ l) (Memᴰ.tail m) h = All-Memᴰ P l m h.1

insert_later :
    (e x : Event) (l : List Event)
    → event_less x e ≡ true
    → insert_by event_less e (x ∷ l) ≡ x ∷ insert_by event_less e l
unfolding insert_by
insert_later e x l h = rw h

module _ (decode : Text → EventPayload) where
  step_seen :
      (s : State) (event : Event)
      → (text_eq event.id [] || member event.id s.seen) ≡ true
      → step decode s event ≡ s
  unfolding step
  step_seen s event h = rw h

  -- After a round the event's id is taken.
  step_takes :
      (s : State) (event : Event)
      → (text_eq event.id [] || member event.id (step decode s event).seen) ≡ true
  unfolding step
  step_takes s event = ground (
    arith,
    text_eq_refl event.id,
    seen-dispatch event.kind event (decode event.payload) (record s { seen = event.id ∷ s.seen }),
  )

  step_twice :
      (s : State) (event : Event) → step decode (step decode s event) event ≡ step decode s event
  step_twice s event = step_seen (step decode s event) event (step_takes s event)

  run_events_twice :
      (s : State) (a b : Event) (l : List Event)
      → a ≡ b
      → run_events decode s (a ∷ b ∷ l) ≡ run_events decode s (b ∷ l)
  unfolding run_events
  run_events_twice s a b l e = rw e (ap (λ (t : State). run_events decode t l) (step_twice s b))

  insert_at-eq :
      (s : State) (e x : Event) (l : List Event)
      → event_less x e ≡ false
      → e ≡ x
      → run_events decode s (insert_by event_less e (x ∷ l)) ≡ run_events decode s (x ∷ l)
  unfolding insert_by
  insert_at-eq s e x l after same = rw after (run_events_twice s e x l same)

  not-before_self : (e : Event) → event_less e e ≡ false
  not-before_self e = elim (Bool-cases (event_less e e)) [
    | inl h ↦ event_order.asymm e e h
    | inr h ↦ h
  ]

  run_events-cons :
      (s : State) (x : Event) (l : List Event)
      → run_events decode s (x ∷ l) ≡ run_events decode (step decode s x) l
  unfolding run_events
  run_events-cons s x l = refl

  -- A second copy of an event, wherever the order puts it, is skipped.
  run_events-insert_by :
      (s : State) (e : Event) (l : List Event)
      → Memᴰ e l
      → All (λ x. x.id ≡ e.id → x ≡ e) l
      → IsSorted event_less l
      → run_events decode s (insert_by event_less e l) ≡ run_events decode s l
  run_events-insert_by s e [] m only so = elim m [ ]
  run_events-insert_by s e (x ∷ l) (Memᴰ.head same) only so =
      insert_at-eq s e x l (rw (← same) (not-before_self e)) same
  run_events-insert_by s e (x ∷ l) (Memᴰ.tail m) only so = elim (Bool-cases (event_less x e)) [
    | inl before ↦
        rw
          (
            insert_later e x l before,
            run_events-cons s x (insert_by event_less e l),
            run_events-cons s x l,
          )
          (run_events-insert_by (step decode s x) e l m only.1 so.1)
    | inr after ↦
        insert_at-eq s e x l after (sym (only.0 (event_less_total x e after (All-Memᴰ _ l m so.0))))
  ]

-- An event that is delivered a second time changes no run, if no other event has its id.
pub project_again :
    (decode : Text → EventPayload) (e : Event) (events : List Event)
    → Memᴰ e events
    → All (λ x. x.id ≡ e.id → x ≡ e) events
    → project decode (e ∷ events) ≡ project decode events
unfolding project sort_by
project_again decode e events m only =
    ap (λ (s : State). sort_by (λ (a b : Run). ltb a.started_at b.started_at) (values s.runs))
      (run_events-insert_by decode no_state e (sort_by event_less events) (Memᴰ-sort_by e events m)
        (All-sort_by event_less _ events only) (sort_by-IsSorted event_order events))
