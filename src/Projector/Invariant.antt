-- ===== src/Projector/Invariant.antt =====
-- An induction over the loop of `Project`: what holds of a new run and is kept by every change of
-- a run holds of every run in the map, whose keys are distinct.
use codex_tempo.Common.{
  ℕ, ◌≡◌, ◌≢◌, refl, ◌∙◌, inl, inr, Bool, true, false, ◌||◌, Option, none, some, List, [], ◌∷◌,
  if◌then◌else◌, Bool-cases, All,
}
use codex_tempo.Common.Text.{Text, codes, text_eq, text_eq_iff}
use codex_tempo.Common.Assoc.{
  AllEntries, AllEntries-modify, AllEntries-put, get, modify, is_map, put-is_map, modify-is_map,
}
use codex_tempo.Common.Sort.{sort_by, All-sort_by}
use codex_tempo.Domain.{
  EventKind, session_closed, prompt_submitted, run_started, run_completed, run_interrupted,
  run_failed, token_usage, RunStatus, running, completed, interrupted, failed, superseded, Event,
  Run,
}
use codex_tempo.Projector.{
  EventPayload, close_inferred_run, event_less, State, no_state, new_run, write, pointer, points_to,
  supersede, open_run, start_run, set_tokens, use_tokens, close_explicit, close_pointer,
  close_matching, close_session, close_current, allocate, update_run, dispatch, step, run_events,
  member,
}

-- Whether the kind is one of those that may start a run.
abbrev pub is_start : EventKind → Bool
is_start prompt_submitted = true
is_start run_started = true
is_start _ = false

-- What every change of a run in the loop keeps.
pub record IsKept {ℓ} (P : Text → Run → Type ℓ) : Type ℓ where
  pub by_inference :
      (key : Text) (run : Run) (at : ℕ) (status : RunStatus) (reason : Text)
      → status ≢ running
      → reason ≢ []
      → P key run
      → P key (close_inferred_run run at status reason)
  pub by_close :
      (key : Text) (run : Run) (at : ℕ) (status : RunStatus) (reason : Text)
      → status ≢ running
      → reason ≢ []
      → P key run
      → P key (close_explicit at status reason run)
  pub by_tokens :
      (key : Text) (run : Run) (payload : EventPayload) (at : ℕ)
      → P key run
      → P key (set_tokens payload at run)
  pub by_update :
      (key : Text) (run : Run) (payload : EventPayload) (at : ℕ)
      → P key run
      → P key (update_run payload at run)

module _ {ℓ} (P : Text → Run → Type ℓ) (kept : IsKept P) where
  abbrev pub IsRunMap : List (Text × Run) → Type ℓ
  IsRunMap m = AllEntries P m × (is_map m ≡ true)

  -- The run that the event starts, if it starts one, is as wanted.
  abbrev pub StartsWell : EventKind → Event → EventPayload → Type ℓ
  StartsWell kind event payload =
      is_start kind ≡ true → event.run_id ≢ [] → P event.run_id (new_run event payload)

  modify-IsRunMap :
      (key : Text) (f : Run → Run) (m : List (Text × Run))
      → ((j : Text) (run : Run) → P j run → P j (f run))
      → IsRunMap m
      → IsRunMap (modify key f m)
  modify-IsRunMap key f m h a = (AllEntries-modify P key f m h a.0, modify-is_map key f m ∙ a.1)

  write-IsRunMap :
      (p : Option Text) (f : Run → Run) (s : State)
      → ((j : Text) (run : Run) → P j run → P j (f run))
      → IsRunMap s.runs
      → IsRunMap (write p f s).runs
  unfolding write
  write-IsRunMap none f s h a = a
  write-IsRunMap (some key) f s h a = modify-IsRunMap key f s.runs h a

  supersede-IsRunMap :
      (event : Event) (s : State) → IsRunMap s.runs → IsRunMap (supersede event s).runs
  unfolding supersede
  supersede-IsRunMap event s a =
      elim (Bool-cases (points_to (get event.session_id s.active) event.run_id)) [
        | inl p ↦ rw p a
        | inr p ↦ rw p (
            write-IsRunMap (get event.session_id s.active) _ s
              (λ j run e.
                kept.by_inference j run event.occurred_at superseded (codes "new_run") (λ q. cc)
                  (λ q. cc) e)
              a)
      ]

  allocate-IsRunMap :
      (found : Option Run) (event : Event) (payload : EventPayload) (m : List (Text × Run))
      → P event.run_id (new_run event payload)
      → IsRunMap m
      → IsRunMap (allocate found event payload m)
  unfolding allocate
  allocate-IsRunMap (some run) event payload m h a = a
  allocate-IsRunMap none event payload m h a = (
    AllEntries-put P event.run_id (new_run event payload) m h a.0,
    put-is_map event.run_id (new_run event payload) m a.1,
  )

  open_run-IsRunMap :
      (event : Event) (payload : EventPayload) (s : State)
      → P event.run_id (new_run event payload)
      → IsRunMap s.runs
      → IsRunMap (open_run event payload s).runs
  unfolding open_run
  open_run-IsRunMap event payload s h a =
      allocate-IsRunMap (get event.run_id s.runs) event payload s.runs h a

  start_run-IsRunMap :
      (event : Event) (payload : EventPayload) (s : State)
      → (event.run_id ≢ [] → P event.run_id (new_run event payload))
      → IsRunMap s.runs
      → IsRunMap (start_run event payload s).runs
  unfolding start_run
  start_run-IsRunMap event payload s w a = elim (Bool-cases (text_eq event.run_id [])) [
    | inl p ↦ rw p (supersede-IsRunMap event s a)
    | inr p ↦ rw p (
        open_run-IsRunMap event payload (supersede event s)
          (w (λ e. cc (p, (text_eq_iff event.run_id []).1 e))) (supersede-IsRunMap event s a))
  ]

  close_matching-IsRunMap :
      (event : Event) (status : RunStatus) (reason : Text) (s : State)
      → status ≢ running
      → reason ≢ []
      → IsRunMap s.runs
      → IsRunMap (close_matching event status reason s).runs
  unfolding close_matching
  close_matching-IsRunMap event status reason s h k a =
      go (if text_eq event.run_id [] then get event.session_id s.active else pointer event.run_id s)
    where
      go : (p : Option Text) → IsRunMap (close_pointer p event status reason s).runs
      go none = a
      go (some key) =
          modify-IsRunMap key (close_explicit event.occurred_at status reason) s.runs
            (λ j run e. kept.by_close j run event.occurred_at status reason h k e) a

  close_current-IsRunMap :
      (p : Option Text) (event : Event) (s : State)
      → IsRunMap s.runs
      → IsRunMap (close_current p event s).runs
  unfolding close_current
  close_current-IsRunMap none event s a = a
  close_current-IsRunMap (some key) event s a =
      modify-IsRunMap key _ s.runs
        (λ j run h.
          kept.by_inference j run event.occurred_at interrupted (codes "session_closed") (λ q. cc)
            (λ q. cc) h)
        a

  dispatch-IsRunMap :
      (kind : EventKind) (event : Event) (payload : EventPayload) (s : State)
      → StartsWell kind event payload
      → IsRunMap s.runs
      → IsRunMap (dispatch kind event payload s).runs
  unfolding dispatch use_tokens
  dispatch-IsRunMap prompt_submitted event payload s w a =
      start_run-IsRunMap event payload s (w refl) a
  dispatch-IsRunMap run_started event payload s w a = start_run-IsRunMap event payload s (w refl) a
  dispatch-IsRunMap token_usage event payload s w a =
      write-IsRunMap _ (set_tokens payload event.occurred_at) s
        (λ j run e. kept.by_tokens j run payload event.occurred_at e) a
  dispatch-IsRunMap run_completed event payload s w a =
      close_matching-IsRunMap event completed _ s (λ q. cc) (λ q. cc) a
  dispatch-IsRunMap run_interrupted event payload s w a =
      close_matching-IsRunMap event interrupted _ s (λ q. cc) (λ q. cc) a
  dispatch-IsRunMap run_failed event payload s w a =
      close_matching-IsRunMap event failed _ s (λ q. cc) (λ q. cc) a
  dispatch-IsRunMap session_closed event payload s w a =
      unfold close_session in close_current-IsRunMap (get event.session_id s.active) event s a
  dispatch-IsRunMap _ event payload s w a =
      write-IsRunMap (get event.session_id s.active) (update_run payload event.occurred_at) s
        (λ j run e. kept.by_update j run payload event.occurred_at e) a

  module _ (decode : Text → EventPayload) where
    step-IsRunMap :
        (s : State) (event : Event)
        → StartsWell event.kind event (decode event.payload)
        → IsRunMap s.runs
        → IsRunMap (step decode s event).runs
    unfolding step
    step-IsRunMap s event w a = elim (Bool-cases (text_eq event.id [] || member event.id s.seen)) [
      | inl p ↦ rw p a
      | inr p ↦ rw p (dispatch-IsRunMap event.kind event (decode event.payload) _ w a)
    ]

    pub run_events-IsRunMap :
        (s : State) (events : List Event)
        → All (λ event. StartsWell event.kind event (decode event.payload)) events
        → IsRunMap s.runs
        → IsRunMap (run_events decode s events).runs
    unfolding run_events
    run_events-IsRunMap s [] w a = a
    run_events-IsRunMap s (event ∷ rest) w a =
        run_events-IsRunMap (step decode s event) rest w.1 (step-IsRunMap s event w.0 a)

    -- The runs of the final map.
    pub project_runs :
        (events : List Event)
        → All (λ event. StartsWell event.kind event (decode event.payload)) events
        → IsRunMap (run_events decode no_state (sort_by event_less events)).runs
    project_runs events w =
        run_events-IsRunMap no_state (sort_by event_less events) (All-sort_by event_less _ events w)
          (tt, unfold is_map in refl)
