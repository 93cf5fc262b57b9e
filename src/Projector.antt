-- ===== src/Projector.antt =====
-- internal/projector/projector.go: events to runs.
-- `runs` maps an id to a `*domain.Run`, and `active` a session to one of these pointers. A run is
-- allocated only where `runs` has no entry for its id, and an entry is neither replaced nor
-- deleted; so the pointer to a run is modelled by the id under which `runs` has it, and equality
-- of pointers by equality of ids. `decode` is the payload after `json.Unmarshal`, whose error the
-- program drops: a parameter.
pub mod Order
pub mod Replay
pub mod Runs
pub mod Invariant
pub mod Results
pub mod Origin
pub mod Reconcile
use codex_tempo.Common.{
  ℕ, ◌+◌, Bool, true, false, not, ◌||◌, ◌&&◌, Option, none, some, List, [], ◌∷◌, ltb, ◌==◌,
  if◌then◌else◌, any, map,
}
use codex_tempo.Common.Text.{Text, codes, text_eq, text_lt}
use codex_tempo.Common.Assoc.{get, put, delete, modify, values}
use codex_tempo.Common.Sort.{sort_by}
use codex_tempo.Common.Word.{lt64, eq64}
use codex_tempo.Domain.{
  EventKind, session_closed, prompt_submitted, run_started, run_completed, run_interrupted,
  run_failed, token_usage, RunStatus, running, completed, interrupted, failed, superseded,
  abandoned, Event, Run, projection_version,
}

-- 90 seconds.
abbrev pub inferred_closure_grace : ℕ
inferred_closure_grace = 90000000000

pub record EventPayload : Type 0 where
  pub project_id : Text
  pub model : Text
  pub reasoning_effort : Text
  pub input_tokens : ℕ
  pub cached_input_tokens : ℕ
  pub output_tokens : ℕ
  pub reasoning_tokens : ℕ

unfoldable pub close_run : Run → ℕ → RunStatus → Text → Run
close_run run at status reason =
    let at' = if ltb at run.started_at then run.started_at else at in
    record run {
      ended_at = some at';
      last_activity_at = at';
      status = status;
      close_reason = reason;
    }

unfoldable pub close_inferred_run : Run → ℕ → RunStatus → Text → Run
unfolding close_run
close_inferred_run run at status reason =
    let deadline = run.last_activity_at + inferred_closure_grace in
    close_run run (if ltb deadline at then deadline else at) status reason

unfoldable pub touch : Run → ℕ → Run
touch run at = if ltb run.last_activity_at at then record run { last_activity_at = at } else run

-- The `less` of `sort.SliceStable`.
unfoldable pub event_less : Event → Event → Bool
event_less a b =
    if text_eq a.session_id b.session_id
    then (if eq64 a.sequence b.sequence
        then (if a.occurred_at == b.occurred_at
            then text_lt a.id b.id
            else ltb a.occurred_at b.occurred_at)
        else lt64 a.sequence b.sequence)
    else text_lt a.session_id b.session_id

-- The variables of the loop.
pub record State : Type 0 where
  pub seen : List Text
  pub runs : List (Text × Run)
  pub active : List (Text × Text)

abbrev pub no_state : State
no_state = record { seen = []; runs = []; active = [] }

unfoldable pub new_run : Event → EventPayload → Run
new_run event payload = record {
  id = event.run_id;
  session_id = event.session_id;
  project_id = payload.project_id;
  started_at = event.occurred_at;
  ended_at = none;
  last_activity_at = event.occurred_at;
  status = running;
  model = payload.model;
  reasoning_effort = payload.reasoning_effort;
  input_tokens = 0;
  cached_input_tokens = 0;
  output_tokens = 0;
  reasoning_tokens = 0;
  close_reason = [];
  projection_version = projection_version;
}

-- A write through a pointer; through nil the program makes none.
unfoldable pub write : Option Text → (Run → Run) → State → State
write none f s = s
write (some p) f s = record s { runs = modify p f s.runs }

-- `runs[id]` as a pointer.
unfoldable pub pointer : Text → State → Option Text
pointer id s = elim (get id s.runs) [ none ↦ none | some run ↦ some id ]

abbrev pub points_to : Option Text → Text → Bool
points_to none id = false
points_to (some p) id = text_eq p id

-- `case EventPromptSubmitted, EventRunStarted`: its first statement ...
unfoldable pub supersede : Event → State → State
unfolding write
supersede event s =
    let current = get event.session_id s.active in
    if points_to current event.run_id
    then s
    else write current
        (λ run. close_inferred_run run event.occurred_at superseded (codes "new_run")) s

-- ... the allocation of a run that is not there ...
unfoldable pub allocate : Option Run → Event → EventPayload → List (Text × Run) → List (Text × Run)
unfolding new_run
allocate none event payload runs = put event.run_id (new_run event payload) runs
allocate (some run) event payload runs = runs

-- ... and the assignment to `active`.
unfoldable pub open_run : Event → EventPayload → State → State
unfolding allocate
open_run event payload s = record s {
  runs = allocate (get event.run_id s.runs) event payload s.runs;
  active = put event.session_id event.run_id s.active;
}

unfoldable pub start_run : Event → EventPayload → State → State
unfolding supersede open_run
start_run event payload s =
    let s' = supersede event s in if text_eq event.run_id [] then s' else open_run event payload s'

unfoldable pub set_tokens : EventPayload → ℕ → Run → Run
unfolding touch
set_tokens payload at run =
    touch
      (record run {
        input_tokens = payload.input_tokens;
        cached_input_tokens = payload.cached_input_tokens;
        output_tokens = payload.output_tokens;
        reasoning_tokens = payload.reasoning_tokens;
      })
      at

-- `case EventTokenUsage`: the run of the event's id, if it names another than the current one.
unfoldable pub token_target : Event → State → Option Text → Option Text
unfolding pointer
token_target event s none = pointer event.run_id s
token_target event s (some p) =
    if not (text_eq event.run_id []) && not (text_eq p event.run_id)
    then pointer event.run_id s
    else some p

unfoldable pub use_tokens : Event → EventPayload → State → State
unfolding write token_target set_tokens
use_tokens event payload s =
    write (token_target event s (get event.session_id s.active))
      (set_tokens payload event.occurred_at) s

-- An explicit terminal event may correct an inferred closure.
unfoldable pub may_close : Run → Bool
may_close run = elim run.ended_at [
  | none ↦ true
  | some at ↦ elim run.status [ superseded ↦ true | abandoned ↦ true | _ ↦ false ]
]

unfoldable pub close_explicit : ℕ → RunStatus → Text → Run → Run
unfolding close_run may_close
close_explicit at status reason run = if may_close run then close_run run at status reason else run

unfoldable pub close_pointer : Option Text → Event → RunStatus → Text → State → State
unfolding close_explicit
close_pointer none event status reason s = s
close_pointer (some p) event status reason s = record s {
  runs = modify p (close_explicit event.occurred_at status reason) s.runs;
  active =
      if points_to (get event.session_id s.active) p
      then delete event.session_id s.active
      else s.active;
}

unfoldable pub close_matching : Event → RunStatus → Text → State → State
unfolding close_pointer pointer
close_matching event status reason s =
    close_pointer
      (if text_eq event.run_id [] then get event.session_id s.active else pointer event.run_id s)
      event status reason s

-- `case EventSessionClosed`
unfoldable pub close_current : Option Text → Event → State → State
close_current none event s = s
close_current (some p) event s = record s {
  runs =
      modify p
        (λ run. close_inferred_run run event.occurred_at interrupted (codes "session_closed"))
        s.runs;
  active = delete event.session_id s.active;
}

unfoldable pub close_session : Event → State → State
unfolding close_current
close_session event s = close_current (get event.session_id s.active) event s

unfoldable pub update_run : EventPayload → ℕ → Run → Run
unfolding touch
update_run payload at run =
    touch
      (record run {
        model = if text_eq payload.model [] then run.model else payload.model;
        reasoning_effort =
            if text_eq payload.reasoning_effort []
            then run.reasoning_effort
            else payload.reasoning_effort;
      })
      at

-- The `switch`; the last clause is `default`.
unfoldable pub dispatch : EventKind → Event → EventPayload → State → State
unfolding start_run use_tokens close_matching close_session update_run write
dispatch prompt_submitted event payload s = start_run event payload s
dispatch run_started event payload s = start_run event payload s
dispatch token_usage event payload s = use_tokens event payload s
dispatch run_completed event payload s =
    close_matching event completed (codes "explicit_completion") s
dispatch run_interrupted event payload s = close_matching event interrupted (codes "interrupted") s
dispatch run_failed event payload s = close_matching event failed (codes "failed") s
dispatch session_closed event payload s = close_session event s
dispatch _ event payload s =
    write (get event.session_id s.active) (update_run payload event.occurred_at) s

abbrev pub member : Text → List Text → Bool
member id = any (λ x. text_eq x id)

module _ (decode : Text → EventPayload) where
  -- One round of the loop.
  unfoldable pub step : State → Event → State
  unfolding dispatch
  step s event =
      if text_eq event.id [] || member event.id s.seen
      then s
      else dispatch event.kind event (decode event.payload) (record s { seen = event.id ∷ s.seen })

  unfoldable pub run_events : State → List Event → State
  unfolding step
  run_events s [] = s
  run_events s (event ∷ rest) = run_events (step s event) rest

  -- Go's map has no order and the last sort is not stable: runs that start at one instant may come
  -- in any order, of which this is one.
  unfoldable pub project : List Event → List Run
  unfolding run_events event_less
  project events =
      sort_by (λ a b. ltb a.started_at b.started_at)
        (values (run_events no_state (sort_by event_less events)).runs)

-- One round of the loop of `ReconcileOpen`.
unfoldable pub reconcile : ℕ → ℕ → ℕ → Run → Run
unfolding close_run
reconcile now grace maximum run =
    let deadline = run.last_activity_at + grace in
    let maximum_deadline = run.started_at + maximum in
    let deadline' = if ltb maximum_deadline deadline then maximum_deadline else deadline in
    elim run.ended_at [
      | some at ↦ run
      | none ↦
          if ltb now deadline'
          then run
          else close_run run deadline' abandoned (codes "lease_expired")
    ]

unfoldable pub reconcile_open : List Run → ℕ → ℕ → ℕ → List Run
unfolding reconcile
reconcile_open runs now grace maximum = map (reconcile now grace maximum) runs
