-- ===== src/Examples/Projections.antt =====
-- A session with a prompt, token counts and a completion.
use codex_tempo.Common.{ℕ, ◌≤◌, ◌≡◌, ◌≢◌, refl, some, none, List, [], ◌∷◌, arith, count, All}
use mathlib.Core.List.{Memᴰ, Permᴰ, Pairwise, Pairwise-pair}
use codex_tempo.Common.Text.{Text, codes, text_eq, text_lt}
use codex_tempo.Common.Assoc.{get, put, values, modify, delete}
use codex_tempo.Common.Sort.{sort_by}
use codex_tempo.Domain.{
  EventKind, run_started, run_completed, token_usage, session_closed, completed, interrupted,
  running, Event, Run,
}
use codex_tempo.Projector.{EventPayload, State, start_run, close_session, project, reconcile_open}
use codex_tempo.Projector.Order.{project-perm}
use codex_tempo.Projector.Replay.{project_again}
use codex_tempo.Projector.Runs.{IsConsistent}
use codex_tempo.Projector.Results.{project-IsConsistent, project_ids}
use codex_tempo.Projector.Origin.{IsOrigin, project-IsOrigin}
use codex_tempo.Projector.Reconcile.{reconcile_open_later, restart-overwrites}

-- A decoder that reads every payload as one project with seven input tokens.
abbrev decode : Text → EventPayload
decode text = record {
  project_id = codes "p";
  model = [];
  reasoning_effort = [];
  input_tokens = 7;
  cached_input_tokens = 0;
  output_tokens = 0;
  reasoning_tokens = 0;
}

abbrev event : Text → ℕ → EventKind → Event
event id at kind = record {
  id = id;
  machine_id = codes "m";
  session_id = codes "s";
  run_id = codes "r";
  sequence = at;
  occurred_at = at;
  kind = kind;
  source = codes "transcript";
  payload = [];
}

abbrev start : Event
start = event (1 ∷ []) 10 run_started

abbrev usage : Event
usage = event (2 ∷ []) 20 token_usage

abbrev finish : Event
finish = event (3 ∷ []) 30 run_completed

abbrev events : List Event
events = finish ∷ start ∷ usage ∷ []

abbrev run : Run
run = record {
  id = codes "r";
  session_id = codes "s";
  project_id = codes "p";
  started_at = 10;
  ended_at = some 30;
  last_activity_at = 30;
  status = completed;
  model = [];
  reasoning_effort = [];
  input_tokens = 7;
  cached_input_tokens = 0;
  output_tokens = 0;
  reasoning_tokens = 0;
  close_reason = codes "explicit_completion";
  projection_version = 1;
}

project-events : project decode events ≡ run ∷ []
unfolding project sort_by text_eq text_lt get put values modify delete
project-events = refl

ids_differ : Pairwise (λ (a b : Event). a.id ≢ b.id) (start ∷ finish ∷ [])
ids_differ = (Pairwise-pair (λ a b. hlevel)).1 (λ e. cc)

project-perm_example : project decode (start ∷ finish ∷ []) ≡ project decode (finish ∷ start ∷ [])
project-perm_example = project-perm decode (Permᴰ.swap refl refl) ids_differ

project_again_example : project decode (start ∷ events) ≡ project decode events
project_again_example =
    project_again decode start events (Memᴰ.tail (Memᴰ.head refl))
      (λ e. cc, (λ e. refl, (λ e. cc, tt)))

project-IsConsistent_example : All IsConsistent (project decode events)
project-IsConsistent_example = project-IsConsistent decode events

project_ids_example :
    ((id : Text) → count (λ (r : Run). text_eq r.id id) (project decode events) ≤ 1)
    × All (λ (r : Run). r.id ≢ []) (project decode events)
project_ids_example = project_ids decode events

project-IsOrigin_example :
    All (λ (r : Run). (e : Event) × IsOrigin decode events r e) (project decode events)
project-IsOrigin_example = project-IsOrigin decode events

-- The run while it is open, active last at 20.
abbrev open_run : Run
open_run = record run {
  ended_at = none;
  last_activity_at = 20;
  status = running;
  close_reason = [];
}

open_run-IsConsistent : IsConsistent open_run
open_run-IsConsistent = record {
  starts = omega arith;
  ends = λ at e. cc;
  open_status = λ e. (refl, refl);
  closed_status = λ at e. cc;
}

reconcile_open_later_example :
    reconcile_open (reconcile_open (open_run ∷ []) 50 90 1000) 200 90 1000
    ≡ reconcile_open (open_run ∷ []) 200 90 1000
reconcile_open_later_example = reconcile_open_later (open_run ∷ []) 50 200 90 1000 (omega arith)

-- The completed run in the map, and no current run.
abbrev done : State
done = record { seen = []; runs = (codes "r", run) ∷ []; active = [] }

abbrev closing : Event
closing = event (codes "4") 500 session_closed

restart-overwrites_example :
    get (codes "r") (close_session closing (start_run start (decode []) done)).runs
    ≡ some (record run {
      ended_at = some 500;
      last_activity_at = 500;
      status = interrupted;
      close_reason = codes "session_closed";
    })
restart-overwrites_example =
    restart-overwrites start closing (decode []) done run (unfold get text_eq in refl) (λ e. cc)
      (unfold get in refl) refl
