-- ===== src/Projector/Origin.antt =====
-- Every run comes from an event that starts it.
use codex_tempo.Common.{◌≡◌, refl, true, List, [], ◌∷◌, arith, All}
use codex_tempo.Common.Text.{Text}
use codex_tempo.Common.Assoc.{All-values}
use codex_tempo.Common.Sort.{All-sort_by}
use codex_tempo.Domain.{Event, Run}
use codex_tempo.Projector.{
  EventPayload, close_inferred_run, new_run, set_tokens, close_explicit, update_run, project,
}
use mathlib.Core.List.{Memᴰ}
use codex_tempo.Projector.Invariant.{IsKept, StartsWell, is_start, project_runs}

-- The event is one of those given, starts a run, and gave this run its id, session, start and project.
pub record IsOrigin (decode : Text → EventPayload) (events : List Event) (run : Run) (event : Event)
    : Type 0 where
  pub given : Memᴰ event events
  pub starts : is_start event.kind ≡ true
  pub id : run.id ≡ event.run_id
  pub session : run.session_id ≡ event.session_id
  pub time : run.started_at ≡ event.occurred_at
  pub project : run.project_id ≡ (decode event.payload).project_id

module _ (decode : Text → EventPayload) (events : List Event) where
  abbrev HasOrigin : Text → Run → Type 0
  HasOrigin key run = (event : Event) × IsOrigin decode events run event

  origin_kept : IsKept HasOrigin
  origin_kept = record {
    by_inference = λ key run at status reason h k (event, o). (
      event,
      record {
        given = o.given;
        starts = o.starts;
        id = unfold close_inferred_run in o.id;
        session = unfold close_inferred_run in o.session;
        time = unfold close_inferred_run in o.time;
        project = unfold close_inferred_run in o.project;
      },
    );
    by_close = λ key run at status reason h k (event, o). (
      event,
      record {
        given = o.given;
        starts = o.starts;
        id = unfold close_explicit in ground (arith, o.id);
        session = unfold close_explicit in ground (arith, o.session);
        time = unfold close_explicit in ground (arith, o.time);
        project = unfold close_explicit in ground (arith, o.project);
      },
    );
    by_tokens = λ key run payload at (event, o). (
      event,
      record {
        given = o.given;
        starts = o.starts;
        id = unfold set_tokens in ground (arith, o.id);
        session = unfold set_tokens in ground (arith, o.session);
        time = unfold set_tokens in ground (arith, o.time);
        project = unfold set_tokens in ground (arith, o.project);
      },
    );
    by_update = λ key run payload at (event, o). (
      event,
      record {
        given = o.given;
        starts = o.starts;
        id = unfold update_run in ground (arith, o.id);
        session = unfold update_run in ground (arith, o.session);
        time = unfold update_run in ground (arith, o.time);
        project = unfold update_run in ground (arith, o.project);
      },
    );
  }

  starts_here :
      (l : List Event)
      → ((event : Event) → Memᴰ event l → Memᴰ event events)
      → All (λ event. StartsWell HasOrigin origin_kept event.kind event (decode event.payload)) l
  starts_here [] h = tt
  starts_here (event ∷ rest) h = (
    λ p k. (
      event,
      record {
        given = h event (Memᴰ.head refl);
        starts = p;
        id = unfold new_run in refl;
        session = unfold new_run in refl;
        time = unfold new_run in refl;
        project = unfold new_run in refl;
      },
    ),
    starts_here rest (λ e m. h e (Memᴰ.tail m)),
  )

-- Every run that `Project` returns was started by one of the events, a submitted prompt or a started
-- run, and has that event's run id, session and time and its payload's project.
pub project-IsOrigin :
    (decode : Text → EventPayload) (events : List Event)
    → All (λ run. (event : Event) × IsOrigin decode events run event) (project decode events)
unfolding project
project-IsOrigin decode events =
    All-sort_by _ (λ (run : Run). (event : Event) × IsOrigin decode events run event) _
      (All-values (HasOrigin decode events) _ _ (λ j run o. o)
        (project_runs (HasOrigin decode events) (origin_kept decode events) decode events
          (starts_here decode events events (λ e m. m))).0)
