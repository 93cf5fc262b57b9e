-- ===== src/Cli/Triple.antt =====
-- apps/cli/main.go with internal/projector/projector.go: the three events that the commands make of an
-- interval of work, and the run that is projected from them.
use codex_tempo.Common.{ℕ, ◌≤◌, ◌≡◌, ◌≢◌, refl, false, some, List, [], ◌∷◌, arith, ltb}
use codex_tempo.Common.Text.{Text, codes, text_eq_refl, text_eq_iff}
use codex_tempo.Common.Assoc.{get, put, delete, modify, values}
use codex_tempo.Common.Sort.{sort_by, insert_by}
use codex_tempo.Domain.{Event, session_started, run_started, run_completed, Run, completed}
use codex_tempo.Projector.{
  EventPayload, event_less, State, no_state, new_run, step, run_events, project, dispatch,
  start_run, supersede, open_run, allocate, write, close_matching, close_pointer, close_explicit,
  may_close, close_run, pointer,
}

-- The events of an interval of work, from either source.
module _ (a b c machine session run source payload : Text) (start end : ℕ) where
  abbrev pub opening : Event
  opening = record {
    id = a;
    machine_id = machine;
    session_id = session;
    run_id = [];
    sequence = 1;
    occurred_at = start;
    kind = session_started;
    source = source;
    payload = payload;
  }

  abbrev pub starting : Event
  starting = record {
    id = b;
    machine_id = machine;
    session_id = session;
    run_id = run;
    sequence = 2;
    occurred_at = start;
    kind = run_started;
    source = source;
    payload = payload;
  }

  abbrev pub ending : Event
  ending = record {
    id = c;
    machine_id = machine;
    session_id = session;
    run_id = run;
    sequence = 3;
    occurred_at = end;
    kind = run_completed;
    source = source;
    payload = codes "{}";
  }

  unfoldable pub triple : List Event
  triple = opening ∷ starting ∷ ending ∷ []

  starting-later : event_less starting opening ≡ false
  unfolding event_less
  starting-later = rw (event_less, text_eq_refl session) refl

  ending-later : event_less ending starting ≡ false
  unfolding event_less
  ending-later = rw (event_less, text_eq_refl session) refl

  sort-triple : sort_by event_less triple ≡ triple
  unfolding triple sort_by insert_by
  sort-triple = rw (ending-later, starting-later) refl

  module _ (decode : Text → EventPayload) (named : run ≢ []) (a_named : a ≢ []) (b_named : b ≢ [])
      (c_named : c ≢ []) (ab : a ≢ b) (ac : a ≢ c) (bc : b ≢ c) (ordered : start ≤ end) where
    unfoldable pub begun : Run
    begun = new_run starting (decode payload)

    after_opening : State
    after_opening = record { seen = a ∷ []; runs = []; active = [] }

    after_starting : State
    after_starting = record {
      seen = b ∷ a ∷ [];
      runs = (run, begun) ∷ [];
      active = (session, run) ∷ [];
    }

    first : step decode no_state opening ≡ after_opening
    unfolding step dispatch write get after_opening
    first = ground (arith, a_named, text_eq_iff a [])

    second : step decode after_opening starting ≡ after_starting
    unfolding step dispatch start_run supersede open_run allocate write get put after_opening
        after_starting begun
    second =
        ground (arith, b_named, ab, text_eq_iff b [], text_eq_iff a b, named, text_eq_iff run [])

    unfoldable pub finished : Run
    finished = record begun {
      ended_at = some end;
      last_activity_at = end;
      status = completed;
      close_reason = codes "explicit_completion";
    }

    closes : close_explicit end completed (codes "explicit_completion") begun ≡ finished
    unfolding close_explicit may_close close_run begun new_run finished
    closes = ground (arith, ordered)

    after_ending : State
    after_ending = record { seen = c ∷ b ∷ a ∷ []; runs = (run, finished) ∷ []; active = [] }

    third : step decode after_starting ending ≡ after_ending
    unfolding step dispatch close_matching close_pointer pointer get modify delete after_starting
        after_ending
    third = ground (
      arith,
      closes,
      c_named,
      bc,
      ac,
      text_eq_iff c [],
      text_eq_iff b c,
      text_eq_iff a c,
      named,
      text_eq_iff run [],
      text_eq_refl run,
      text_eq_refl session,
    )

    run-triple : run_events decode no_state triple ≡ after_ending
    unfolding run_events triple
    run-triple = rw (first, second, third) refl

    sort-one :
        sort_by (λ (x y : Run). ltb x.started_at y.started_at) (finished ∷ []) ≡ finished ∷ []
    unfolding sort_by insert_by
    sort-one = refl

    ended-values : values after_ending.runs ≡ finished ∷ []
    unfolding values after_ending
    ended-values = refl

    pub project-triple : project decode triple ≡ finished ∷ []
    unfolding project
    project-triple = rw (sort-triple, run-triple, ended-values) sort-one
