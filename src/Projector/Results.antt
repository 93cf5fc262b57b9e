-- ===== src/Projector/Results.antt =====
-- The runs that `Project` returns are consistent, and no two have one id.
use codex_tempo.Common.{
  ◌≤◌, ◌≢◌, refl, sym, ◌∙◌, List, [], ◌∷◌, arith, ltb, if◌then◌else◌, All, All-imp, count,
}
use codex_tempo.Common.Text.{Text, text_eq}
use codex_tempo.Common.Assoc.{All-values, count-values, values}
use codex_tempo.Common.Sort.{sort_by, All-sort_by, total-sort_by}
use codex_tempo.Domain.{Event, Run}
use codex_tempo.Projector.{EventPayload, event_less, no_state, new_run, run_events, project}
use codex_tempo.Projector.Runs.{
  IsConsistent, IsEntry, new_run-IsConsistent, close_inferred_run-IsEntry, set_tokens-IsEntry,
  update_run-IsEntry, close_explicit-IsEntry,
}
use codex_tempo.Projector.Invariant.{IsKept, StartsWell, project_runs}

entry_kept : IsKept IsEntry
entry_kept = record {
  by_inference = close_inferred_run-IsEntry;
  by_close = close_explicit-IsEntry;
  by_tokens = set_tokens-IsEntry;
  by_update = update_run-IsEntry;
}

new_run-IsEntry :
    (event : Event) (payload : EventPayload)
    → event.run_id ≢ []
    → IsEntry event.run_id (new_run event payload)
new_run-IsEntry event payload h = record {
  keyed = unfold new_run in refl;
  named = h;
  consistent = new_run-IsConsistent event payload;
}

starts_well :
    (decode : Text → EventPayload) (events : List Event)
    → All (λ event. StartsWell IsEntry entry_kept event.kind event (decode event.payload)) events
starts_well decode [] = tt
starts_well decode (event ∷ rest) =
    (λ p h. new_run-IsEntry event (decode event.payload) h, starts_well decode rest)

-- Every run that `Project` returns is consistent: it starts no later than its last activity; if it
-- has ended, the end lies between the two, its status is not `running` and it has a close reason;
-- and if it has not, its status is `running` and it has none.
pub project-IsConsistent :
    (decode : Text → EventPayload) (events : List Event) → All IsConsistent (project decode events)
unfolding project
project-IsConsistent decode events =
    let (entries, _) = project_runs IsEntry entry_kept decode events (starts_well decode events) in
    All-sort_by _ IsConsistent _
      (All-values IsEntry IsConsistent _ (λ j run e. e.consistent) entries)

-- `Project` returns at most one run with a given id, and none with the empty one.
pub project_ids :
    (decode : Text → EventPayload) (events : List Event)
    → ((id : Text) → count (λ run. text_eq run.id id) (project decode events) ≤ 1)
      × All (λ run. run.id ≢ []) (project decode events)
unfolding project
project_ids decode events =
    let (entries, unique) =
      project_runs IsEntry entry_kept decode events (starts_well decode events) in
    (
      λ id. ground (
        arith,
        total-sort_by (λ (a b : Run). ltb a.started_at b.started_at)
            (λ (run : Run). if text_eq run.id id then 1 else 0)
            (values (run_events decode no_state (sort_by event_less events)).runs),
        count-values (λ (run : Run). run.id) id
            (run_events decode no_state (sort_by event_less events)).runs
            (All-imp (λ e h. h.keyed) _ entries) unique,
      ),
      All-sort_by _ (λ (run : Run). run.id ≢ []) _
          (All-values IsEntry (λ (run : Run). run.id ≢ []) _
            (λ j run e q. e.named (sym e.keyed ∙ q)) entries),
    )
