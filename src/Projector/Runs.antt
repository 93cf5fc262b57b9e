-- ===== src/Projector/Runs.antt =====
-- What holds of every run that `Project` returns.
use codex_tempo.Common.{ℕ, ◌≤◌, ◌≡◌, ◌≢◌, refl, inl, inr, none, some, [], arith, Bool-cases}
use codex_tempo.Common.Text.{Text}
use codex_tempo.Domain.{RunStatus, running, Event, Run}
use codex_tempo.Projector.{
  EventPayload, close_run, close_inferred_run, touch, new_run, set_tokens, may_close,
  close_explicit, update_run,
}

-- A run starts before its last activity and, once it has ended, ends between the two; it has ended
-- exactly when its status is not `running`, and exactly then there is a reason.
pub record IsConsistent (run : Run) : Type 0 where
  pub starts : run.started_at ≤ run.last_activity_at
  pub ends : (at : ℕ) → run.ended_at ≡ some at → (run.started_at ≤ at) × (at ≤ run.last_activity_at)
  pub open_status : run.ended_at ≡ none → (run.status ≡ running) × (run.close_reason ≡ [])
  pub closed_status :
      (at : ℕ) → run.ended_at ≡ some at → (run.status ≢ running) × (run.close_reason ≢ [])

close_run-IsConsistent :
    (run : Run) (at : ℕ) (status : RunStatus) (reason : Text)
    → status ≢ running
    → reason ≢ []
    → IsConsistent (close_run run at status reason)
unfolding close_run
close_run-IsConsistent run at status reason h k = record {
  starts = ground arith;
  ends = λ t e. ground arith;
  open_status = λ e. ground arith;
  closed_status = λ t e. (h, k);
}

touch-IsConsistent : (run : Run) (at : ℕ) → IsConsistent run → IsConsistent (touch run at)
unfolding touch
touch-IsConsistent run at c = record {
  starts = ground (arith, c.starts);
  ends = λ t e. ground (arith, c.ends t);
  open_status = λ e. ground (arith, c.open_status);
  closed_status = λ t e. ground (arith, c.closed_status t);
}

pub new_run-IsConsistent :
    (event : Event) (payload : EventPayload) → IsConsistent (new_run event payload)
unfolding new_run
new_run-IsConsistent event payload = record {
  starts = omega arith;
  ends = λ t e. cc;
  open_status = λ e. (refl, refl);
  closed_status = λ t e. cc;
}

-- What an entry of the map `runs` satisfies.
pub record IsEntry (key : Text) (run : Run) : Type 0 where
  pub keyed : run.id ≡ key
  pub named : key ≢ []
  pub consistent : IsConsistent run

pub close_inferred_run-IsEntry :
    (key : Text) (run : Run) (at : ℕ) (status : RunStatus) (reason : Text)
    → status ≢ running
    → reason ≢ []
    → IsEntry key run
    → IsEntry key (close_inferred_run run at status reason)
close_inferred_run-IsEntry key run at status reason h k e = record {
  keyed = unfold close_inferred_run in e.keyed;
  named = e.named;
  consistent = unfold close_inferred_run in close_run-IsConsistent run _ status reason h k;
}

pub set_tokens-IsEntry :
    (key : Text) (run : Run) (payload : EventPayload) (at : ℕ)
    → IsEntry key run
    → IsEntry key (set_tokens payload at run)
set_tokens-IsEntry key run payload at e = record {
  keyed = unfold set_tokens in ground (arith, e.keyed);
  named = e.named;
  consistent =
      unfold set_tokens in
      touch-IsConsistent _ at (record {
        starts = e.consistent.starts;
        ends = e.consistent.ends;
        open_status = e.consistent.open_status;
        closed_status = e.consistent.closed_status;
      });
}

pub update_run-IsEntry :
    (key : Text) (run : Run) (payload : EventPayload) (at : ℕ)
    → IsEntry key run
    → IsEntry key (update_run payload at run)
update_run-IsEntry key run payload at e = record {
  keyed = unfold update_run in ground (arith, e.keyed);
  named = e.named;
  consistent =
      unfold update_run in
      touch-IsConsistent _ at (record {
        starts = e.consistent.starts;
        ends = e.consistent.ends;
        open_status = e.consistent.open_status;
        closed_status = e.consistent.closed_status;
      });
}

pub close_explicit-IsEntry :
    (key : Text) (run : Run) (at : ℕ) (status : RunStatus) (reason : Text)
    → status ≢ running
    → reason ≢ []
    → IsEntry key run
    → IsEntry key (close_explicit at status reason run)
unfolding close_explicit
close_explicit-IsEntry key run at status reason h k e = elim (Bool-cases (may_close run)) [
  | inl p ↦ rw p (record {
    keyed = unfold close_run in e.keyed;
    named = e.named;
    consistent = close_run-IsConsistent run at status reason h k;
  })
  | inr p ↦ rw p e
]
