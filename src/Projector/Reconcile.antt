-- ===== src/Projector/Reconcile.antt =====
-- Closing: explicit and inferred closures, and `ReconcileOpen`.
use codex_tempo.Common.{
  ℕ, ◌+◌, ◌*◌, ◌≤◌, ◌<◌, ◌≡◌, ◌≢◌, refl, ◌∙◌, ◌⊎◌, true, none, some, List, [], ◌∷◌, arith, ltb,
  if◌then◌else◌, min,
}
use codex_tempo.Common.Text.{Text, codes, text_eq_iff, text_eq_refl}
use codex_tempo.Common.Assoc.{get, put, get-put, get-modify}
use codex_tempo.Domain.{RunStatus, completed, interrupted, failed, abandoned, Event, Run}
use codex_tempo.Projector.{
  EventPayload, inferred_closure_grace, close_inferred_run, State, supersede, open_run, start_run,
  may_close, close_explicit, close_session, reconcile, reconcile_open,
}
use codex_tempo.Projector.Runs.{IsConsistent}

-- The status of an explicit terminal event.
abbrev pub IsTerminal : RunStatus → Type 0
IsTerminal completed = Unit
IsTerminal interrupted = Unit
IsTerminal failed = Unit
IsTerminal _ = ⊥

-- Once an explicit terminal event has closed a run, a further one leaves it as it is; a run that is
-- open, superseded or abandoned takes the event's status, and its time unless that precedes the start.
pub close_explicit_once :
    (run : Run) (at later : ℕ) (status other : RunStatus) (reason why : Text)
    → IsTerminal status
    → may_close run ≡ true
    → ((close_explicit at status reason run).status ≡ status)
      × ((close_explicit at status reason run).ended_at
          ≡ some (if ltb at run.started_at then run.started_at else at))
      × (close_explicit later other why (close_explicit at status reason run)
          ≡ close_explicit at status reason run)
unfolding close_explicit
close_explicit_once run at later completed other reason why t h =
    (ground arith, ground arith, ground arith)
close_explicit_once run at later interrupted other reason why t h =
    (ground arith, ground arith, ground arith)
close_explicit_once run at later failed other reason why t h =
    (ground arith, ground arith, ground arith)
close_explicit_once run at later _ other reason why t h = absurd t

-- An inferred closure credits a run with at most 90 seconds beyond its last activity, and with no
-- time after the event that closes it, unless the run starts later.
pub close_inferred_run_bounds :
    (run : Run) (at end : ℕ) (status : RunStatus) (reason : Text)
    → IsConsistent run
    → (close_inferred_run run at status reason).ended_at ≡ some end
    → (run.started_at ≤ end)
      × (end ≤ run.last_activity_at + inferred_closure_grace)
      × ((end ≤ at) ⊎ (end ≡ run.started_at))
unfolding close_inferred_run
close_inferred_run_bounds run at end status reason c h =
    (ground (arith, c.starts), ground (arith, c.starts), ground (arith, c.starts))

-- The instant at which `ReconcileOpen` gives a run up.
abbrev pub deadline : ℕ → ℕ → Run → ℕ
deadline grace maximum run = min (run.last_activity_at + grace) (run.started_at + maximum)

-- `ReconcileOpen` leaves a run that has ended, and an open one before its deadline; from then on it
-- closes the open run as abandoned, at the deadline.
pub reconcile_lem :
    (run : Run) (now grace maximum : ℕ)
    → IsConsistent run
    → ((at : ℕ) → run.ended_at ≡ some at → reconcile now grace maximum run ≡ run)
      × (run.ended_at ≡ none
          → now < deadline grace maximum run
          → reconcile now grace maximum run ≡ run)
      × (run.ended_at ≡ none
          → deadline grace maximum run ≤ now
          → reconcile now grace maximum run ≡ record run {
            ended_at = some (deadline grace maximum run);
            last_activity_at = deadline grace maximum run;
            status = abandoned;
            close_reason = codes "lease_expired";
          })
unfolding reconcile
reconcile_lem run now grace maximum c =
    (λ at e. ground arith, λ e h. ground arith, λ e h. ground (arith, c.starts))

reconcile_later :
    (run : Run) (now later grace maximum : ℕ)
    → now ≤ later
    → reconcile later grace maximum (reconcile now grace maximum run)
      ≡ reconcile later grace maximum run
unfolding reconcile
reconcile_later run now later grace maximum h = ground arith

-- Reconciling at one time and again later gives what reconciling at the later time alone gives.
pub reconcile_open_later :
    (runs : List Run) (now later grace maximum : ℕ)
    → now ≤ later
    → reconcile_open (reconcile_open runs now grace maximum) later grace maximum
      ≡ reconcile_open runs later grace maximum
unfolding reconcile_open
reconcile_open_later [] now later grace maximum h = refl
reconcile_open_later (run ∷ rest) now later grace maximum h = cc (
  reconcile_later run now later grace maximum h,
  reconcile_open_later rest now later grace maximum h,
)

supersede_idle :
    (start : Event) (s : State) → get start.session_id s.active ≡ none → supersede start s ≡ s
unfolding supersede
supersede_idle start s idle = rw idle

start_run_known :
    (start : Event) (payload : EventPayload) (s : State) (run : Run)
    → get start.run_id s.runs ≡ some run
    → start.run_id ≢ []
    → get start.session_id s.active ≡ none
    → start_run start payload s ≡ record s { active = put start.session_id start.run_id s.active }
unfolding start_run
start_run_known start payload s run found named idle =
    rw (supersede_idle start s idle)
      (ground (arith, text_eq_iff start.run_id [], open_run_known start payload s run found))
  where
    open_run_known :
        (start : Event) (payload : EventPayload) (s : State) (run : Run)
        → get start.run_id s.runs ≡ some run
        → open_run start payload s
          ≡ record s { active = put start.session_id start.run_id s.active }
    open_run_known start payload s run found = rw found

-- The end that an inferred closure gives a run: the time of the event that closes it, at most 90 seconds
-- after the last activity, and not before the start.
abbrev pub inferred_end : ℕ → Run → ℕ
inferred_end at run =
    let end = min at (run.last_activity_at + 90 * 1000000000) in
    if ltb end run.started_at then run.started_at else end

-- An inferred closure does not ask whether the run has ended.
close_inferred_run_lem :
    (run : Run) (at : ℕ) (status : RunStatus) (reason : Text)
    → close_inferred_run run at status reason ≡ record run {
      ended_at = some (inferred_end at run);
      last_activity_at = inferred_end at run;
      status = status;
      close_reason = reason;
    }
unfolding close_inferred_run
close_inferred_run_lem run at status reason = ground arith

-- When a session with no current run starts a run that is known already and is then closed, that run
-- becomes interrupted by `session_closed`, with the end of an inferred closure in place of the one it
-- had, whatever its status was: so also when an explicit event had completed it.
pub restart-overwrites :
    (start close : Event) (payload : EventPayload) (s : State) (run : Run)
    → get start.run_id s.runs ≡ some run
    → start.run_id ≢ []
    → get start.session_id s.active ≡ none
    → close.session_id ≡ start.session_id
    → get start.run_id (close_session close (start_run start payload s)).runs
      ≡ some (record run {
        ended_at = some (inferred_end close.occurred_at run);
        last_activity_at = inferred_end close.occurred_at run;
        status = interrupted;
        close_reason = codes "session_closed";
      })
unfolding close_session
restart-overwrites start close payload s run found named idle same =
    rw
      (
        start_run_known start payload s run found named idle,
        same,
        ← close_inferred_run_lem run close.occurred_at interrupted (codes "session_closed"),
      )
      (rw
        (
          get-put start.session_id start.session_id start.run_id s.active,
          text_eq_refl start.session_id,
        )
        (get-modify start.run_id start.run_id _ s.runs ∙ rw (text_eq_refl start.run_id, found)))
