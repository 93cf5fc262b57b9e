-- ===== src/Examples/Deliveries.antt =====
-- Concrete stores, servers and transcripts, to which the theorems of the agent are applied.
use codex_tempo.Common.{
  ℕ, ◌+◌, ◌*◌, ◌≡◌, ◌≤◌, ◌<◌, refl, false, not, ◌&&◌, Option, none, some, List, [], ◌∷◌, map, arith,
  All, filter, count, min,
}
use codex_tempo.Common.Text.{text_eq}
use codex_tempo.Common.Sort.{sort_by, insert_by}
use codex_tempo.Domain.{Event, run_started}
use codex_tempo.Localdb.{Cursor, HookHeartbeat, Row, Store}
use codex_tempo.Localdb.Stamp.{second}
use codex_tempo.Localdb.Queue.{commit_parsed, is_pending, pending_events, no_cursor}
use codex_tempo.Localdb.Hooks.{Chain, advance_all-intervals}
use codex_tempo.Localdb.Beats.{advance_all}
use codex_tempo.Localdb.Commit.{commit_parsed_again}
use codex_tempo.Localdb.Reach.{no_rows, parsed, new, after, IsSound, reachable-IsSound}
use codex_tempo.Localdb.Queue.{events_between}
use codex_tempo.Localdb.Range.{events_between-IsWhole}
use codex_tempo.Common.{◌/◌}
use codex_tempo.Sync.{
  Client, IngestResponse, Request, Response, sync_once, batch_size, run, loop_interval, next_delay,
  is_rejected, Round,
}
use codex_tempo.Sync.Delivery.{sends, Answers, sync_once_keeps, sync_once-pending}
use codex_tempo.Sync.Rounds.{rounds, AcceptsAll, rounds_done, RejectsBatch, run-rejected}
use codex_tempo.Cli.Import.{drained, drain}
use codex_tempo.Cli.Drained.{drain_done}
use codex_tempo.Sync.Delay.{delay_limit, run-delays}

abbrev event_one : Event
event_one = record {
  id = 1 ∷ [];
  machine_id = 7 ∷ [];
  session_id = 8 ∷ [];
  run_id = 9 ∷ [];
  sequence = 1;
  occurred_at = 5;
  kind = run_started;
  source = 6 ∷ [];
  payload = 123 ∷ 125 ∷ [];
}

abbrev transcript : Cursor
transcript = record (no_cursor (4 ∷ [])) { byte_offset = 20 }

abbrev one_event : Store
one_event = commit_parsed transcript (event_one ∷ []) no_rows

commit_parsed_again_example :
    commit_parsed transcript (event_one ∷ []) (commit_parsed transcript (event_one ∷ []) no_rows)
    ≡ commit_parsed transcript (event_one ∷ []) no_rows
commit_parsed_again_example = commit_parsed_again transcript (event_one ∷ []) no_rows

reachable-IsSound_example : IsSound one_event
reachable-IsSound_example =
    reachable-IsSound one_event
      (after no_rows one_event new (parsed transcript (event_one ∷ []) no_rows))

abbrev heartbeat : ℕ → HookHeartbeat
heartbeat at = record {
  session_id = 8 ∷ [];
  project_id = [];
  project_name = [];
  project_fingerprint = [];
  remote_hash = [];
  worktree_name = [];
  worktree_path = [];
  model = [];
  is_worktree = false;
  occurred_at = at;
}

abbrev hooks : List HookHeartbeat
hooks = heartbeat 10 ∷ heartbeat 15 ∷ heartbeat 12 ∷ heartbeat 60 ∷ heartbeat 70 ∷ []

advance_all-intervals_example :
    All
      (λ i. (i.started_at < i.ended_at) × (i.ended_at ≤ i.started_at + 20))
      (advance_all hooks 20 no_rows)
    × Chain (advance_all hooks 20 no_rows)
advance_all-intervals_example = advance_all-intervals hooks 20 no_rows tt (omega arith)

abbrev client : Client
client = record { server_url = 104 ∷ []; token = []; machine_id = 7 ∷ [] }

abbrev answer : IngestResponse → Response
answer result = record { status_code = 200; decoded = some result }

abbrev accepting : Request → Option Response
accepting request = some (answer (record { accepted = 0; duplicates = 0; rejected = [] }))

-- Rejects the event of the store below.
abbrev rejection : IngestResponse
rejection = record {
  accepted = 0;
  duplicates = 0;
  rejected = record { id = 1 ∷ []; reason = [] } ∷ [];
}

abbrev rejecting : Request → Option Response
rejecting request = some (answer rejection)

abbrev waiting : Store
waiting = record no_rows {
  events = record { event = event_one; sync_state = codex_tempo.Localdb.pending; error = [] } ∷ [];
}

rejects_answer : (request : Request) → Answers rejecting request rejection
rejects_answer request = record {
  response = answer rejection;
  posted = refl;
  success = refl;
  body = refl;
}

sync_once_keeps_example :
    (map (λ row. row.event) (sync_once rejecting client waiting).1.events ≡ event_one ∷ [])
    × ((sync_once rejecting client waiting).0 ≡ false
        → (sync_once rejecting client waiting).1 ≡ waiting)
sync_once_keeps_example = sync_once_keeps rejecting client waiting

configured : text_eq client.server_url [] ≡ false
unfolding text_eq
configured = refl

sync_once-pending_example :
    filter is_pending (sync_once rejecting client waiting).1.events
    ≡ filter
        (λ row.
          is_pending row
          && not (
              sends (pending_events batch_size waiting) row.event.id
              && not (is_rejected rejection row.event.id)))
        waiting.events
sync_once-pending_example =
    sync_once-pending rejecting client rejection waiting configured (rejects_answer _)

accepts_all : AcceptsAll accepting client
accepts_all events = (
  record { accepted = 0; duplicates = 0; rejected = [] },
  record {
    response = answer (record { accepted = 0; duplicates = 0; rejected = [] });
    posted = refl;
    success = refl;
    body = refl;
  },
  refl,
)

rounds_done_example : count is_pending (rounds accepting client 3 waiting).events ≡ 0
rounds_done_example = rounds_done accepting client configured accepts_all 3 waiting (omega arith)

rejects_batch : RejectsBatch rejecting client waiting
unfolding pending_events text_eq sort_by insert_by
rejects_batch = record {
  result = rejection;
  answer = rejects_answer _;
  rejects = (refl, tt);
  some_pending = omega arith;
}

abbrev rejecting_round : ℕ → Round
rejecting_round jitter = record { post = rejecting; jitter = jitter }

run-rejected_example :
    run client 0 (rejecting_round 3 ∷ rejecting_round 4 ∷ []) waiting ≡ (0 ∷ 0 ∷ 0 ∷ [], waiting)
run-rejected_example =
    run-rejected client 0 (rejecting_round 3 ∷ rejecting_round 4 ∷ []) waiting configured
      (rejects_batch, (rejects_batch, tt))

-- The server is out of reach in the first round, and takes the same request in the second.
abbrev recovering : List Round
recovering =
    record { post = λ request. none; jitter = 3 } ∷ record { post = accepting; jitter = 4 } ∷ []

run-delays_example :
    All (λ d. d ≤ delay_limit) (run client 0 recovering waiting).0
    × ((delay jitter : ℕ) (t : Store)
        → delay ≤ delay_limit
        → jitter < 1000
        → min (loop_interval 0 * 2) (600 * second)
          ≤ next_delay (loop_interval 0) delay jitter (false, t))
run-delays_example =
    run-delays client 0 recovering waiting (omega arith) (omega arith, (omega arith, tt))

-- The store's event is five nanoseconds after the bound.
events_between-IsWhole_example :
    All
      (λ e. e.occurred_at / second ≡ 0 / second → e.occurred_at ≡ 0)
      (events_between 0 100 waiting)
events_between-IsWhole_example = events_between-IsWhole 0 100 waiting refl

drain_done_example :
    (t : Store) × (drain accepting client 3 waiting ≡ drained t) × (count is_pending t.events ≡ 0)
drain_done_example = drain_done accepting client 3 waiting configured accepts_all (omega arith)
